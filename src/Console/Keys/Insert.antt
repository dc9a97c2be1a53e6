-- ===== src/Console/Keys/Insert.antt =====
-- Insertion and deletion at the cursor (console.c).
use os_ca.Prelude.{
  slice, slice-eq, slice-snoc, ℕ, ◌+◌, ◌-◌, ◌<◌, ◌≤◌, ◌≡◌, refl, ap, ◌∙◌, sym, ◌%◌, some, [], ◌∷◌,
  ◌++◌, arith, if◌then◌else◌, ltb, update, add32, sub32, Bool-cases, inl, inr,
}
use os_ca.Memory.{memmove}
use os_ca.Memory.Move.{memmove_lem, memmove-zero}
use os_ca.Console.{Console, input_buf, move_bytes, remember, history_adjust_after_insert}
use os_ca.Console.Keys.{insert_char, extend}
use os_ca.Console.Selection.{with_buf}
use os_ca.Console.Line.{IsEditing, before, behind, move_bytes-memmove}

-- The buffer after the insertion of `c` at `at` into a line that ends at `e`.
pub record Inserted (buf buf' : ℕ → ℕ) (at e c : ℕ) : Type 0 where
  pub below : (i : ℕ) → i < at → buf' i ≡ buf i
  pub here : buf' at ≡ c
  pub above : (i : ℕ) → at ≤ i → i < e → buf' (i + 1) ≡ buf i

abbrev pub opened : (ℕ → ℕ) → ℕ → ℕ → ℕ → ℕ
opened buf at e = memmove buf (at + 1) at (e - at)

opened_lem :
    (buf : ℕ → ℕ) (at e : ℕ)
    → at ≤ e
    → e < input_buf
    → (if ltb at e then move_bytes buf (at + 1) at (sub32 e at) else some buf)
      ≡ some (opened buf at e)
opened_lem buf at e l h = elim (Bool-cases (ltb at e)) [
  | inl t ↦
      let n : sub32 e at ≡ e - at = omega arith in
      rw (t, n) (move_bytes-memmove buf (at + 1) at (e - at) (omega arith) (omega arith))
  | inr t ↦
      let n : e - at ≡ 0 = ground arith in
      rw (t, n) (ap (λ (b : ℕ → ℕ). some b) (sym (memmove-zero buf (at + 1) at)))
]

pub Inserted-opened :
    (buf : ℕ → ℕ) (at e c : ℕ)
    → at ≤ e
    → e < input_buf
    → Inserted buf (update (opened buf at e) (at % input_buf) c) at e c
Inserted-opened buf at e c l h =
    let m : at % input_buf ≡ at = omega arith in
    rw m (record {
      below = λ i k. ground (arith, memmove_lem buf (at + 1) at (e - at) i);
      here = ground arith;
      above = λ i k k'.
          let x : at + (i + 1 - (at + 1)) ≡ i = omega arith in
          ground (arith, memmove_lem buf (at + 1) at (e - at) (i + 1), ap buf x);
    })

-- What an insertion does to the two parts of a line from `w` to `e`.
module _ {buf buf' : ℕ → ℕ} {w at e c : ℕ} (l : w ≤ at) (l' : at ≤ e)
    (ins : Inserted buf buf' at e c) where
  pub slice-Inserted_before : slice buf' w (at + 1 - w) ≡ slice buf w (at - w) ++ c ∷ []
  slice-Inserted_before =
      let n : at + 1 - w ≡ at - w + 1 = omega arith in
      let last : w + (at - w) ≡ at = omega arith in
      ap (slice buf' w) n
      ∙ slice-snoc buf' w (at - w)
      ∙ cc (
        slice-eq buf' buf w w (at - w) (λ i k. ins.below (w + i) (omega arith)),
        ap buf' last,
        ins.here,
      )

  pub slice-Inserted_behind : slice buf' (at + 1) (e + 1 - (at + 1)) ≡ slice buf at (e - at)
  slice-Inserted_behind =
      let n : e + 1 - (at + 1) ≡ e - at = omega arith in
      ap (slice buf' (at + 1)) n
      ∙ slice-eq buf' buf (at + 1) at (e - at) (λ i k.
        let x : at + 1 + i ≡ at + i + 1 = omega arith in
        ap buf' x ∙ ins.above (at + i) (omega arith) (omega arith))

-- The state that an insertion leaves.
abbrev pub typed : Console → ℕ → Console
typed s c =
    let at = s.input.cursor in
    extend
      (with_buf (remember (history_adjust_after_insert s at) at)
        (update (opened s.input.buf at s.input.e) (at % input_buf) c))
      1

pub insert_char-typed :
    (s : Console) (c : ℕ) → IsEditing s → s.input.e < input_buf → insert_char s c ≡ some (typed s c)
unfolding insert_char
insert_char-typed s c v h = rw (opened_lem s.input.buf s.input.cursor s.input.e v.ends h) refl

pub typed-IsEditing :
    (s : Console) (c : ℕ) → IsEditing s → s.input.e < input_buf → IsEditing (typed s c)
typed-IsEditing s c v h = record {
  starts = ground (arith, v.starts, v.ends);
  ends = ground (arith, v.ends);
  fits = ground arith;
  recorded = ground (arith, v.recorded);
  unread = v.unread;
}

pub typed_lem :
    (s : Console) (c : ℕ)
    → IsEditing s
    → s.input.e < input_buf
    → (before (typed s c) ≡ before s ++ c ∷ []) × (behind (typed s c) ≡ behind s)
typed_lem s c v h =
    let at = s.input.cursor in
    let ins = Inserted-opened s.input.buf at s.input.e c v.ends h in
    let x : add32 at 1 ≡ at + 1 = omega (arith, v.ends) in
    let y : add32 s.input.e 1 ≡ s.input.e + 1 = omega arith in
    (
      rw x (slice-Inserted_before v.starts v.ends ins),
      rw (x, y) (slice-Inserted_behind v.starts v.ends ins),
    )
