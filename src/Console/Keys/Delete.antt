-- ===== src/Console/Keys/Delete.antt =====
-- Deletion before the cursor, and undoing (console.c).
use os_ca.Prelude.{
  slice, slice-eq, slice-snoc, ℕ, ◌+◌, ◌-◌, ◌<◌, ◌≤◌, ◌≡◌, refl, ap, ◌∙◌, sym, true, some, List, [],
  ◌∷◌, ◌++◌, arith, ltb, sub32,
}
use os_ca.Memory.{memmove}
use os_ca.Memory.Move.{memmove_lem}
use os_ca.Console.{Console, input_buf, move_bytes, history_adjust_after_delete, redraw_line}
use os_ca.Console.Keys.{rub_out, undo_at}
use os_ca.Console.Line.{IsEditing, before, behind, move_bytes-memmove}

-- The buffer after the byte at `at` has been taken from a line that ends at `e`.
pub record Deleted (buf buf' : ℕ → ℕ) (at e : ℕ) : Type 0 where
  pub below : (i : ℕ) → i < at → buf' i ≡ buf i
  pub above : (i : ℕ) → at ≤ i → i + 1 < e → buf' i ≡ buf (i + 1)

abbrev pub closed : (ℕ → ℕ) → ℕ → ℕ → ℕ → ℕ
closed buf at e = memmove buf at (at + 1) (e - (at + 1))

closed_lem :
    (buf : ℕ → ℕ) (at e : ℕ)
    → at < e
    → e ≤ input_buf
    → move_bytes buf at (at + 1) (sub32 e (at + 1)) ≡ some (closed buf at e)
closed_lem buf at e l h =
    let n : sub32 e (at + 1) ≡ e - (at + 1) = omega arith in
    rw n (move_bytes-memmove buf at (at + 1) (e - (at + 1)) (omega arith) (omega arith))

closed_before :
    (buf : ℕ → ℕ) (at e : ℕ)
    → 0 < at
    → at ≤ e
    → e ≤ input_buf
    → move_bytes buf (at - 1) at (sub32 e at) ≡ some (closed buf (at - 1) e)
closed_before buf at e p l h =
    let n : sub32 e at ≡ e - at = omega arith in
    let back : at - 1 + 1 ≡ at = omega arith in
    rw (n, back) (move_bytes-memmove buf (at - 1) at (e - at) (omega arith) (omega arith))

pub Deleted-closed :
    (buf : ℕ → ℕ) (at e : ℕ) → at < e → e ≤ input_buf → Deleted buf (closed buf at e) at e
Deleted-closed buf at e l h = record {
  below = λ i k. ground (arith, memmove_lem buf at (at + 1) (e - (at + 1)) i);
  above = λ i k k'.
      let x : at + 1 + (i - at) ≡ i + 1 = omega arith in
      ground (arith, memmove_lem buf at (at + 1) (e - (at + 1)) i, ap buf x);
}

-- What a deletion at `at` does to the two parts of a line from `w` to `e`.
module _ {buf buf' : ℕ → ℕ} {w at e : ℕ} (l : w ≤ at) (l' : at < e)
    (del : Deleted buf buf' at e) where
  slice-Deleted_before : slice buf' w (at - w) ≡ slice buf w (at - w)
  slice-Deleted_before = slice-eq buf' buf w w (at - w) (λ i k. del.below (w + i) (omega arith))

  slice-Deleted_behind : slice buf' at (e - 1 - at) ≡ slice buf (at + 1) (e - (at + 1))
  slice-Deleted_behind =
      let n : e - 1 - at ≡ e - (at + 1) = omega arith in
      ap (slice buf' at) n
      ∙ slice-eq buf' buf at (at + 1) (e - (at + 1)) (λ i k.
        let x : at + i + 1 ≡ at + 1 + i = omega arith in
        del.above (at + i) (omega arith) (omega arith) ∙ ap buf x)

-- The state that the deletion of the byte at `at` leaves, with the cursor there.
abbrev pub erased : Console → ℕ → Console
erased s at = redraw_line (record (history_adjust_after_delete s at) {
  input = record s.input {
    buf = closed s.input.buf at s.input.e;
    e = sub32 s.input.e 1;
    cursor = at;
  };
})

pub rub_out-erased :
    (s : Console)
    → IsEditing s
    → s.input.w < s.input.cursor
    → rub_out s ≡ some (erased s (s.input.cursor - 1))
unfolding rub_out
rub_out-erased s v h =
    let x : sub32 s.input.cursor 1 ≡ s.input.cursor - 1 = omega (arith, v.ends, v.fits) in
    let t : ltb s.input.w s.input.cursor ≡ true = ground arith in
    rw (t, x, closed_before s.input.buf s.input.cursor s.input.e (omega arith) v.ends v.fits) refl

pub erased-IsEditing :
    (s : Console) (at : ℕ) → IsEditing s → s.input.w ≤ at → at < s.input.e → IsEditing (erased s at)
erased-IsEditing s at v l h = record {
  starts = l;
  ends = omega (arith, v.fits);
  fits = omega (arith, v.fits);
  recorded = v.recorded;
  unread = v.unread;
}

pub undo_at-erased :
    (s : Console) (at : ℕ)
    → at < s.input.e
    → s.input.e ≤ input_buf
    → undo_at s at ≡ some (erased s at)
unfolding undo_at
undo_at-erased s at l h =
    let t : ltb at s.input.e ≡ true = ground arith in
    rw (t, closed_lem s.input.buf at s.input.e l h) refl

-- Where the cursor stands before a byte of the line, `erased` takes this byte away.
pub erased_lem :
    (s : Console) (at : ℕ)
    → IsEditing s
    → s.input.w ≤ at
    → at < s.input.e
    → (before (erased s at) ≡ slice s.input.buf s.input.w (at - s.input.w))
      × (behind (erased s at) ≡ slice s.input.buf (at + 1) (s.input.e - (at + 1)))
erased_lem s at v l h =
    let del = Deleted-closed s.input.buf at s.input.e h v.fits in
    let x : sub32 s.input.e 1 ≡ s.input.e - 1 = omega (arith, v.fits) in
    (slice-Deleted_before l h del, rw x (slice-Deleted_behind l h del))

-- While the line ends within the buffer, backspace with a character before the cursor takes just this
-- character away and leaves the line well formed; at the start of the line it changes nothing.
pub rub_out_lem :
    (s : Console)
    → IsEditing s
    → (s.input.cursor ≡ s.input.w → rub_out s ≡ some s)
      × (s.input.w < s.input.cursor
          → (s' : Console) × (x : ℕ) × (rub_out s ≡ some s')
            × (before s ≡ before s' ++ x ∷ [])
            × (behind s' ≡ behind s)
            × IsEditing s')
unfolding rub_out
rub_out_lem s v = (
  λ e. ground arith,
  λ h.
      let at = s.input.cursor - 1 in
      let p = erased_lem s at v (omega arith) (omega (arith, v.ends)) in
      let n : s.input.cursor - s.input.w ≡ at - s.input.w + 1 = omega arith in
      let m : at + 1 ≡ s.input.cursor = omega arith in
      (
        erased s at,
        s.input.buf (s.input.w + (at - s.input.w)),
        rub_out-erased s v h,
        ap (slice s.input.buf s.input.w) n
            ∙ slice-snoc s.input.buf s.input.w (at - s.input.w)
            ∙ ap (λ (l : List ℕ). l ++ s.input.buf (s.input.w + (at - s.input.w)) ∷ []) (sym p.0),
        p.1 ∙ ap (λ (x : ℕ). slice s.input.buf x (s.input.e - x)) m,
        erased-IsEditing s at v (omega arith) (omega (arith, v.ends)),
      ),
)
