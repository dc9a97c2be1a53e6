-- ===== src/Console/Keys/Safe.antt =====
-- The keys that keep the line of console.c within its buffer.
use os_ca.Prelude.{
  ℕ, ◌||◌, ◌+◌, ◌<◌, ◌≤◌, ◌≡◌, refl, Option, none, some, arith, ltb, ◌==◌, add32, sub32, Bool-cases,
  either, inl, inr, ◌≢◌,
}
use os_ca.Console.{Console, input_buf, redraw_line}
use os_ca.Console.Words.{next_word_pos, prev_word_pos}
use os_ca.Console.Words.Stops.{next_word_pos_bounds, prev_word_pos_bounds}
use os_ca.Console.Keys.{
  reset_tab, rub_out, paste, cursor_left, cursor_right, word_right, word_left, enter, type_char,
  on_key, press,
}
use os_ca.Console.Selection.{ctrl, key_lf, key_rt, is_rubout, select, end_selection}
use os_ca.Console.Keys.Delete.{rub_out_lem}
use os_ca.Console.Keys.Paste.{type_char_lem, paste_lem}
use os_ca.Console.Line.{IsEditing}

-- A key that does not leave the buffer, and what it leaves.
abbrev pub Keeps : Option Console → Type 0
Keeps none = ⊥
Keeps (some s) = IsEditing s

keeps : {o : Option Console} (s : Console) → o ≡ some s → IsEditing s → Keeps o
keeps s e v = rw e v

-- A state with the same line.
same_line :
    (s s' : Console)
    → s'.input ≡ s.input
    → s'.history_pos ≡ s.history_pos
    → IsEditing s
    → IsEditing s'
same_line s s' i h v = record {
  starts = rw i v.starts;
  ends = rw i v.ends;
  fits = rw i v.fits;
  recorded = rw h v.recorded;
  unread = rw i v.unread;
}

moved_to :
    (s : Console) (at : ℕ)
    → IsEditing s
    → s.input.w ≤ at
    → at ≤ s.input.e
    → IsEditing (record s { input = record s.input { cursor = at } })
moved_to s at v l h = record {
  starts = l;
  ends = h;
  fits = v.fits;
  recorded = v.recorded;
  unread = v.unread;
}

cursor_left-IsEditing : (s : Console) → IsEditing s → IsEditing (cursor_left s)
cursor_left-IsEditing s v = elim (Bool-cases (ltb s.input.w s.input.cursor)) [
  | inl t ↦ rw t (
      moved_to s (sub32 s.input.cursor 1) v (ground (arith, v.ends, v.fits))
        (ground (arith, v.ends, v.fits)))
  | inr t ↦ rw t v
]

cursor_right-IsEditing : (s : Console) → IsEditing s → IsEditing (cursor_right s)
cursor_right-IsEditing s v = elim (Bool-cases (ltb s.input.cursor s.input.e)) [
  | inl t ↦ rw t (
      moved_to s (add32 s.input.cursor 1) v (ground (arith, v.starts, v.fits))
        (ground (arith, v.fits)))
  | inr t ↦ rw t v
]

word_right-IsEditing : (s : Console) → IsEditing s → IsEditing (word_right s)
word_right-IsEditing s v = elim (Bool-cases (ltb (next_word_pos s.input) s.input.e)) [
  | inl t ↦
      let p = next_word_pos_bounds s.input v.ends in
      rw t (moved_to s (next_word_pos s.input) v (omega (arith, v.starts, p.0)) (ground arith))
  | inr t ↦ rw t v
]

word_left-IsEditing : (s : Console) → IsEditing s → IsEditing (word_left s)
word_left-IsEditing s v =
    let p = prev_word_pos_bounds s.input v.starts in
    moved_to s (prev_word_pos s.input) v p.0 (omega (arith, p.1, v.ends))

enter-IsEditing : (s : Console) → IsEditing s → s.input.e < input_buf → IsEditing (enter s)
enter-IsEditing s v h = record {
  starts = omega arith;
  ends = omega arith;
  fits = omega arith;
  recorded = omega arith;
  unread = omega (arith, v.unread, v.starts, v.ends);
}

rub_out-Keeps : (s : Console) → IsEditing s → Keeps (rub_out s)
rub_out-Keeps s v = elim (Bool-cases (ltb s.input.w s.input.cursor)) [
  | inl t ↦ let (s', x, e, b, c, k) = (rub_out_lem s v).1 (ground arith) in keeps s' e k
  | inr t ↦ keeps s ((rub_out_lem s v).0 (ground (arith, v.starts))) v
]

paste-Keeps : (s : Console) → IsEditing s → s.clipboard_len ≤ input_buf → Keeps (paste s)
paste-Keeps s v c =
    let p = paste_lem s v c in
    elim (Bool-cases (s.clipboard_len == 0)) [
      | inl z ↦ keeps s (p.0 (ground arith)) v
      | inr z ↦ elim (Bool-cases (ltb (s.input.e + s.clipboard_len) input_buf)) [
        | inl t ↦ let (s', e, b, d, k) = p.2 (ground arith) (ground arith) in keeps s' e k
        | inr t ↦ keeps s (p.1 (ground arith)) v
      ]
    ]

select-IsEditing : (s : Console) → IsEditing s → IsEditing (select s)
select-IsEditing s v = elim (Bool-cases (s.select_mode == 0)) [
  | inl t ↦
      rw t (same_line s (record s { select_anchor = s.input.cursor; select_mode = 1 }) refl refl v)
  | inr t ↦ rw t (same_line s (redraw_line (end_selection s)) refl refl v)
]

type_char-Keeps :
    (s : Console) (c pos : ℕ) → IsEditing s → s.input.e < input_buf → Keeps (type_char s c pos)
unfolding type_char
type_char-Keeps s c pos v h = elim (Bool-cases (c == b'\r')) [
  | inl t ↦ keeps s (ground (arith, t)) v
  | inr t ↦ elim (Bool-cases ((c == b'\n') || (c == 0))) [
    | inl u ↦ keeps s (ground (arith, u)) v
    | inr u ↦
        let (s', e, b, d, k) =
          type_char_lem s c pos v h (ground (arith, t)) (ground (arith, u)) (ground (arith, u)) in
        keeps s' e k
  ]
]

on_key-Keeps :
    (s : Console) (c pos : ℕ)
    → IsEditing s
    → s.input.e < input_buf
    → s.clipboard_len ≤ input_buf
    → c ≢ ctrl b'Z'
    → c ≢ b'\t'
    → Keeps (on_key s c pos)
unfolding on_key
on_key-Keeps s c pos v h k nz nt =
    let v' = same_line s (reset_tab s) refl refl v in
    either Keeps (c == ctrl b'P') (λ _. v')
      (λ _.
        either Keeps (c == ctrl b'U')
          (λ _. record {
            starts = omega arith;
            ends = omega arith;
            fits = omega (arith, v.starts, v.ends, v.fits);
            recorded = v.recorded;
            unread = v.unread;
          })
          (λ _.
            either Keeps (is_rubout c) (λ _. rub_out-Keeps (reset_tab s) v')
              (λ _.
                either Keeps (c == ctrl b'Z') (λ e. absurd (ground arith))
                  (λ _.
                    either Keeps (c == ctrl b'S') (λ _. select-IsEditing (reset_tab s) v')
                      (λ _.
                        either Keeps (c == ctrl b'V') (λ _. paste-Keeps (reset_tab s) v' k)
                          (λ _.
                            either Keeps (c == key_lf) (λ _. cursor_left-IsEditing (reset_tab s) v')
                              (λ _.
                                either Keeps (c == key_rt)
                                  (λ _. cursor_right-IsEditing (reset_tab s) v')
                                  (λ _.
                                    either Keeps (c == ctrl b'D')
                                      (λ _. word_right-IsEditing (reset_tab s) v')
                                      (λ _.
                                        either Keeps (c == ctrl b'A')
                                          (λ _. word_left-IsEditing (reset_tab s) v')
                                          (λ _.
                                            either Keeps (c == b'\n') (λ _. enter-IsEditing s v h)
                                              (λ _.
                                                either Keeps (c == b'\t')
                                                  (λ e. absurd (ground arith))
                                                  (λ _. type_char-Keeps s c pos v h))))))))))))

-- While the line ends before the end of the buffer, the clipboard has at most as many bytes as the buffer, and
-- nothing is selected, no key but undo and tab makes the editor access its buffers outside their bounds,
-- and the line is well formed afterwards: the cursor is in the line, and the line in the buffer. Of the
-- screen, which the key also draws to, nothing is said.
pub press-Keeps :
    (s : Console) (c pos : ℕ)
    → IsEditing s
    → s.input.e < input_buf
    → s.clipboard_len ≤ input_buf
    → s.select_mode ≢ 2
    → c ≢ ctrl b'Z'
    → c ≢ b'\t'
    → Keeps (press s c pos)
unfolding press
press-Keeps s c pos v h k m nz nt =
    either Keeps (c == 0) (λ _. v)
      (λ _.
        either Keeps (s.select_mode == 2) (λ e. absurd (ground arith))
          (λ _. on_key-Keeps s c pos v h k nz nt))
