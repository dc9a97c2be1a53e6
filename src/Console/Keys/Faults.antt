-- ===== src/Console/Keys/Faults.antt =====
-- Keys at which console.c accesses memory outside its buffers.
use os_ca.Prelude.{
  ℕ, ◌+◌, ◌-◌, ◌<◌, ◌≤◌, ◌≡◌, refl, ap, ◌∙◌, ◌^◌, true, false, ◌&&◌, Option, none, some, List, [],
  ◌∷◌, arith, ltb, ◌==◌, sub32, ◌>>=◌, ◌≢◌, not,
}
use os_ca.Console.{Console, input_buf, move_bytes, redraw_line}
use os_ca.Console.Keys.{insert_char, is_typed, type_char, press, on_key, consoleintr}
use os_ca.Console.Selection.{
  on_selection, replace_selection, is_plain_move, ctrl, replacement_len, end_selection, key_lf,
}

far : (buf : ℕ → ℕ) (dst src n : ℕ) → 0 < n → input_buf < dst + n → move_bytes buf dst src n ≡ none
unfolding move_bytes
far buf dst src n p h = ground arith

far_source :
    (buf : ℕ → ℕ) (dst src n : ℕ) → 0 < n → input_buf < src + n → move_bytes buf dst src n ≡ none
unfolding move_bytes
far_source buf dst src n p h = ground arith

-- A bug: the indices of the line grow by every character since the start of the machine, and memmove
-- uses them without `% INPUT_BUF`. Once the line ends at or past INPUT_BUF, and while fewer than INPUT_BUF bytes
-- are unread, so that the key is not ignored, typing a character (any but a carriage return, a newline
-- and 0) before the end of the line, behind what is read, accesses memory outside input.buf.
pub typing_overruns :
    (s : Console) (c pos : ℕ)
    → s.input.r ≤ s.input.cursor
    → s.input.cursor < s.input.e
    → input_buf ≤ s.input.e
    → s.input.e < s.input.r + input_buf
    → s.input.e < 2 ^ 32 - 1
    → c ≢ b'\r'
    → c ≢ b'\n'
    → c ≢ 0
    → type_char s c pos ≡ none
unfolding type_char insert_char
typing_overruns s c pos r l h room small ne nl nz =
    let n : sub32 s.input.e s.input.cursor ≡ s.input.e - s.input.cursor = omega arith in
    let t : ltb s.input.cursor s.input.e ≡ true = ground arith in
    let fits : (is_typed s c && not (c == b'\r')) ≡ true = ground arith in
    rw
      (
        fits,
        t,
        n,
        far s.input.buf (s.input.cursor + 1) s.input.cursor (s.input.e - s.input.cursor)
            (omega arith) (omega arith),
      )
      refl

-- A selection whose end is behind the end of the line.
replacing_overruns :
    (s : Console) (c pos : ℕ)
    → s.select_mode ≡ 2
    → s.select_end ≡ s.input.e + 1
    → s.select_start < s.input.e
    → s.input.e < 2 ^ 32 - 1
    → is_plain_move c ≡ false
    → c ≢ ctrl b'C'
    → c ≢ 0
    → press s c pos ≡ none
unfolding press on_selection replace_selection
replacing_overruns s c pos m h l small p ne z =
    let n : sub32 s.input.e s.select_end ≡ 2 ^ 32 - 1 = omega (arith, h) in
    let longer : (sub32 s.select_end s.select_start == replacement_len c) ≡ false =
      ground (arith, h) in
    let q : (c == ctrl b'C') ≡ false = ground arith in
    let z' : (c == 0) ≡ false = ground arith in
    let two : (s.select_mode == 2) ≡ true = ground arith in
    rw
      (
        z',
        two,
        p,
        q,
        longer,
        n,
        far s.input.buf (s.select_start + replacement_len c) s.select_end (2 ^ 32 - 1) (omega arith)
            (omega arith),
      )
      refl

-- The states of the editor between the keys of the theorem below.
abbrev anchored : Console → Console
anchored s = record s { tab_press_count = 0; select_anchor = s.input.cursor; select_mode = 1 }

abbrev moved_left : Console → Console
moved_left s = record (anchored s) { input = record s.input { cursor = sub32 s.input.cursor 1 } }

abbrev selected : Console → Console
selected s = redraw_line (end_selection (moved_left s))

anchored-press :
    (s : Console) (p : ℕ) → s.select_mode ≡ 0 → press s (ctrl b'S') p ≡ some (anchored s)
unfolding press on_key
anchored-press s p m = ground arith

moved_left-press :
    (s : Console) (p : ℕ)
    → s.input.w < s.input.cursor
    → press (anchored s) key_lf p ≡ some (moved_left s)
unfolding press on_key
moved_left-press s p l = ground arith

selected-press : (s : Console) (p : ℕ) → press (moved_left s) (ctrl b'S') p ≡ some (selected s)
unfolding press on_key
selected-press s p = refl

consoleintr-cons :
    (s s' : Console) (c pos : ℕ) (keys : List (ℕ × ℕ))
    → press s c pos ≡ some s'
    → consoleintr s ((c, pos) ∷ keys) ≡ consoleintr s' keys
unfolding consoleintr
consoleintr-cons s s' c pos keys h = ap (λ (o : Option Console). o >>= λ t. consoleintr t keys) h

consoleintr_fault :
    (s : Console) (c pos : ℕ) (keys : List (ℕ × ℕ))
    → press s c pos ≡ none
    → consoleintr s ((c, pos) ∷ keys) ≡ none
unfolding consoleintr
consoleintr_fault s c pos keys h = ap (λ (o : Option Console). o >>= λ t. consoleintr t keys) h

-- A bug: a selection is made one longer than the characters between its two ends. If Ctrl-S is pressed at
-- the end of a line that is not empty, then cursor left, and Ctrl-S again, the selection ends one place
-- behind the line. A key that then replaces the selection (any but those that end or copy it) moves about
-- 2 ^ 32 bytes: the count `input.e - end` is -1 as an unsigned word.
pub select_at_end_overruns :
    (s : Console) (c p1 p2 p3 p4 : ℕ)
    → s.select_mode ≡ 0
    → s.input.w < s.input.e
    → s.input.cursor ≡ s.input.e
    → s.input.e < 2 ^ 32 - 1
    → is_plain_move c ≡ false
    → c ≢ ctrl b'C'
    → c ≢ 0
    → consoleintr s ((ctrl b'S', p1) ∷ (key_lf, p2) ∷ (ctrl b'S', p3) ∷ (c, p4) ∷ []) ≡ none
select_at_end_overruns s c p1 p2 p3 p4 m l a small p ne z =
    consoleintr-cons s (anchored s) (ctrl b'S') p1 _ (anchored-press s p1 m)
    ∙ consoleintr-cons (anchored s) (moved_left s) key_lf p2 _ (moved_left-press s p2 (omega arith))
    ∙ consoleintr-cons (moved_left s) (selected s) (ctrl b'S') p3 _ (selected-press s p3)
    ∙ consoleintr_fault (selected s) c p4 [] (
        replacing_overruns (selected s) c p4 (ground arith) (ground arith) (ground arith) small p ne
          z)
