-- ===== src/Console/Selection.antt =====
-- consoleintr (console.c): the keys that make and use a selection. A `none` is an access outside an
-- array.
use os_ca.Prelude.{
  ℕ, zero, suc, ◌+◌, Bool, ◌||◌, Option, some, if◌then◌else◌, ◌>>=◌, ltb, leb, ◌==◌, add32, sub32,
  slt32,
}
use os_ca.Console.{
  Console, input_buf, move_bytes, copy_bytes, store, history_adjust_after_insert,
  history_adjust_after_delete, remember, redraw_line,
}

-- `C(x)` and the codes of kbd.h.
abbrev pub ctrl : ℕ → ℕ
ctrl x = sub32 x b'@'

abbrev pub key_lf : ℕ
key_lf = 0xe4

abbrev pub key_rt : ℕ
key_rt = 0xe5

abbrev pub with_buf : Console → (ℕ → ℕ) → Console
with_buf s buf = record s { input = record s.input { buf = buf } }

-- The keys that only end a selection.
abbrev pub is_plain_move : ℕ → Bool
is_plain_move c =
    (c == key_lf)
    || (c == key_rt)
    || (c == ctrl b'A')
    || (c == ctrl b'D')
    || (c == ctrl b'S')
    || (c == ctrl b'Z')
    || (c == ctrl b'V')

abbrev pub is_rubout : ℕ → Bool
is_rubout c = (c == ctrl b'H') || (c == 0x7f)

-- C('C') on a selection.
unfoldable pub copy_selection : Console → Option Console
copy_selection s = do
  let len = sub32 s.select_end s.select_start
  let n = if slt32 input_buf len then input_buf else len
  clipboard ← copy_bytes s.clipboard 0 s.input.buf s.select_start n
  some (record s { clipboard = clipboard; clipboard_len = n })

-- `for(int i = 0; i < len; i++) history_adjust_after_delete(start);`
unfoldable pub forget_all : ℕ → Console → ℕ → Console
forget_all zero s start = s
forget_all (suc n) s start = forget_all n (history_adjust_after_delete s start) start

-- What follows the memmove when a key replaces the selection, with one character or with none.
unfoldable pub put_replacement : Console → ℕ → Option Console
unfolding forget_all
put_replacement s c =
    let start = s.select_start in
    let len = sub32 s.select_end start in
    if is_rubout c
    then some
        (forget_all len (record s { input = record s.input { e = sub32 s.input.e len } }) start)
    else (do
      buf ← store s.input.buf start c
      let s' = record s { input = record s.input { e = add32 (sub32 s.input.e len) 1; buf = buf } }
      some (remember (history_adjust_after_insert s' start) start))

abbrev pub replacement_len : ℕ → ℕ
replacement_len c = if is_rubout c then 0 else 1

-- A key that replaces the selection.
unfoldable pub replace_selection : Console → ℕ → Option Console
unfolding put_replacement
replace_selection s c = do
  let start = s.select_start
  let len = sub32 s.select_end start
  let moved =
      if len == replacement_len c
      then some s.input.buf
      else move_bytes s.input.buf (start + replacement_len c) s.select_end
          (sub32 s.input.e s.select_end)
  buf ← moved
  s' ← put_replacement (record (with_buf s buf) { select_mode = 0 }) c
  some (redraw_line (record s' { input = record s'.input { cursor = start + replacement_len c } }))

-- `if (select_mode == 2)`: a key on a finished selection.
unfoldable pub on_selection : Console → ℕ → Option Console
unfolding copy_selection replace_selection
on_selection s c =
    if is_plain_move c
    then some (redraw_line (record s { select_mode = 0 }))
    else if c == ctrl b'C'
    then copy_selection s
    else replace_selection s c

-- The ends of the selection, and whether it is taken back.
abbrev pub end_selection : Console → Console
end_selection s =
    let at = s.input.cursor in
    let below = ltb at s.select_anchor in
    let lo = if below then at else s.select_anchor in
    let hi = if below then add32 s.select_anchor 1 else add32 at 1 in
    record s {
      select_start = lo;
      select_end = hi;
      select_mode = if leb (sub32 hi 1) lo then 0 else 2;
    }

-- case C('S')
abbrev pub select : Console → Console
select s =
    if s.select_mode == 0
    then record s { select_anchor = s.input.cursor; select_mode = 1 }
    else redraw_line (end_selection s)
