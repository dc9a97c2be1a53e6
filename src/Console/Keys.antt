-- ===== src/Console/Keys.antt =====
-- consoleintr (console.c): what each key does to the editor. `pos` is what get_cursor_pos reads from
-- the screen. A `none` is an access outside an array. What is drawn is left out, with the panic of cgaputc on a
-- cursor outside the screen.
pub mod Insert
pub mod Delete
pub mod Paste
pub mod Undo
pub mod Faults
pub mod Safe
pub mod Moves
use os_ca.Prelude.{
  ℕ, zero, suc, ◌+◌, ◌%◌, Bool, true, false, ◌&&◌, ◌||◌, not, Option, none, some, List, [], ◌∷◌,
  if◌then◌else◌, ◌>>=◌, ltb, leb, ◌==◌, update, add32, sub32, slt32,
}
use os_ca.Console.{
  Input, Console, input_buf, move_bytes, copy_bytes, store, history_adjust_after_insert,
  history_adjust_after_delete, remember, redraw_line,
}
use os_ca.Console.Words.{next_word_pos, prev_word_pos}
use os_ca.Console.Selection.{
  ctrl, key_lf, key_rt, with_buf, is_plain_move, is_rubout, copy_selection, forget_all,
  put_replacement, replacement_len, replace_selection, on_selection, end_selection, select,
}

-- `tab_press_count = 0;`, with which most keys begin.
abbrev pub reset_tab : Console → Console
reset_tab s = record s { tab_press_count = 0 }

-- `input.e += n; input.cursor += n;`
abbrev pub extend : Console → ℕ → Console
extend s n = record s {
  input = record s.input { e = add32 s.input.e n; cursor = add32 s.input.cursor n };
}

-- case C('U')
abbrev pub kill_line : Console → Console
kill_line s = record s { input = record s.input { e = s.input.w; cursor = s.input.w } }

-- case C('H'), '\x7f'
pub rub_out : Console → Option Console
rub_out s =
    let at = s.input.cursor in
    if ltb s.input.w at
    then (do
      let s' = history_adjust_after_delete s (sub32 at 1)
      buf ← move_bytes s.input.buf (sub32 at 1) at (sub32 s.input.e at)
      some (
          redraw_line (record s' {
            input = record s.input { buf = buf; e = sub32 s.input.e 1; cursor = sub32 at 1 };
          })))
    else some s

-- The deletion of case C('Z') at `pos`, the last entry of the history, which has been taken off.
pub undo_at : Console → ℕ → Option Console
undo_at s pos =
    if ltb pos s.input.e
    then (do
      buf ← move_bytes s.input.buf pos (pos + 1) (sub32 s.input.e (pos + 1))
      let s' = history_adjust_after_delete s pos
      some (
          redraw_line (record s' {
            input = record s.input { buf = buf; e = sub32 s.input.e 1; cursor = pos };
          })))
    else some s

-- case C('Z')
pub undo : Console → Option Console
unfolding undo_at
undo s =
    if ltb 0 s.history_pos
    then (let top = sub32 s.history_pos 1 in
        undo_at (record s { history_pos = top }) (s.history top))
    else some s

-- case C('V')
pub paste : Console → Option Console
paste s =
    let n = s.clipboard_len in
    let at = s.input.cursor in
    if slt32 0 n && ltb (add32 s.input.e n) input_buf
    then (do
      buf ← move_bytes s.input.buf (at + n) at (sub32 s.input.e at)
      buf' ← copy_bytes buf at s.clipboard 0 n
      some (redraw_line (extend (with_buf s buf') n)))
    else some s

-- case KEY_LF, KEY_RT
abbrev pub cursor_left : Console → Console
cursor_left s =
    if ltb s.input.w s.input.cursor
    then record s { input = record s.input { cursor = sub32 s.input.cursor 1 } }
    else s

abbrev pub cursor_right : Console → Console
cursor_right s =
    if ltb s.input.cursor s.input.e
    then record s { input = record s.input { cursor = add32 s.input.cursor 1 } }
    else s

-- case C('D'), C('A')
abbrev pub word_right : Console → Console
word_right s =
    let next = next_word_pos s.input in
    if ltb next s.input.e then record s { input = record s.input { cursor = next } } else s

abbrev pub word_left : Console → Console
word_left s = record s { input = record s.input { cursor = prev_word_pos s.input } }

-- case '\n': the line is handed to consoleread.
abbrev pub enter : Console → Console
enter s =
    let e = add32 s.input.e 1 in
    record s {
      input = record s.input {
        buf = update s.input.buf (s.input.e % input_buf) b'\n';
        e = e;
        w = e;
        cursor = e;
        start_pos = 0;
      };
      select_mode = 0;
      history_pos = 0;
    }

-- case '\t': the line is saved and handed to the shell, which completes it.
abbrev pub tab : Console → Console
tab s =
    if s.autocomplete_active
    then s
    else (let e = add32 s.input.e 1 in
        record s {
          autocomplete_active = true;
          tab_press_count = s.tab_press_count + 1;
          saved = s.input;
          input = record s.input {
            buf = update s.input.buf (s.input.e % input_buf) b'\t';
            e = e;
            w = e;
          };
        })

-- The insertion of a character at the cursor, which completion shares.
pub insert_char : Console → ℕ → Option Console
insert_char s c = do
  let at = s.input.cursor
  let s' = remember (history_adjust_after_insert s at) at
  buf ←
      if ltb at s.input.e
      then move_bytes s.input.buf (at + 1) at (sub32 s.input.e at)
      else some s.input.buf
  some (extend (with_buf s' (update buf (at % input_buf) c)) 1)

-- The test of the default case: `c != '\n' && c != 0 && input.e - input.r < INPUT_BUF`.
abbrev pub is_typed : Console → ℕ → Bool
is_typed s c = (not (c == b'\n') && not (c == 0)) && ltb (sub32 s.input.e s.input.r) input_buf

-- default
pub type_char : Console → ℕ → ℕ → Option Console
unfolding insert_char
type_char s c pos =
    if is_typed s c && not (c == b'\r')
    then (do
      let start = if s.input.e == s.input.w then pos else s.input.start_pos
      s' ← insert_char (record s { input = record s.input { start_pos = start } }) c
      some (redraw_line s'))
    else some s

-- The switch.
pub on_key : Console → ℕ → ℕ → Option Console
unfolding rub_out undo paste type_char
on_key s c pos =
    if c == ctrl b'P'
    then some (reset_tab s)
    else if c == ctrl b'U'
    then some (kill_line (reset_tab s))
    else if is_rubout c
    then rub_out (reset_tab s)
    else if c == ctrl b'Z'
    then undo (reset_tab s)
    else if c == ctrl b'S'
    then some (select (reset_tab s))
    else if c == ctrl b'V'
    then paste (reset_tab s)
    else if c == key_lf
    then some (cursor_left (reset_tab s))
    else if c == key_rt
    then some (cursor_right (reset_tab s))
    else if c == ctrl b'D'
    then some (word_right (reset_tab s))
    else if c == ctrl b'A'
    then some (word_left (reset_tab s))
    else if c == b'\n'
    then some (enter s)
    else if c == b'\t'
    then some (tab s)
    else type_char s c pos

-- One key of the loop of consoleintr.
pub press : Console → ℕ → ℕ → Option Console
unfolding on_selection on_key
press s c pos =
    if c == 0 then some s else if s.select_mode == 2 then on_selection s c else on_key s c pos

-- The loop, over the keys that getc returns until it is negative.
pub consoleintr : Console → List (ℕ × ℕ) → Option Console
unfolding press
consoleintr s [] = some s
consoleintr s ((c, pos) ∷ keys) = do s' ← press s c pos; consoleintr s' keys
