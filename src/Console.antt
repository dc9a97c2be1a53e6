-- ===== src/Console.antt =====
-- console.c: the line editor of the console. A key is what getc returns; an index into input.buf is
-- an unsigned word. `none` is an access outside an array: memmove takes its addresses without the
-- `% INPUT_BUF` that the other accesses have. The screen is hardware: `redraw_line` gives the
-- characters that it prints, and a position that is read back from the screen is an argument.
-- last_prefix is written and never read, so it is left out.
pub mod Words
pub mod Selection
pub mod Keys
pub mod Read
pub mod Line
use os_ca.Prelude.{
  ℕ, zero, suc, ◌+◌, ◌-◌, ◌^◌, ◌%◌, Bool, true, false, ◌&&◌, Option, none, some, List, [], ◌∷◌,
  ◌++◌, if◌then◌else◌, ltb, leb, ◌==◌, update, add32, sub32,
}
use os_ca.Memory.{memmove}

abbrev pub input_buf : ℕ
input_buf = 128

abbrev pub history_size : ℕ
history_size = 128

pub record Input : Type 0 where
  pub buf : ℕ → ℕ
  pub r : ℕ
  pub w : ℕ
  pub e : ℕ
  pub cursor : ℕ
  pub start_pos : ℕ

pub record Console : Type 0 where
  pub input : Input
  pub history : ℕ → ℕ
  pub history_pos : ℕ
  pub select_mode : ℕ
  pub select_anchor : ℕ
  pub select_start : ℕ
  pub select_end : ℕ
  pub clipboard : ℕ → ℕ
  pub clipboard_len : ℕ
  pub tab_press_count : ℕ
  pub autocomplete_active : Bool
  pub saved : Input
  pub prev_line_len : ℕ

-- `memmove(&input.buf[dst], &input.buf[src], n)`
pub move_bytes : (ℕ → ℕ) → ℕ → ℕ → ℕ → Option (ℕ → ℕ)
move_bytes buf dst src n =
    if n == 0
    then some buf
    else if leb (dst + n) input_buf && leb (src + n) input_buf
    then some (memmove buf dst src n)
    else none

-- `memmove` of `n` bytes from one array to another, from the places `src` and `dst` on.
pub copy_bytes : (ℕ → ℕ) → ℕ → (ℕ → ℕ) → ℕ → ℕ → Option (ℕ → ℕ)
copy_bytes to dst from src n =
    if n == 0
    then some to
    else if leb (dst + n) input_buf && leb (src + n) input_buf
    then some (λ i. if leb dst i && ltb i (dst + n) then from (src + sub32 i dst) else to i)
    else none

-- `input.buf[i] = c` with no `%`.
abbrev pub store : (ℕ → ℕ) → ℕ → ℕ → Option (ℕ → ℕ)
store buf i c = if ltb i input_buf then some (update buf i c) else none

abbrev pub history_adjust_after_insert : Console → ℕ → Console
history_adjust_after_insert s ins_pos = record s {
  history = λ i.
      if ltb i s.history_pos && leb ins_pos (s.history i)
      then add32 (s.history i) 1
      else s.history i;
}

abbrev pub history_adjust_after_delete : Console → ℕ → Console
history_adjust_after_delete s del_pos = record s {
  history = λ i.
      if ltb i s.history_pos && ltb del_pos (s.history i)
      then sub32 (s.history i) 1
      else s.history i;
}

-- `if(history_pos < HISTORY_SIZE) insert_history[history_pos++].pos = pos;`
abbrev pub remember : Console → ℕ → Console
remember s pos =
    let room = ltb s.history_pos history_size in
    record s {
      history = if room then update s.history s.history_pos pos else s.history;
      history_pos = if room then s.history_pos + 1 else s.history_pos;
    }

-- A byte as a `char`, which is signed, made an `int`; and `c | 0x7000`, which changes no negative one.
abbrev pub char_int : ℕ → ℕ
char_int c = if ltb c 128 then c else c + (2 ^ 32 - 256)

abbrev pub highlighted : ℕ → ℕ
highlighted c = if ltb c 128 then c + 0x7000 else char_int c

-- A byte of the line as redraw_line prints it: highlighted in the selection.
abbrev pub shown : Console → ℕ → ℕ
shown s i =
    let c = s.input.buf (i % input_buf) in
    if (s.select_mode == 2) && leb s.select_start i && ltb i s.select_end
    then highlighted c
    else char_int c

pub print_line : Console → ℕ → ℕ → List ℕ
print_line s i zero = []
print_line s i (suc n) = shown s i ∷ print_line s (i + 1) n

pub blanks : ℕ → List ℕ
blanks zero = []
blanks (suc n) = 0x20 ∷ blanks n

abbrev pub line_len : Console → ℕ
line_len s = sub32 s.input.e s.input.w

-- What redraw_line prints from start_pos on, and where it leaves the cursor.
pub redraw_output : Console → List ℕ × ℕ
unfolding print_line blanks
redraw_output s =
    let rest =
      if ltb (line_len s) s.prev_line_len
      then blanks (sub32 s.prev_line_len (line_len s))
      else [] in
    (
      print_line s s.input.w (line_len s) ++ rest,
      add32 s.input.start_pos (sub32 s.input.cursor s.input.w),
    )

-- Its effect on the editor's state.
abbrev pub redraw_line : Console → Console
redraw_line s = record s { prev_line_len = line_len s }
