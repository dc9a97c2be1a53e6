-- ===== src/Tests/Editing.antt =====
-- The theorems on the console and on the arguments of system calls, on small inputs.
use os_ca.Prelude.{
  ℕ, ◌+◌, ◌<◌, ◌≤◌, ◌≡◌, ◌↔◌, refl, true, false, none, some, [], ◌∷◌, ◌++◌, arith, if◌then◌else◌,
  ◌==◌, ◌>>=◌, ◌^◌,
}
use os_ca.Memory.{strlen}
use os_ca.Console.{Input, Console}
use os_ca.Console.Line.{IsEditing, before, behind}
use os_ca.Console.Keys.Moves.{IsRun, word_right_lem}
use os_ca.Console.Keys.{type_char, undo, press, enter, word_right}
use os_ca.Console.Selection.{ctrl}
use os_ca.Console.Keys.Paste.{type_char_lem}
use os_ca.Console.Keys.Undo.{SameLine, undo-type_char}
use os_ca.Console.Keys.Faults.{typing_overruns}
use os_ca.Console.Keys.Safe.{Keeps, press-Keeps}
use os_ca.Console.Read.{returned, consoleread}
use os_ca.Console.Read.Lines.{pending}
use os_ca.Console.Read.Handover.{consoleread-enter}
use os_ca.Arguments.{Caller, fetchint, find_nul, fetchstr, argint, argptr, argstr}
use os_ca.Arguments.Bounds.{argptr_lem}
use os_ca.Arguments.Strings.{argstr-strlen}

-- "a b", with the cursor behind the `a`.
abbrev letters : ℕ → ℕ
letters i = if i == 0 then b'a' else if i == 1 then b' ' else b'b'

abbrev line : Input
line = record { buf = letters; r = 0; w = 0; e = 3; cursor = 1; start_pos = 0 }

abbrev edited : Console
edited = record {
  input = line;
  history = λ i. i;
  history_pos = 3;
  select_mode = 0;
  select_anchor = 0;
  select_start = 0;
  select_end = 0;
  clipboard = letters;
  clipboard_len = 2;
  tab_press_count = 0;
  autocomplete_active = false;
  saved = line;
  prev_line_len = 3;
}

edited-IsEditing : IsEditing edited
edited-IsEditing = record {
  starts = omega arith;
  ends = omega arith;
  fits = omega arith;
  recorded = omega arith;
  unread = omega arith;
}

-- The same line, with the cursor at its end.
abbrev at_end : Console
at_end = record edited { input = record line { cursor = 3 } }

-- A line at the end of a machine's first 130 characters.
abbrev late : Console
late = record edited { input = record line { r = 100; w = 100; e = 130; cursor = 120 } }

type_char_lem_example :
    (s' : Console) × (type_char edited b'x' 7 ≡ some s')
    × (before s' ≡ before edited ++ b'x' ∷ [])
    × (behind s' ≡ behind edited)
    × IsEditing s'
type_char_lem_example =
    type_char_lem edited b'x' 7 edited-IsEditing (omega arith) (omega arith) (omega arith)
      (omega arith)

undo-type_char_example :
    (s' : Console) × ((type_char edited b'x' 7 >>= undo) ≡ some s') × SameLine edited s'
undo-type_char_example =
    undo-type_char edited b'x' 7 edited-IsEditing (omega arith) (omega arith) (λ i l. omega arith)
      (omega arith) (omega arith) (omega arith)

typing_overruns_example : type_char late b'x' 7 ≡ none
typing_overruns_example =
    typing_overruns late b'x' 7 (omega arith) (omega arith) (omega arith) (omega arith)
      (omega arith) (omega arith) (omega arith) (omega arith)

press-Keeps_example : Keeps (press edited (ctrl b'A') 0)
press-Keeps_example =
    press-Keeps edited (ctrl b'A') 0 edited-IsEditing (omega arith) (omega arith) (omega arith)
      (omega arith) (omega arith)

word_right_lem_example :
    (a : ℕ) × (b : ℕ) × (to : ℕ) × IsRun true line 1 a
    × IsRun false line a b
    × IsRun true line b to
    × (to < 3 → word_right edited ≡ record edited { input = record line { cursor = to } })
    × (to ≡ 3 → word_right edited ≡ edited)
word_right_lem_example = word_right_lem edited (omega arith)

-- The same line, handed over.
abbrev written : Input
written = record line { w = 3 }

consoleread-enter_example :
    (s' : Input) × (consoleread 10 false (enter edited).input 10
      ≡ returned s' ((before edited ++ behind edited) ++ b'\n' ∷ []))
    × (pending s' ≡ [])
consoleread-enter_example =
    consoleread-enter edited 10 10 false edited-IsEditing (omega arith) refl
      (omega arith, omega arith, (omega arith, omega arith, (omega arith, omega arith, tt)))
      (omega arith)

-- A process of 64 bytes with its stack pointer at 8: its first argument is 32, where the text "A" stands.
abbrev bytes : ℕ → ℕ
bytes i = if i == 12 then 32 else if i == 32 then b'A' else 0

abbrev caller : Caller
caller = record { sz = 64; esp = 8; mem = bytes }

argptr_lem_example :
    (argptr caller 0 16 ≡ some 32)
    ↔ ((argint caller 0 ≡ some 32) × (16 < 2 ^ 31) × (32 < 64) × (32 + 16 ≤ 64))
argptr_lem_example = argptr_lem caller 0 16 32 (omega arith) (omega arith)

argstr_first : argstr caller 0 ≡ some (32, 1)
unfolding argstr argint fetchint fetchstr find_nul
argstr_first = refl

argstr-strlen_example : (argint caller 0 ≡ some 32) × (32 + 1 < 64) × (strlen 5 bytes 32 ≡ some 1)
argstr-strlen_example = argstr-strlen caller 0 32 1 5 argstr_first (omega arith)
