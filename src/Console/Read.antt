-- ===== src/Console/Read.antt =====
-- consoleread (console.c). A part of the call between two sleeps is one step; `killed` is the flag of
-- the calling process.
pub mod Lines
pub mod Handover
use os_ca.Prelude.{
  ℕ, zero, suc, ◌+◌, ◌%◌, Bool, true, false, List, [], ◌∷◌, if◌then◌else◌, ltb, ◌==◌, add32,
}
use os_ca.Console.{Input, input_buf}

-- It returns with the bytes that it has copied; it returns -1; or it sleeps, with what it has copied.
pub data ReadLine : Type 0 where
  returned : Input → List ℕ → ReadLine
  interrupted : Input → List ℕ → ReadLine
  waiting : Input → List ℕ → ReadLine

-- `*dst++ = c;`
abbrev pub with_byte : ℕ → ReadLine → ReadLine
with_byte c (returned s xs) = returned s (c ∷ xs)
with_byte c (interrupted s xs) = interrupted s (c ∷ xs)
with_byte c (waiting s xs) = waiting s (c ∷ xs)

abbrev pub end_of_file : ℕ
end_of_file = 4

-- `input.r++`
abbrev pub advance : Input → Input
advance s = record s { r = add32 s.r 1 }

-- `n` bytes are still to be read of the `target` that the caller wants.
pub consoleread : ℕ → Bool → Input → ℕ → ReadLine
consoleread target killed s zero = returned s []
consoleread target killed s (suc n) =
    let c = s.buf (s.r % input_buf) in
    let rest = consoleread target killed (advance s) n in
    if s.r == s.w
    then if killed then interrupted s [] else waiting s []
    else if c == end_of_file
    then if ltb (suc n) target then returned s [] else returned (advance s) []
    else if c == b'\n'
    then returned (advance s) (c ∷ [])
    else with_byte c rest
