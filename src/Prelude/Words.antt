-- ===== src/Prelude/Words.antt =====
-- 32-bit machine integers as bit patterns below 2 ^ 32.
use Prim.Native.Nat.{ℕ, ◌+◌, ◌-◌, ◌*◌, ◌%◌, ◌^◌}
use mathlib.Core.Bool.{Bool}
use os_ca.Prelude.Tests.{ltb, leb}

abbrev pub add32 : ℕ → ℕ → ℕ
add32 a b = (a + b) % 2 ^ 32

-- `b` below 2 ^ 32
abbrev pub sub32 : ℕ → ℕ → ℕ
sub32 a b = (a + 2 ^ 32 - b) % 2 ^ 32

abbrev pub mul32 : ℕ → ℕ → ℕ
mul32 a b = a * b % 2 ^ 32

-- `<` and `>=` of `int`: shifting by 2 ^ 31 puts the patterns in the order of the integers.
abbrev pub slt32 : ℕ → ℕ → Bool
slt32 a b = ltb (add32 a (2 ^ 31)) (add32 b (2 ^ 31))

abbrev pub sle32 : ℕ → ℕ → Bool
sle32 a b = leb (add32 a (2 ^ 31)) (add32 b (2 ^ 31))
