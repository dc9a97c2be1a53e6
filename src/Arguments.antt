-- ===== src/Arguments.antt =====
-- The arguments of a system call (syscall.c: fetchint, fetchstr, argint, argptr, argstr). The kernel
-- reads the caller's memory at the caller's own addresses; addresses and `int`s are 32-bit patterns, and
-- `none` is the result -1.
pub mod Bounds
pub mod Strings
use os_ca.Prelude.{
  ℕ, zero, suc, ◌+◌, ◌-◌, ◌*◌, ◌^◌, ◌||◌, Option, none, some, if◌then◌else◌, ltb, leb, ◌==◌, ◌>>=◌,
  add32, mul32, slt32,
}
use os_ca.Memory.{Memory, int_at}

-- What the calls read of the current process: its size, its saved stack pointer and its memory.
pub record Caller : Type 0 where
  pub sz : ℕ
  pub esp : ℕ
  pub mem : Memory

unfoldable pub fetchint : Caller → ℕ → Option ℕ
fetchint p addr =
    if leb p.sz addr || ltb p.sz (add32 addr 4) then none else some (int_at p.mem addr)

-- `for(s = *pp; s < ep; s++)` with `n` bytes left before `ep`; `i` is `s - *pp`.
unfoldable pub find_nul : ℕ → Memory → ℕ → ℕ → Option ℕ
find_nul zero m s i = none
find_nul (suc n) m s i =
    let rest = find_nul n m (s + 1) (suc i) in if m s == 0 then some i else rest

-- The length of the string at `addr`.
unfoldable pub fetchstr : Caller → ℕ → Option ℕ
fetchstr p addr = if leb p.sz addr then none else find_nul (p.sz - addr) p.mem addr 0

unfoldable pub argint : Caller → ℕ → Option ℕ
argint p n = fetchint p (add32 (add32 p.esp 4) (mul32 4 n))

-- The checks of argptr on the pointer `i`.
abbrev pub check_block : Caller → ℕ → ℕ → Option ℕ
check_block p size i =
    if slt32 size 0 || (leb p.sz i || ltb p.sz (add32 i size)) then none else some i

-- The pointer that goes to `*pp`.
unfoldable pub argptr : Caller → ℕ → ℕ → Option ℕ
argptr p n size = argint p n >>= check_block p size

-- The pointer that goes to `*pp` and the length of the string there.
unfoldable pub argstr : Caller → ℕ → Option (ℕ × ℕ)
argstr p n =
    argint p n >>= (λ addr. elim (fetchstr p addr) [ none ↦ none | some len ↦ some (addr, len) ])
