-- ===== src/Cores.antt =====
-- get_least_loaded_e_core and get_lightest_p_core of proc.c.
pub mod Choice
use os_ca.Prelude.{ℕ, zero, suc, ◌+◌, Bool, ◌&&◌, not, Option, none, some, if◌then◌else◌, slt32}
use os_ca.Kernel.{Kernel, CoreType, is_e}

-- INT_MAX
abbrev pub int_max : ℕ
int_max = 0x7fff_ffff

-- The loop of both functions, over the CPUs of one type: rounds left, `i`, the best CPU so far and
-- its load.
pub lightest : (CoreType → Bool) → Kernel → ℕ → ℕ → Option ℕ → ℕ → Option ℕ
lightest wanted k zero i best min_load = best
lightest wanted k (suc n) i best min_load =
    let c = k.cpu i in
    let lighter = wanted c.core_type && slt32 c.queue_count min_load in
    lightest wanted k n (i + 1) (if lighter then some i else best)
      (if lighter then c.queue_count else min_load)

-- Without an E-core it is the first CPU.
pub get_least_loaded_e_core : Kernel → ℕ
get_least_loaded_e_core k = elim (lightest is_e k k.ncpu 0 none int_max) [ none ↦ 0 | some c ↦ c ]

abbrev pub is_p : CoreType → Bool
is_p t = not (is_e t)

pub get_lightest_p_core : Kernel → Option ℕ
get_lightest_p_core k = lightest is_p k k.ncpu 0 none int_max
