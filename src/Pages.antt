-- ===== src/Pages.antt =====
-- The page allocator of kalloc.c. A page is its kernel virtual address; the links between free pages
-- spell a list, which is the model's list. The junk that kfree writes is not modelled. `kernel_end` is
-- the symbol `end` that the linker script defines.
pub mod Free
use os_ca.Prelude.{
  ℕ, zero, suc, ◌+◌, ◌-◌, ◌*◌, ◌/◌, ◌%◌, Bool, true, false, ◌||◌, not, Option, none, some, List, [],
  ◌∷◌, if◌then◌else◌, ◌==◌, ltb, leb, ◌>>=◌, sub32,
}

abbrev pub page_size : ℕ
page_size = 4096

-- PHYSTOP and KERNBASE of memlayout.h.
abbrev pub phys_stop : ℕ
phys_stop = 234881024

abbrev pub kern_base : ℕ
kern_base = 2147483648

pub record Kmem : Type 0 where
  pub use_lock : Bool
  pub freelist : List ℕ

-- The test of kfree, which panics; V2P subtracts KERNBASE.
abbrev pub is_bad : ℕ → ℕ → Bool
is_bad kernel_end v =
    not (v % page_size == 0) || ltb v kernel_end || leb phys_stop (sub32 v kern_base)

-- `none` is a panic.
pub kfree : ℕ → Kmem → ℕ → Option Kmem
kfree kernel_end m v =
    if is_bad kernel_end v then none else some (record m { freelist = v ∷ m.freelist })

pub kalloc : Kmem → Option ℕ × Kmem
kalloc m = elim m.freelist [ [] ↦ (none, m) | v ∷ rest ↦ (some v, record m { freelist = rest }) ]

abbrev pub page_round_up : ℕ → ℕ
page_round_up a = (a + page_size - 1) / page_size * page_size

-- The loop of freerange for the pages from `p` on; `n` is the number of its rounds.
pub free_pages : ℕ → ℕ → Kmem → ℕ → Option Kmem
unfolding kfree
free_pages kernel_end zero m p = some m
free_pages kernel_end (suc n) m p = do
  m' ← kfree kernel_end m p
  free_pages kernel_end n m' (p + page_size)

-- `p + PGSIZE <= vend` holds in as many rounds as whole pages fit.
pub freerange : ℕ → Kmem → ℕ → ℕ → Option Kmem
unfolding free_pages
freerange kernel_end m vstart vend =
    free_pages kernel_end ((vend - page_round_up vstart) / page_size) m (page_round_up vstart)

pub kinit1 : ℕ → Kmem → ℕ → ℕ → Option Kmem
unfolding freerange
kinit1 kernel_end m vstart vend = freerange kernel_end (record m { use_lock = false }) vstart vend

pub kinit2 : ℕ → Kmem → ℕ → ℕ → Option Kmem
unfolding freerange
kinit2 kernel_end m vstart vend = do
  m' ← freerange kernel_end m vstart vend
  some (record m' { use_lock = true })
