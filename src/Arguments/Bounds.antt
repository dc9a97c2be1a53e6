-- ===== src/Arguments/Bounds.antt =====
-- Bounds of the arguments that syscall.c lets through.
use os_ca.Prelude.{
  ℕ, ◌+◌, ◌^◌, ◌≤◌, ◌<◌, ◌≡◌, ◌↔◌, ap, arith, none, some, leb, if◌then◌else◌, Option-cases, inl,
  inr,
}
use os_ca.Pages.{kern_base}
use os_ca.Memory.{int_at}
use os_ca.Arguments.{Caller, fetchint, argint, argptr, check_block}

-- A process ends at or below the kernel's first address. Then the 32-bit test of fetchint, which may wrap,
-- lets exactly those addresses through whose four bytes lie in the process, and yields the `int` there;
-- for every other address the result is -1.
pub fetchint_lem :
    (p : Caller) (a : ℕ)
    → p.sz ≤ kern_base
    → a < 2 ^ 32
    → fetchint p a ≡ (if leb (a + 4) p.sz then some (int_at p.mem a) else none)
unfolding fetchint
fetchint_lem p a k h = ground arith

check_block_lem :
    (p : Caller) (size i q : ℕ)
    → p.sz ≤ kern_base
    → size < 2 ^ 32
    → (check_block p size i ≡ some q) ↔ ((i ≡ q) × (size < 2 ^ 31) × (q < p.sz) × (q + size ≤ p.sz))
check_block_lem p size i q k h = (λ e. ground arith, λ (e, l, m, n). ground arith)

-- argptr yields a pointer exactly when the argument can be fetched, the size is not negative, and the
-- block that starts at the pointer lies in the process from its first byte to its last: the addition that
-- checks this does not wrap. The pointer is then the argument.
pub argptr_lem :
    (p : Caller) (n size q : ℕ)
    → p.sz ≤ kern_base
    → size < 2 ^ 32
    → (argptr p n size ≡ some q)
      ↔ ((argint p n ≡ some q) × (size < 2 ^ 31) × (q < p.sz) × (q + size ≤ p.sz))
unfolding argptr
argptr_lem p n size q k h = elim (Option-cases (argint p n)) [
  | inl e ↦ rw e (λ none_found. ground arith, λ (found, _, _, _). ground arith)
  | inr (i, e) ↦
      let (to, from) = check_block_lem p size i q k h in
      rw e (
        λ checked. let (same, l, m, o) = to checked in (ap some same, l, m, o),
        λ (found, l, m, o). from (ground arith, l, m, o),
      )
]
