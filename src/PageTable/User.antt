-- ===== src/PageTable/User.antt =====
-- uva2ka (vm.c): where a user's pages lie.
use os_ca.Prelude.{
  ℕ, ◌+◌, ◌*◌, ◌/◌, ◌%◌, ◌^◌, ◌<◌, ◌≡◌, ◌≢◌, refl, subst, ◌∙◌, true, false, ◌&&◌, none, some,
  if◌then◌else◌, arith, Bool-cases, inl, inr,
}
use os_ca.Memory.{Memory}
use os_ca.Memory.Words.{int_at-same}
use os_ca.Pages.{Kmem, page_size}
use os_ca.PageTable.{
  p2v, pte_addr, is_present, is_user, page_round_down, walkpgdir, uva2ka, pdx, ptx,
}
use os_ca.PageTable.Entries.{pde, table, lookup, table-aligned}

-- The page at which the user's page `r` lies, and the place of a user's byte.
abbrev pub frame : Memory → ℕ → ℕ → ℕ
frame m pgdir r = p2v (pte_addr (lookup m pgdir r))

abbrev pub place : Memory → ℕ → ℕ → ℕ
place m pgdir va = frame m pgdir (va / page_size) + va % page_size

-- uva2ka uses the null pointer where there is no page table. Otherwise it gives the page of a user's page, and
-- 0 for a page that is not mapped, or not for the user.
pub uva2ka_lem :
    (m : Memory) (km : Kmem) (pgdir va : ℕ)
    → va < 2 ^ 32
    → (is_present (pde m pgdir (va / page_size / 1024)) ≡ false → uva2ka m km pgdir va ≡ none)
      × (is_present (pde m pgdir (va / page_size / 1024)) ≡ true
          → uva2ka m km pgdir va
            ≡ some (
                if is_present (lookup m pgdir (va / page_size))
                  && is_user (lookup m pgdir (va / page_size))
                then frame m pgdir (va / page_size)
                else 0))
unfolding uva2ka walkpgdir lookup
uva2ka_lem m km pgdir va l =
    let d : pdx va ≡ va / page_size / 1024 = omega arith in
    let t : ptx va ≡ va / page_size % 1024 = omega arith in
    (λ p. rw (d, p) refl, λ p. rw (d, p, t) refl)

-- A user's page that is mapped to a page of its own, no page of the page table.
pub record IsUserPage (m : Memory) (pgdir r : ℕ) : Type 0 where
  pub present : is_present (lookup m pgdir r) ≡ true
  pub user : is_user (lookup m pgdir r) ≡ true
  pub exists : frame m pgdir r ≢ 0
  pub no_dir : frame m pgdir r ≢ pgdir
  pub no_table :
      (d : ℕ) → d < 1024 → is_present (pde m pgdir d) ≡ true → frame m pgdir r ≢ table m pgdir d

has_table :
    (m : Memory) (pgdir r : ℕ)
    → is_present (lookup m pgdir r) ≡ true
    → is_present (pde m pgdir (r / 1024)) ≡ true
unfolding lookup
has_table m pgdir r h = elim (Bool-cases (is_present (pde m pgdir (r / 1024)))) [
  | inl t ↦ t
  | inr f ↦ absurd (ground (arith, f, h))
]

-- The pages of the page table of `m` hold in `m'` what they hold in `m`.
pub record SameTables (m : Memory) (pgdir : ℕ) (m' : Memory) : Type 0 where
  pub dir : (a : ℕ) → page_round_down a ≡ pgdir → m' a ≡ m a
  pub tables :
      (d a : ℕ)
      → d < 1024
      → is_present (pde m pgdir d) ≡ true
      → page_round_down a ≡ table m pgdir d
      → m' a ≡ m a

module _ {m m' : Memory} {pgdir : ℕ} (aligned : pgdir % page_size ≡ 0)
    (s : SameTables m pgdir m') where
  pub pde-same : (d : ℕ) → d < 1024 → pde m' pgdir d ≡ pde m pgdir d
  pde-same d h = int_at-same m' m (pgdir + 4 * d) (λ a low high. s.dir a (omega arith))

  pub lookup-same : (r : ℕ) → r < 2 ^ 20 → lookup m' pgdir r ≡ lookup m pgdir r
  unfolding lookup
  lookup-same r h =
      rw (pde-same (r / 1024) (omega arith))
        (elim (Bool-cases (is_present (pde m pgdir (r / 1024)))) [
          | inr f ↦ rw f refl
          | inl t ↦ rw t (
              int_at-same m' m (table m pgdir (r / 1024) + 4 * (r % 1024)) (λ a low high.
                let al = table-aligned m pgdir (r / 1024) in
                s.tables (r / 1024) a (omega arith) t (omega arith)))
        ])

  pub uva2ka-user :
      (km : Kmem) (r : ℕ)
      → r < 2 ^ 20
      → IsUserPage m pgdir r
      → uva2ka m' km pgdir (r * page_size) ≡ some (frame m pgdir r)
  uva2ka-user km r h u =
      let number : r * page_size / page_size ≡ r = omega arith in
      let p : is_present (pde m' pgdir (r / 1024)) ≡ true =
        rw (pde-same (r / 1024) (omega arith)) (has_table m pgdir r u.present) in
      let found =
        subst
          (λ q.
            is_present (pde m' pgdir (q / 1024)) ≡ true
            → uva2ka m' km pgdir (r * page_size)
              ≡ some (
                  if is_present (lookup m' pgdir q) && is_user (lookup m' pgdir q)
                  then frame m' pgdir q
                  else 0))
          number ((uva2ka_lem m' km pgdir (r * page_size) (omega arith)).1) p in
      found ∙ rw (lookup-same r h, u.present, u.user) refl
