-- ===== src/PageTable/Copy.antt =====
-- copyout (vm.c) puts bytes at a user's addresses.
use os_ca.Prelude.{
  ℕ, zero, suc, ◌+◌, ◌-◌, ◌/◌, ◌%◌, ◌^◌, ◌<◌, ◌≤◌, ◌≡◌, ◌≢◌, refl, ap, ◌∙◌, true, false, some,
  if◌then◌else◌, ltb, ◌==◌, arith, Bool-cases, inl, inr, add32, ==-of_ne, ◌>>=◌,
}
use os_ca.Memory.{Memory, memmove}
use os_ca.Pages.{Kmem, page_size}
use os_ca.PageTable.{p2v, pte_addr, page_round_down, uva2ka, copy_pages, copyout}
use os_ca.PageTable.Entries.{lookup, IsPageTable}
use os_ca.PageTable.User.{frame, place, SameTables, uva2ka-user, lookup-same}
use os_ca.PageTable.Rounds.{
  IsTarget, rest-IsTarget, Copied, frame-aligned, moved-tables, whole-Copied, nothing-Copied,
}

-- The number of bytes of a round.
abbrev part : ℕ → ℕ → ℕ
part va len =
    if ltb len (page_size - (va - page_round_down va))
    then len
    else page_size - (va - page_round_down va)

part_bounds :
    (va len : ℕ)
    → 0 < len
    → (0 < part va len)
      × (part va len ≤ len)
      × (va % page_size + part va len ≤ page_size)
      × (len ≢ part va len → (va + part va len) % page_size ≡ 0)
part_bounds va len h = (
  ground arith,
  ground arith,
  ground arith,
  λ n. elim (Bool-cases (ltb len (page_size - (va - page_round_down va)))) [
    | inl t ↦ absurd (n (rw t refl))
    | inr t ↦ rw t (omega arith)
  ],
)

copy_pages-round :
    (fuel : ℕ) (m : Memory) (km : Kmem) (pgdir va p len pa0 : ℕ)
    → 0 < len
    → uva2ka m km pgdir (page_round_down va) ≡ some pa0
    → pa0 ≢ 0
    → copy_pages (suc fuel) m km pgdir va p len
      ≡ copy_pages fuel
          (memmove m (add32 pa0 (va - page_round_down va)) p (part va len))
          km
          pgdir
          (add32 (page_round_down va) page_size)
          (p + part va len)
          (len - part va len)
unfolding copy_pages
copy_pages-round fuel m km pgdir va p len pa0 pos e ne =
    let more : (len == 0) ≡ false = ground arith in
    let exists : (pa0 == 0) ≡ false = ==-of_ne ne in
    rw (more, copy_pages) (rw (e, ◌>>=◌, exists) refl)

copy_pages-none :
    (fuel : ℕ) (m : Memory) (km : Kmem) (pgdir va p len : ℕ)
    → len ≡ 0
    → copy_pages fuel m km pgdir va p len ≡ some (true, m)
unfolding copy_pages
copy_pages-none zero m km pgdir va p len z = rw z refl
copy_pages-none (suc fuel) m km pgdir va p len z = rw z refl

copy_pages_lem :
    (fuel : ℕ) {m0 m : Memory} (km : Kmem) {pgdir : ℕ} (va p len : ℕ)
    → pgdir % page_size ≡ 0
    → IsTarget m0 pgdir va p len
    → SameTables m0 pgdir m
    → len ≤ fuel
    → (m' : Memory) × (copy_pages fuel m km pgdir va p len ≡ some (true, m'))
      × Copied m0 pgdir va p len m m'
copy_pages_lem zero {m = m} km {pgdir} va p len al t s f =
    let z : len ≡ 0 = omega arith in
    (m, copy_pages-none zero m km pgdir va p len z, nothing-Copied va p len z s)
copy_pages_lem (suc fuel) {m0} {m} km {pgdir} va p len al t s f = elim (Bool-cases (len == 0)) [
  | inl last ↦
      let z : len ≡ 0 = ground (arith, last) in
      (m, copy_pages-none (suc fuel) m km pgdir va p len z, nothing-Copied va p len z s)
  | inr more ↦
      let pos : 0 < len = ground (arith, more) in
      let n = part va len in
      let b = part_bounds va len pos in
      let u = t.pages va (omega arith) (omega arith) in
      let low = t.below in
      let fa = frame-aligned m0 pgdir (va / page_size) in
      let e = uva2ka-user al s km (va / page_size) (omega arith) u in
      let here : add32 (frame m0 pgdir (va / page_size)) (va - page_round_down va)
          ≡ place m0 pgdir va =
        omega (arith, fa.0, fa.1) in
      let rest = rest-IsTarget n b.1 t in
      let tables = moved-tables t s n b.0 b.1 b.2 in
      let round =
        copy_pages-round fuel m km pgdir va p len (frame m0 pgdir (va / page_size)) pos e
          u.exists in
      let m1 = memmove m (place m0 pgdir va) p n in
      elim (Bool-cases (len == n)) [
        | inl all ↦
            let z : len - n ≡ 0 = ground (arith, all) in
            (
              m1,
              round
                  ∙ rw here (
                      copy_pages-none fuel m1 km pgdir (add32 (page_round_down va) page_size)
                        (p + n) (len - n) z),
              whole-Copied t s n b.0 b.1 b.2 b.3
                  (nothing-Copied (va + n) (p + n) (len - n) z tables),
            )
        | inr some_left ↦
            let after = b.3 (ground (arith, some_left)) in
            let next : add32 (page_round_down va) page_size ≡ va + n =
              omega (arith, after, b.0, b.1, b.2) in
            let (m', e', c) =
              copy_pages_lem fuel km (va + n) (p + n) (len - n) al rest tables
                (omega (arith, b.0)) in
            let same : copy_pages fuel
                  (memmove m (add32 (frame m0 pgdir (va / page_size)) (va - page_round_down va)) p
                    n)
                  km pgdir (add32 (page_round_down va) page_size) (p + n) (len - n)
                ≡ copy_pages fuel m1 km pgdir (va + n) (p + n) (len - n) =
              rw (here, next) refl in
            (m', round ∙ same ∙ e', whole-Copied t s n b.0 b.1 b.2 b.3 c)
      ]
]

-- copyout to pages of the user, each of which has a page of memory of its own, returns 0. The bytes at the user's
-- addresses are then those at `p`, no other byte of the memory changes, and each page stays where it was.
pub copyout_lem :
    {kernel_end : ℕ} {m : Memory} {km : Kmem} {pgdir : ℕ} (va p len : ℕ)
    → IsPageTable kernel_end m km pgdir
    → IsTarget m pgdir va p len
    → (m' : Memory) × (copyout m km pgdir va p len ≡ some (true, m'))
      × ((a : ℕ) → va ≤ a → a < va + len → m' (place m' pgdir a) ≡ m (p + (a - va)))
      × ((b : ℕ) → ((a : ℕ) → va ≤ a → a < va + len → b ≢ place m pgdir a) → m' b ≡ m b)
      × ((r : ℕ) → r < 2 ^ 20 → lookup m' pgdir r ≡ lookup m pgdir r)
unfolding copyout
copyout_lem {m = m} {km} {pgdir} va p len v t =
    let (m', e, c) =
      copy_pages_lem len {m0 = m} {m = m} km va p len v.aligned t
        (record { dir = λ a h. refl; tables = λ d a h h' h''. refl }) (omega arith) in
    let low = t.below in
    let same = lookup-same v.aligned c.tables in
    (
      m',
      e,
      λ a l h.
          ap (λ (x : ℕ). m' (p2v (pte_addr x) + a % page_size)) (same (a / page_size) (omega arith))
          ∙ c.there a l h,
      c.others,
      same,
    )
