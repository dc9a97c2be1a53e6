-- ===== src/PageTable/Walk.antt =====
-- walkpgdir (vm.c) finds the place of an entry, or makes a page table for it.
use os_ca.Prelude.{
  ℕ, ◌+◌, ◌*◌, ◌/◌, ◌%◌, ◌^◌, ◌<◌, ◌≡◌, ◌≢◌, refl, ap, sym, subst, true, false, Option, none, some,
  [], arith, Bool-cases, inl, inr, contains,
}
use os_ca.Memory.{Memory}
use os_ca.Pages.{Kmem, page_size}
use os_ca.Pages.Free.{kalloc-Grants}
use os_ca.PageTable.{is_present, page_round_down, walkpgdir, pdx, ptx}
use os_ca.PageTable.Entries.{pde, table, lookup, IsPageTable}
use os_ca.PageTable.Plant.{
  planted, planted-frame, planted-present, planted-table, planted-IsPageTable, planted-lookup,
  x_free,
}

-- After the walk to page `r` there is a page table for it. The entries are those from before, and so is every
-- page but the page directory and the free ones.
pub record Ready (kernel_end : ℕ) (m : Memory) (km : Kmem) (pgdir r : ℕ) (m' : Memory) (km' : Kmem)
    : Type 0 where
  pub page_table : IsPageTable kernel_end m' km' pgdir
  pub present : is_present (pde m' pgdir (r / 1024)) ≡ true
  pub entries : (s : ℕ) → s < 2 ^ 20 → lookup m' pgdir s ≡ lookup m pgdir s
  pub frame :
      (a : ℕ)
      → page_round_down a ≢ pgdir
      → contains (page_round_down a) km.freelist ≡ false
      → m' a ≡ m a

-- What walkpgdir does for page `r` when it may allocate: it fails and changes nothing, or it returns the
-- address of the entry.
pub data Walks (kernel_end : ℕ) (m : Memory) (km : Kmem) (pgdir r : ℕ) : Type 0 where
  full :
      walkpgdir m km pgdir (r * page_size) true ≡ (none, m, km)
      → km.freelist ≡ []
      → is_present (pde m pgdir (r / 1024)) ≡ false
      → Walks kernel_end m km pgdir r
  at_entry :
      (m' : Memory) (km' : Kmem)
      → walkpgdir m km pgdir (r * page_size) true
        ≡ (some (table m' pgdir (r / 1024) + 4 * (r % 1024)), m', km')
      → Ready kernel_end m km pgdir r m' km'
      → Walks kernel_end m km pgdir r

pub walkpgdir_lem :
    {kernel_end : ℕ} {m : Memory} {km : Kmem} {pgdir : ℕ} (r : ℕ)
    → IsPageTable kernel_end m km pgdir
    → r < 2 ^ 20
    → Walks kernel_end m km pgdir r
unfolding walkpgdir
walkpgdir_lem {kernel_end} {m} {km} {pgdir} r v l =
    let d : pdx (r * page_size) ≡ r / 1024 = omega arith in
    let t : ptx (r * page_size) ≡ r % 1024 = omega arith in
    elim (Bool-cases (is_present (pde m pgdir (r / 1024)))) [
      | inl p ↦
          at_entry m km (rw (d, t, p) refl)
            (record { page_table = v; present = p; entries = λ s h. refl; frame = λ b h h'. refl })
      | inr p ↦ elim (kalloc-Grants kernel_end km v.kmem) [
        | inl (e, none_free) ↦
            let page = ap (λ (g : Option ℕ × Kmem). g.0) e in
            let rest = ap (λ (g : Option ℕ × Kmem). g.1) e in
            full (rw (d, t, p, page, rest) refl) none_free p
        | inr (x, km', e, a) ↦
            let page = ap (λ (g : Option ℕ × Kmem). g.0) e in
            let rest = ap (λ (g : Option ℕ × Kmem). g.1) e in
            let h : r / 1024 < 1024 = omega arith in
            at_entry (planted v h p a) km'
              (rw (d, t, p, page, rest)
                (rw (d, t)
                  (ap (λ (y : ℕ). (some (y + 4 * (r % 1024)), planted v h p a, km'))
                    (sym (planted-table v h p a)))))
              (record {
                page_table = planted-IsPageTable v h p a;
                present = planted-present v h p a;
                entries = planted-lookup v h p a;
                frame = λ b ne free. planted-frame v h p a b ne (λ z. absurd (
                    ground (
                      arith,
                      subst (λ q. contains q km.freelist ≡ true) (sym z) (x_free v h p a),
                      free,
                    )));
              })
      ]
    ]
