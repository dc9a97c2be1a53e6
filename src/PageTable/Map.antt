-- ===== src/PageTable/Map.antt =====
-- mappages (vm.c) maps a range of pages.
use os_ca.Prelude.{
  ℕ, zero, suc, ◌+◌, ◌-◌, ◌*◌, ◌/◌, ◌%◌, ◌^◌, ◌<◌, ◌≤◌, ◌≡◌, refl, ap, ◌∙◌, true, false, ◌&&◌,
  Option, none, some, ltb, leb, ◌==◌, arith, Bool-cases, inl, inr, add32, sub32,
}
use os_ca.Memory.{Memory, int_at, put_int}
use os_ca.Pages.{Kmem, page_size}
use os_ca.PageTable.{is_present, page_round_down, page_entry, map_from, mappages, walkpgdir, Walked}
use os_ca.PageTable.Entries.{table, lookup, IsPageTable}
use os_ca.PageTable.Walk.{full, at_entry, walkpgdir_lem}
use os_ca.PageTable.Extend.{
  Maps, out_of_memory, last_Maps, more_Maps, lookup-present, lookup-absent, stored-IsPageTable,
  stored-lookup, one_Extended,
}

-- The ways of a round.
module _ (fuel : ℕ) (m : Memory) {m' : Memory} (km : Kmem) {km' : Kmem} (pgdir a : ℕ) {o : Option ℕ}
    (last pa perm : ℕ) (e : walkpgdir m km pgdir a true ≡ (o, m', km')) where
  e0 : (walkpgdir m km pgdir a true).0 ≡ o
  e0 = ap (λ (w : Walked). w.0) e

  e1 : (walkpgdir m km pgdir a true).1 ≡ m'
  e1 = ap (λ (w : Walked). w.1) e

  e2 : (walkpgdir m km pgdir a true).2 ≡ km'
  e2 = ap (λ (w : Walked). w.2) e

  map_from-full : o ≡ none → map_from (suc fuel) m km pgdir a last pa perm ≡ some (false, m', km')
  unfolding map_from
  map_from-full h = rw (map_from, e0, h, e1, e2) refl

  module _ {pte : ℕ} (h : o ≡ some pte) where
    map_from-remap :
        is_present (int_at m' pte) ≡ true → map_from (suc fuel) m km pgdir a last pa perm ≡ none
    unfolding map_from
    map_from-remap p = rw (map_from, e0, h, e1, p) refl

    map_from-last :
        is_present (int_at m' pte) ≡ false
        → (a == last) ≡ true
        → map_from (suc fuel) m km pgdir a last pa perm
          ≡ some (true, put_int m' pte (page_entry pa perm), km')
    unfolding map_from
    map_from-last p t = rw (map_from, e0, h, e1, p, t, e1, e2) refl

    map_from-next :
        is_present (int_at m' pte) ≡ false
        → (a == last) ≡ false
        → map_from (suc fuel) m km pgdir a last pa perm
          ≡ map_from fuel
              (put_int m' pte (page_entry pa perm))
              km'
              pgdir
              (add32 a page_size)
              last
              (add32 pa page_size)
              perm
    unfolding map_from
    map_from-next p t = rw (map_from, e0, h, e1, p, t, e1, e2) refl

map_from_lem :
    {kernel_end : ℕ} (fuel n q : ℕ) {m : Memory} {km : Kmem} {pgdir : ℕ} (pa perm : ℕ)
    → IsPageTable kernel_end m km pgdir
    → q + n < 2 ^ 20
    → n < fuel
    → pa < 2 ^ 32
    → pa % page_size ≡ 0
    → perm < page_size
    → ((s : ℕ) → q ≤ s → s ≤ q + n → is_present (lookup m pgdir s) ≡ false)
    → Maps kernel_end m pgdir q n pa perm
        (map_from fuel m km pgdir (q * page_size) ((q + n) * page_size) pa perm)
map_from_lem zero n q pa perm v b f w al pl free = absurd (omega arith)
map_from_lem {kernel_end} (suc fuel) n q {m} {km} {pgdir} pa perm v b f w al pl free =
    elim (walkpgdir_lem q v (omega arith)) [
      | full e none_free no_table ↦
          out_of_memory 0 m km (omega arith)
            (map_from-full fuel m km pgdir (q * page_size) ((q + n) * page_size) pa perm e refl)
            none_free
            (record {
              page_table = v;
              entries = λ s h.
                  let outside : (leb q s && ltb s (q + 0)) ≡ false = ground arith in
                  rw outside refl;
            })
      | at_entry m1 km1 e r ↦
          let l : q < 2 ^ 20 = omega arith in
          let absent : is_present (int_at m1 (table m1 pgdir (q / 1024) + 4 * (q % 1024))) ≡ false =
            ap is_present (lookup-present m1 pgdir q r.present ∙ r.entries q l)
            ∙ free q (omega arith) (omega arith) in
          elim (Bool-cases (q * page_size == (q + n) * page_size)) [
            | inl last ↦
                let none_left : n ≡ 0 = ground (arith, last) in
                last_Maps none_left
                  (map_from-last fuel m km pgdir (q * page_size) ((q + n) * page_size) pa perm e
                    refl absent last)
                  (one_Extended perm l w al pl r)
            | inr more ↦
                let pos : 0 < n = ground (arith, more) in
                let next : add32 (q * page_size) page_size ≡ (q + 1) * page_size = omega arith in
                let end : (q + n) * page_size ≡ (q + 1 + (n - 1)) * page_size = omega arith in
                more_Maps perm l w al pl r pos (omega arith)
                  (map_from-next fuel m km pgdir (q * page_size) ((q + n) * page_size) pa perm e
                      refl absent more
                    ∙ rw (next, end) refl)
                  (map_from_lem fuel (n - 1) (q + 1) (add32 pa page_size) perm
                    (stored-IsPageTable perm l w al pl r) (omega arith) (omega arith) (omega arith)
                    (omega arith) pl
                    (λ s low high.
                      let other : (q == s) ≡ false = ground arith in
                      ap is_present (stored-lookup perm l w al pl r s (omega arith) ∙ rw other refl)
                      ∙ free s (omega arith) (omega arith)))
          ]
    ]

-- mappages panics if the first page of the range is mapped. If no page of the range is mapped, `pa` is the start of a
-- frame and `perm` has flags only, it maps them all, one after the other, to the frames from `pa` on, or returns -1 after some of them, when no free page is left for
-- a page table. The entry of a page that it maps is the address of its frame with the bits of `perm` and
-- PTE_P as flags. No entry outside the range changes.
pub mappages_lem :
    {kernel_end : ℕ} {m : Memory} {km : Kmem} {pgdir : ℕ} (va size pa perm : ℕ)
    → IsPageTable kernel_end m km pgdir
    → 0 < size
    → va + size ≤ 2 ^ 32
    → pa < 2 ^ 32
    → pa % page_size ≡ 0
    → perm < page_size
    → (is_present (lookup m pgdir (va / page_size)) ≡ true
        → mappages m km pgdir va size pa perm ≡ none)
      × (((s : ℕ)
            → va / page_size ≤ s
            → s ≤ (va + size - 1) / page_size
            → is_present (lookup m pgdir s) ≡ false)
          → Maps kernel_end m pgdir
              (va / page_size)
              ((va + size - 1) / page_size - va / page_size)
              pa
              perm
              (mappages m km pgdir va size pa perm))
unfolding mappages
mappages_lem {kernel_end} {m} {km} {pgdir} va size pa perm v pos fits w al pl =
    let q = va / page_size in
    let n = (va + size - 1) / page_size - va / page_size in
    let last : page_round_down (sub32 (add32 va size) 1) ≡ (q + n) * page_size = omega arith in
    let rounds : size / page_size + 2 ≡ suc (size / page_size + 1) = omega arith in
    rw (last, rounds)
      (
        λ p. elim (walkpgdir_lem q v (omega arith)) [
          | full e none_free no_table ↦ absurd (ground (arith, p, lookup-absent m pgdir q no_table))
          | at_entry m1 km1 e r ↦
              map_from-remap (size / page_size + 1) m km pgdir (q * page_size) ((q + n) * page_size)
                pa perm e refl
                (ap is_present (lookup-present m1 pgdir q r.present ∙ r.entries q (omega arith))
                  ∙ p)
        ],
        λ free.
            map_from_lem (suc (size / page_size + 1)) n q pa perm v (omega arith) (omega arith) w al
              pl (λ s low high. free s low (omega arith)),
      )
