-- ===== src/PageTable/Entries.antt =====
-- The entries of a page table (vm.c) by page number, and when its pages are its own.
use os_ca.Prelude.{
  ℕ, ◌+◌, ◌*◌, ◌/◌, ◌%◌, ◌^◌, ◌<◌, ◌≤◌, ◌≡◌, ◌≢◌, ◌⊎◌, refl, true, false, if◌then◌else◌, ltb, ◌==◌,
  arith, Bool-cases, inl, inr, contains,
}
use os_ca.Memory.{Memory, int_at, put_int}
use os_ca.Memory.Words.{int_at-put_int, int_at-put_int_apart, put_int-bytes, byte_other}
use os_ca.Pages.{Kmem, page_size}
use os_ca.Pages.Free.{IsKmem}
use os_ca.PageTable.{p2v, pte_addr, is_present, page_round_down}

-- The `d`-th entry of the page directory, and the page table to which it points.
abbrev pub pde : Memory → ℕ → ℕ → ℕ
pde m pgdir d = int_at m (pgdir + 4 * d)

abbrev pub table : Memory → ℕ → ℕ → ℕ
table m pgdir d = p2v (pte_addr (pde m pgdir d))

-- The entry that the hardware finds for the page with number `r`, 0 if there is no page table.
unfoldable pub lookup : Memory → ℕ → ℕ → ℕ
lookup m pgdir r =
    if is_present (pde m pgdir (r / 1024))
    then int_at m (table m pgdir (r / 1024) + 4 * (r % 1024))
    else 0

-- The page directory and its page tables are different pages, and none of them is free.
pub record IsPageTable (kernel_end : ℕ) (m : Memory) (km : Kmem) (pgdir : ℕ) : Type 0 where
  pub bytes : (a : ℕ) → m a < 256
  pub aligned : pgdir % page_size ≡ 0
  pub kmem : IsKmem kernel_end km
  pub high : (v : ℕ) → contains v km.freelist ≡ true → v < 2 ^ 32
  pub dir_taken : contains pgdir km.freelist ≡ false
  pub apart : (d : ℕ) → d < 1024 → is_present (pde m pgdir d) ≡ true → table m pgdir d ≢ pgdir
  pub taken :
      (d : ℕ)
      → d < 1024
      → is_present (pde m pgdir d) ≡ true
      → contains (table m pgdir d) km.freelist ≡ false
  pub distinct :
      (d e : ℕ)
      → d < 1024
      → e < 1024
      → is_present (pde m pgdir d) ≡ true
      → is_present (pde m pgdir e) ≡ true
      → table m pgdir d ≡ table m pgdir e
      → d ≡ e

-- Entries of different pages, and different entries of a page, do not overlap.
pub pages_apart :
    (p q i j : ℕ)
    → p % page_size ≡ 0
    → q % page_size ≡ 0
    → i < 1024
    → j < 1024
    → (p ≢ q) ⊎ (i ≢ j)
    → (p + 4 * i + 4 ≤ q + 4 * j) ⊎ (q + 4 * j + 4 ≤ p + 4 * i)
pages_apart p q i j h h' l l' o = elim (Bool-cases (ltb p q)) [
  | inl t ↦ let less : p < q = ground (arith, t) in inl (omega arith)
  | inr t ↦ elim (Bool-cases (ltb q p)) [
    | inl u ↦ let less : q < p = ground (arith, u) in inr (omega arith)
    | inr u ↦
        let same : p ≡ q = ground (arith, t, u) in
        elim (Bool-cases (ltb i j)) [
          | inl w ↦ let less : i < j = ground (arith, w) in inl (omega arith)
          | inr w ↦ inr (elim o [
            | inl n ↦ absurd (n same)
            | inr n ↦ let less : j < i = ground (arith, w, n) in omega arith
          ])
        ]
  ]
]

-- Writing an entry changes no byte of another page.
pub put_int-page :
    (m : Memory) (p i v a : ℕ)
    → p % page_size ≡ 0
    → i < 1024
    → page_round_down a ≢ p
    → put_int m (p + 4 * i) v a ≡ m a
put_int-page m p i v a h l ne =
    byte_other m (p + 4 * i) v a (elim (Bool-cases (ltb a (p + 4 * i))) [
      | inl t ↦ inl (ground (arith, t))
      | inr t ↦
          let from : p + 4 * i ≤ a = ground (arith, t) in
          elim (Bool-cases (ltb (p + 4 * i + 3) a)) [
            | inl u ↦ inr (ground (arith, u))
            | inr u ↦
                let upto : a ≤ p + 4 * i + 3 = ground (arith, u) in
                let here : page_round_down a ≡ p = omega arith in absurd (ne here)
          ]
    ])

pub table-aligned : (m : Memory) (pgdir d : ℕ) → table m pgdir d % page_size ≡ 0
table-aligned m pgdir d = omega arith

-- An entry of a page table is written.
module _ {kernel_end : ℕ} {m : Memory} {km : Kmem} {pgdir : ℕ}
    (v : IsPageTable kernel_end m km pgdir) (q x : ℕ) (l : q < 2 ^ 20)
    (p : is_present (pde m pgdir (q / 1024)) ≡ true) where
  abbrev pub entered : Memory
  entered = put_int m (table m pgdir (q / 1024) + 4 * (q % 1024)) x

  pub entered-pde : (d : ℕ) → d < 1024 → pde entered pgdir d ≡ pde m pgdir d
  entered-pde d h =
      int_at-put_int_apart m (table m pgdir (q / 1024) + 4 * (q % 1024)) (pgdir + 4 * d) x (
        pages_apart (table m pgdir (q / 1024)) pgdir (q % 1024) d (table-aligned m pgdir (q / 1024))
          v.aligned (omega arith) h (inl (v.apart (q / 1024) (omega arith) p)))

  pub entered-IsPageTable : IsPageTable kernel_end entered km pgdir
  entered-IsPageTable = record {
    bytes = put_int-bytes m (table m pgdir (q / 1024) + 4 * (q % 1024)) x v.bytes;
    aligned = v.aligned;
    kmem = v.kmem;
    high = v.high;
    dir_taken = v.dir_taken;
    apart = λ d h. rw (entered-pde d h) (v.apart d h);
    taken = λ d h. rw (entered-pde d h) (v.taken d h);
    distinct = λ d e h h'. rw (entered-pde d h, entered-pde e h') (v.distinct d e h h');
  }

  pub entered-lookup :
      x < 2 ^ 32
      → (r : ℕ) → r < 2 ^ 20
      → lookup entered pgdir r ≡ (if q == r then x else lookup m pgdir r)
  unfolding lookup
  entered-lookup b r h = elim (Bool-cases (q == r)) [
    | inl here ↦
        let same : r ≡ q = ground (arith, here) in
        rw (here, same, entered-pde (q / 1024) (omega arith), p)
          (int_at-put_int m (table m pgdir (q / 1024) + 4 * (q % 1024)) x b)
    | inr there ↦
        let ne : q ≢ r = ground (arith, there) in
        rw (there, entered-pde (r / 1024) (omega arith))
          (elim (Bool-cases (is_present (pde m pgdir (r / 1024)))) [
            | inr none_there ↦ rw none_there refl
            | inl table_there ↦ rw table_there (
                int_at-put_int_apart m (table m pgdir (q / 1024) + 4 * (q % 1024))
                  (table m pgdir (r / 1024) + 4 * (r % 1024)) x
                  (pages_apart (table m pgdir (q / 1024)) (table m pgdir (r / 1024)) (q % 1024)
                    (r % 1024) (table-aligned m pgdir (q / 1024)) (table-aligned m pgdir (r / 1024))
                    (omega arith) (omega arith)
                    (elim (Bool-cases (q % 1024 == r % 1024)) [
                      | inr n ↦ inr (ground (arith, n))
                      | inl n ↦ inl (λ e.
                          let tables =
                            v.distinct (q / 1024) (r / 1024) (omega arith) (omega arith) p
                              table_there e in
                          let places : q % 1024 ≡ r % 1024 = ground (arith, n) in
                          ne (omega (arith, tables, places)))
                    ])))
          ])
  ]
