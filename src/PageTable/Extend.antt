-- ===== src/PageTable/Extend.antt =====
-- A page more in a range that mappages (vm.c) maps.
use os_ca.Prelude.{
  ℕ, ◌+◌, ◌-◌, ◌*◌, ◌/◌, ◌%◌, ◌^◌, ◌<◌, ◌≤◌, ◌≡◌, refl, ap, subst, ◌∙◌, Bool, true, false, ◌&&◌,
  Option, some, [], if◌then◌else◌, ltb, leb, ◌==◌, arith, Bool-cases, inl, inr, add32,
}
use os_ca.Memory.{Memory, int_at, put_int}
use os_ca.Pages.{Kmem, page_size}
use os_ca.PageTable.{is_present, page_entry}
use os_ca.PageTable.Entries.{pde, table, lookup, IsPageTable, entered-IsPageTable, entered-lookup}
use os_ca.PageTable.Walk.{Ready}
use os_ca.PageTable.Bits.{page_entry_lem}

-- The `k` pages from number `q` on are mapped to the frames from `pa` on: the entry of each is the address of its
-- frame with the bits of `perm` and PTE_P. The other entries are as before.
pub record Extended (kernel_end : ℕ) (m : Memory) (pgdir q pa perm k : ℕ) (m' : Memory) (km' : Kmem)
    : Type 0 where
  pub page_table : IsPageTable kernel_end m' km' pgdir
  pub entries :
      (s : ℕ)
      → s < 2 ^ 20
      → lookup m' pgdir s ≡ (
          if leb q s && ltb s (q + k)
          then add32 pa ((s - q) * page_size) + (perm / 2 * 2 + 1)
          else lookup m pgdir s)

-- All `n + 1` pages are mapped, or the memory has run out after `k` of them.
pub data Maps (kernel_end : ℕ) (m : Memory) (pgdir q n pa perm : ℕ)
    (o : Option (Bool × Memory × Kmem)) : Type 0 where
  done :
      (m' : Memory) (km' : Kmem)
      → o ≡ some (true, m', km')
      → Extended kernel_end m pgdir q pa perm (n + 1) m' km'
      → Maps kernel_end m pgdir q n pa perm o
  out_of_memory :
      (k : ℕ) (m' : Memory) (km' : Kmem)
      → k ≤ n
      → o ≡ some (false, m', km')
      → km'.freelist ≡ []
      → Extended kernel_end m pgdir q pa perm k m' km'
      → Maps kernel_end m pgdir q n pa perm o

pub lookup-present :
    (m : Memory) (pgdir r : ℕ)
    → is_present (pde m pgdir (r / 1024)) ≡ true
    → int_at m (table m pgdir (r / 1024) + 4 * (r % 1024)) ≡ lookup m pgdir r
unfolding lookup
lookup-present m pgdir r p = rw p refl

pub lookup-absent :
    (m : Memory) (pgdir r : ℕ) → is_present (pde m pgdir (r / 1024)) ≡ false → lookup m pgdir r ≡ 0
unfolding lookup
lookup-absent m pgdir r p = rw p refl

module _ {kernel_end : ℕ} {m m1 : Memory} {km km1 : Kmem} {pgdir q pa : ℕ} (perm : ℕ)
    (l : q < 2 ^ 20) (w : pa < 2 ^ 32) (al : pa % page_size ≡ 0) (pl : perm < page_size)
    (r : Ready kernel_end m km pgdir q m1 km1) where
  abbrev pub stored : Memory
  stored = put_int m1 (table m1 pgdir (q / 1024) + 4 * (q % 1024)) (page_entry pa perm)

  pub stored-IsPageTable : IsPageTable kernel_end stored km1 pgdir
  stored-IsPageTable = entered-IsPageTable r.page_table q (page_entry pa perm) l r.present

  pub stored-lookup :
      (s : ℕ)
      → s < 2 ^ 20
      → lookup stored pgdir s ≡ (if q == s then pa + (perm / 2 * 2 + 1) else lookup m pgdir s)
  stored-lookup s h =
      let entry = page_entry_lem pa perm w al pl in
      entered-lookup r.page_table q (page_entry pa perm) l r.present (omega (arith, entry)) s h
      ∙ ap (λ (y : ℕ). if q == s then y else lookup m1 pgdir s) entry
      ∙ ap (λ (y : ℕ). if q == s then pa + (perm / 2 * 2 + 1) else y) (r.entries s h)

  entry_zero : (s : ℕ) → s ≡ q → add32 pa ((s - q) * page_size) ≡ pa
  entry_zero s e = omega (arith, e)

  pub one_Extended : Extended kernel_end m pgdir q pa perm 1 stored km1
  one_Extended = record {
    page_table = stored-IsPageTable;
    entries = λ s h. stored-lookup s h ∙ elim (Bool-cases (q == s)) [
      | inl t ↦
          let here : (leb q s && ltb s (q + 1)) ≡ true = ground (arith, t) in
          rw (t, here, entry_zero s (ground (arith, t))) refl
      | inr t ↦
          let there : (leb q s && ltb s (q + 1)) ≡ false = ground (arith, t) in rw (t, there) refl
    ];
  }

  more_Extended :
      {k : ℕ} {m' : Memory} {km' : Kmem}
      → q + 1 < 2 ^ 20
      → Extended kernel_end stored pgdir (q + 1) (add32 pa page_size) perm k m' km'
      → Extended kernel_end m pgdir q pa perm (k + 1) m' km'
  more_Extended {k} h x = record {
    page_table = x.page_table;
    entries = λ s b. x.entries s b ∙ elim (Bool-cases (q == s)) [
      | inl t ↦
          let here : (leb q s && ltb s (q + (k + 1))) ≡ true = ground (arith, t) in
          let later : (leb (q + 1) s && ltb s (q + 1 + k)) ≡ false = ground (arith, t) in
          rw (here, later, entry_zero s (ground (arith, t))) (stored-lookup s b ∙ rw t refl)
      | inr t ↦
          let same : (leb q s && ltb s (q + (k + 1))) ≡ (leb (q + 1) s && ltb s (q + 1 + k)) =
            ground (arith, t) in
          elim (Bool-cases (leb (q + 1) s && ltb s (q + 1 + k))) [
            | inl u ↦
                let from : q + 1 ≤ s = ground (arith, u) in
                let next : add32 (add32 pa page_size) ((s - (q + 1)) * page_size)
                    ≡ add32 pa ((s - q) * page_size) =
                  omega arith in
                rw (same, u, next) refl
            | inr u ↦ rw (same, u) (stored-lookup s b ∙ rw t refl)
          ]
    ];
  }

  pub more_Maps :
      {n : ℕ} {o o' : Option (Bool × Memory × Kmem)}
      → 0 < n
      → q + n < 2 ^ 20
      → o ≡ o'
      → Maps kernel_end stored pgdir (q + 1) (n - 1) (add32 pa page_size) perm o'
      → Maps kernel_end m pgdir q n pa perm o
  more_Maps {n} pos b e (done m' km' e' x) =
      let whole : n - 1 + 1 + 1 ≡ n + 1 = omega arith in
      done m' km' (e ∙ e') (
        subst (λ k. Extended kernel_end m pgdir q pa perm k m' km') whole
          (more_Extended (omega arith) x))
  more_Maps pos b e (out_of_memory k m' km' h e' empty x) =
      out_of_memory (k + 1) m' km' (omega arith) (e ∙ e') empty (more_Extended (omega arith) x)

pub last_Maps :
    {kernel_end : ℕ} {m m' : Memory} {km' : Kmem} {pgdir q n pa perm : ℕ}
    {o : Option (Bool × Memory × Kmem)}
    → n ≡ 0
    → o ≡ some (true, m', km')
    → Extended kernel_end m pgdir q pa perm 1 m' km'
    → Maps kernel_end m pgdir q n pa perm o
last_Maps {kernel_end} {m} {m'} {km'} {pgdir} {q} {n} {pa} {perm} z e x =
    let whole : 1 ≡ n + 1 = omega (arith, z) in
    done m' km' e (subst (λ k. Extended kernel_end m pgdir q pa perm k m' km') whole x)
