-- ===== src/PageTable/Plant.antt =====
-- A free page becomes a page table (walkpgdir in vm.c): it is empty, and changes no entry that the hardware finds.
use os_ca.Prelude.{
  ℕ, ◌+◌, ◌*◌, ◌/◌, ◌%◌, ◌^◌, ◌<◌, ◌≤◌, ◌≡◌, ◌≢◌, refl, ap, sym, subst, ◌∙◌, true, false, ◌&&◌,
  some, List, ◌∷◌, ltb, leb, ◌==◌, arith, Bool-cases, inl, inr, either, contains,
}
use os_ca.Memory.{Memory, int_at, put_int, memset}
use os_ca.Memory.Words.{int_at-put_int, int_at-put_int_apart, int_at-same, put_int-bytes}
use os_ca.Memory.Set.{memset_lem}
use os_ca.Pages.{Kmem, page_size}
use os_ca.Pages.Free.{Allocated}
use os_ca.PageTable.{p2v, pte_addr, is_present, page_round_down, table_entry}
use os_ca.PageTable.Entries.{
  pde, table, lookup, IsPageTable, pages_apart, put_int-page, table-aligned,
}

abbrev pub cleared : Memory → ℕ → Memory
cleared m v = memset m v 0 page_size

module _ (m : Memory) (v : ℕ) (aligned : v % page_size ≡ 0) where
  cleared-other : (a : ℕ) → page_round_down a ≢ v → cleared m v a ≡ m a
  cleared-other a ne =
      let outside : (leb v a && ltb a (v + page_size)) ≡ false =
        elim (Bool-cases (leb v a && ltb a (v + page_size))) [
          | inr f ↦ f
          | inl t ↦
              let low : v ≤ a = ground (arith, t) in
              let high : a < v + page_size = ground (arith, t) in
              let here : page_round_down a ≡ v = omega arith in absurd (ne here)
        ] in
      memset_lem m v 0 page_size a ∙ rw outside refl

  cleared-here : (a : ℕ) → page_round_down a ≡ v → cleared m v a ≡ 0
  cleared-here a e =
      let inside : (leb v a && ltb a (v + page_size)) ≡ true = ground arith in
      memset_lem m v 0 page_size a ∙ rw inside refl

-- The page `x` becomes the page table at place `d` of the directory.
module _ {kernel_end : ℕ} {m : Memory} {km km' : Kmem} {pgdir x d : ℕ}
    (v : IsPageTable kernel_end m km pgdir) (h : d < 1024)
    (absent : is_present (pde m pgdir d) ≡ false) (a : Allocated kernel_end km (some x, km')) where
  pub x_free : contains x km.freelist ≡ true
  x_free = rw a.0 (ground arith)

  x_aligned : x % page_size ≡ 0
  x_aligned = ground (arith, a.1)

  x_dir : x ≢ pgdir
  x_dir e =
      absurd (ground (arith, subst (λ p. contains p km.freelist ≡ true) e x_free, v.dir_taken))

  still_taken : (p : ℕ) → contains p km.freelist ≡ false → contains p km'.freelist ≡ false
  still_taken p t =
      let t' : contains p (x ∷ km'.freelist) ≡ false =
        subst (λ (l : List ℕ). contains p l ≡ false) a.0 t in
      ground (arith, t')

  abbrev pub planted : Memory
  planted = put_int (cleared m x) (pgdir + 4 * d) (table_entry x)

  pub planted-frame : (b : ℕ) → page_round_down b ≢ pgdir → page_round_down b ≢ x → planted b ≡ m b
  planted-frame b ne ne' =
      put_int-page (cleared m x) pgdir d (table_entry x) b v.aligned h ne
      ∙ cleared-other m x x_aligned b ne'

  -- Words of other pages.
  planted-int :
      (p i : ℕ)
      → p % page_size ≡ 0
      → i < 1024
      → p ≢ pgdir
      → p ≢ x
      → int_at planted (p + 4 * i) ≡ int_at m (p + 4 * i)
  planted-int p i al l ne ne' = int_at-same planted m (p + 4 * i) (λ b low high.
      let here : page_round_down b ≡ p = omega arith in
      planted-frame b (λ e. ne (sym here ∙ e)) (λ e. ne' (sym here ∙ e)))

  planted-pde : (e : ℕ) → e < 1024 → e ≢ d → pde planted pgdir e ≡ pde m pgdir e
  planted-pde e l ne =
      int_at-put_int_apart (cleared m x) (pgdir + 4 * d) (pgdir + 4 * e) (table_entry x)
        (pages_apart pgdir pgdir d e v.aligned v.aligned h l (inr (λ z. ne (sym z))))
      ∙ int_at-same (cleared m x) m (pgdir + 4 * e) (λ b low high.
        let al = v.aligned in
        let here : page_round_down b ≡ pgdir = omega arith in
        cleared-other m x x_aligned b (λ z. x_dir (sym z ∙ here)))

  planted-here : pde planted pgdir d ≡ table_entry x
  planted-here = int_at-put_int (cleared m x) (pgdir + 4 * d) (table_entry x) (omega arith)

  pub planted-present : is_present (pde planted pgdir d) ≡ true
  planted-present = rw planted-here (ground arith)

  pub planted-table : table planted pgdir d ≡ x
  planted-table =
      let low = v.high x x_free in
      let al = x_aligned in
      let same : p2v (pte_addr (table_entry x)) ≡ x = omega arith in rw planted-here same

  planted-zero : (i : ℕ) → i < 1024 → int_at planted (x + 4 * i) ≡ 0
  planted-zero i l =
      int_at-same planted (λ _. 0) (x + 4 * i)
        (λ b low high.
          let al = x_aligned in
          let here : page_round_down b ≡ x = omega arith in
          put_int-page (cleared m x) pgdir d (table_entry x) b v.aligned h
            (λ e. x_dir (sym here ∙ e))
          ∙ cleared-here m x x_aligned b here)

  taken-ne : (e : ℕ) → e < 1024 → is_present (pde m pgdir e) ≡ true → table m pgdir e ≢ x
  taken-ne e l p z =
      absurd
        (ground (arith, subst (λ q. contains q km.freelist ≡ true) (sym z) x_free, v.taken e l p))

  pub planted-lookup : (s : ℕ) → s < 2 ^ 20 → lookup planted pgdir s ≡ lookup m pgdir s
  unfolding lookup
  planted-lookup s l = elim (Bool-cases (d == s / 1024)) [
    | inl here ↦
        let same : s / 1024 ≡ d = ground (arith, here) in
        rw (same, planted-present, planted-table, absent) (planted-zero (s % 1024) (omega arith))
    | inr there ↦
        let ne : s / 1024 ≢ d = ground (arith, there) in
        rw (planted-pde (s / 1024) (omega arith) ne)
          (elim (Bool-cases (is_present (pde m pgdir (s / 1024)))) [
            | inr none_there ↦ rw none_there refl
            | inl table_there ↦ rw table_there (
                planted-int (table m pgdir (s / 1024)) (s % 1024) (table-aligned m pgdir (s / 1024))
                  (omega arith) (v.apart (s / 1024) (omega arith) table_there)
                  (taken-ne (s / 1024) (omega arith) table_there))
          ])
  ]

  data Where (e : ℕ) : Type 0 where
    new : e ≡ d → Where e
    old : pde planted pgdir e ≡ pde m pgdir e → Where e

  locate : (e : ℕ) → e < 1024 → Where e
  locate e l = elim (Bool-cases (e == d)) [
    | inl t ↦ new (ground (arith, t))
    | inr t ↦ old (planted-pde e l (ground (arith, t)))
  ]

  new-table : {e : ℕ} → e ≡ d → table planted pgdir e ≡ x
  new-table t = rw t planted-table

  planted-apart :
      (e : ℕ) → e < 1024 → is_present (pde planted pgdir e) ≡ true → table planted pgdir e ≢ pgdir
  planted-apart e l p z = elim (locate e l) [
    | new t ↦ x_dir (sym (new-table t) ∙ z)
    | old t ↦ v.apart e l (ap is_present (sym t) ∙ p) (ap (λ (y : ℕ). p2v (pte_addr y)) (sym t) ∙ z)
  ]

  planted-taken :
      (e : ℕ)
      → e < 1024
      → is_present (pde planted pgdir e) ≡ true
      → contains (table planted pgdir e) km'.freelist ≡ false
  planted-taken e l p = elim (locate e l) [
    | new t ↦ rw (new-table t) a.2
    | old t ↦
        ap (λ (y : ℕ). contains (p2v (pte_addr y)) km'.freelist) t
        ∙ still_taken (table m pgdir e) (v.taken e l (ap is_present (sym t) ∙ p))
  ]

  planted-distinct :
      (e f : ℕ)
      → e < 1024
      → f < 1024
      → is_present (pde planted pgdir e) ≡ true
      → is_present (pde planted pgdir f) ≡ true
      → table planted pgdir e ≡ table planted pgdir f
      → e ≡ f
  planted-distinct e f l l' p p' z = elim (locate e l) [
    | new t ↦ elim (locate f l') [
      | new u ↦ t ∙ sym u
      | old u ↦ absurd (
          taken-ne f l' (ap is_present (sym u) ∙ p')
            (ap (λ (y : ℕ). p2v (pte_addr y)) (sym u) ∙ sym z ∙ new-table t))
    ]
    | old t ↦ elim (locate f l') [
      | new u ↦ absurd (
          taken-ne e l (ap is_present (sym t) ∙ p)
            (ap (λ (y : ℕ). p2v (pte_addr y)) (sym t) ∙ z ∙ new-table u))
      | old u ↦
          v.distinct e f l l' (ap is_present (sym t) ∙ p) (ap is_present (sym u) ∙ p')
            (ap (λ (y : ℕ). p2v (pte_addr y)) (sym t) ∙ z ∙ ap (λ (y : ℕ). p2v (pte_addr y)) u)
    ]
  ]

  pub planted-IsPageTable : IsPageTable kernel_end planted km' pgdir
  planted-IsPageTable = record {
    bytes = put_int-bytes (cleared m x) (pgdir + 4 * d) (table_entry x) (λ b.
        rw (memset_lem m x 0 page_size b) (
          either (λ y. y < 256) (leb x b && ltb b (x + page_size)) (λ _. omega arith)
            (λ _. v.bytes b)));
    aligned = v.aligned;
    kmem = a.3;
    high = λ p t. v.high p (rw a.0 (ground (arith, t)));
    dir_taken = still_taken pgdir v.dir_taken;
    apart = planted-apart;
    taken = planted-taken;
    distinct = planted-distinct;
  }
