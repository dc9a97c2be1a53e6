-- ===== src/Pages/Free.antt =====
-- The free pages of kalloc.c: what is handed out was free, and is not free any more.
use os_ca.Prelude.{
  ℕ, ◌≡◌, refl, subst, sym, true, false, Option, none, some, List, [], ◌∷◌, arith, contains, nodup,
  ◌==◌, Bool-cases, inl, inr, ◌⊎◌, ap, ◌∙◌,
}
use os_ca.Pages.{Kmem, is_bad, kfree, kalloc}

-- No page is in the list twice, and each is one that kfree accepts.
pub record IsKmem (kernel_end : ℕ) (m : Kmem) : Type 0 where
  pub distinct : nodup m.freelist ≡ true
  pub sound : (v : ℕ) → contains v m.freelist ≡ true → is_bad kernel_end v ≡ false

-- A page that is not free can be freed if it is aligned and in the range of kfree, and the next kalloc
-- returns it and leaves the allocator as it was before.
pub kalloc-kfree :
    (kernel_end : ℕ) (m : Kmem) (v : ℕ)
    → IsKmem kernel_end m
    → contains v m.freelist ≡ false
    → is_bad kernel_end v ≡ false
    → (m' : Kmem) × (kfree kernel_end m v ≡ some m')
      × IsKmem kernel_end m'
      × (kalloc m' ≡ (some v, m))
unfolding kfree kalloc
kalloc-kfree kernel_end m v i f g = (
  record m { freelist = v ∷ m.freelist },
  rw g refl,
  record {
    distinct = ground (arith, f, i.distinct);
    sound = λ w h. elim (Bool-cases (w == v)) [
      | inl e ↦
          let q : w ≡ v = ground arith in subst (λ (x : ℕ). is_bad kernel_end x ≡ false) (sym q) g
      | inr e ↦ i.sound w (ground arith)
    ];
  },
  refl,
)

-- What kalloc may return.
abbrev pub Allocated : ℕ → Kmem → Option ℕ × Kmem → Type 0
Allocated kernel_end m (none, m') = (m.freelist ≡ []) × (m' ≡ m)
Allocated kernel_end m (some v, m') =
    (m.freelist ≡ v ∷ m'.freelist)
    × (is_bad kernel_end v ≡ false)
    × (contains v m'.freelist ≡ false)
    × IsKmem kernel_end m'

-- kalloc returns 0 just if no page is free. Otherwise the page that it returns was free, is aligned and
-- in the range of kfree, and is not free afterwards, so that it is not handed out again before a kfree.
pub kalloc_lem :
    (kernel_end : ℕ) (m : Kmem) → IsKmem kernel_end m → Allocated kernel_end m (kalloc m)
unfolding kalloc
kalloc_lem kernel_end m i = go m.freelist refl
  where
    distinct_there : {l : List ℕ} → m.freelist ≡ l → nodup l ≡ true
    distinct_there e = subst (λ (x : List ℕ). nodup x ≡ true) e i.distinct

    go :
        (l : List ℕ)
        → m.freelist ≡ l
        → Allocated kernel_end m
            (elim l [ [] ↦ (none, m) | v ∷ rest ↦ (some v, record m { freelist = rest }) ])
    go [] e = (e, refl)
    go (v ∷ rest) e = (
      e,
      i.sound v (rw e (ground arith)),
      ground (arith, distinct_there e),
      record {
        distinct = ground (arith, distinct_there e);
        sound = λ w h. i.sound w (rw e (ground (arith, h)));
      },
    )

-- The ways of kalloc, for its callers.
abbrev pub Grants : ℕ → Kmem → Type 0
Grants kernel_end m =
    ((kalloc m ≡ (none, m)) × (m.freelist ≡ []))
    ⊎ ((v : ℕ) × (m' : Kmem) × (kalloc m ≡ (some v, m')) × Allocated kernel_end m (some v, m'))

pub kalloc-Grants : (kernel_end : ℕ) (m : Kmem) → IsKmem kernel_end m → Grants kernel_end m
kalloc-Grants kernel_end m i = go (kalloc m) refl (kalloc_lem kernel_end m i)
  where
    go : (r : Option ℕ × Kmem) → kalloc m ≡ r → Allocated kernel_end m r → Grants kernel_end m
    go (none, m') e (empty, same) = inl (e ∙ ap (λ (x : Kmem). (none, x)) same, empty)
    go (some v, m') e a = inr (v, m', e, a)
