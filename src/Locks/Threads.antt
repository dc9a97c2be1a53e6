-- ===== src/Locks/Threads.antt =====
-- The threads that use a lock, as a table of where each one stands.
use os_ca.Prelude.{
  ℕ, zero, suc, ◌+◌, ◌<◌, ◌≤◌, ◌≡◌, refl, Bool, true, false, arith, update, if◌then◌else◌,
  Bool-cases, inl, inr, ltb,
}

module _ {ℓ} {A : Type ℓ} (p : A → Bool) where
  abbrev pub bit : A → ℕ
  bit a = if p a then 1 else 0

  -- How many of the first `n` threads are where `p` says.
  unfoldable pub count : ℕ → (ℕ → A) → ℕ
  count zero f = 0
  count (suc n) f = count n f + bit (f n)

  count-update_of_le :
      (n : ℕ) (f : ℕ → A) (i : ℕ) (a : A) → n ≤ i → count n (update f i a) ≡ count n f
  unfolding count
  count-update_of_le zero f i a h = refl
  count-update_of_le (suc n) f i a h = ground (arith, count-update_of_le n f i a)

  pub count-update :
      (n : ℕ) (f : ℕ → A) (i : ℕ) (a : A)
      → i < n
      → count n (update f i a) + bit (f i) ≡ count n f + bit a
  unfolding count
  count-update zero f i a h = absurd (omega arith)
  count-update (suc n) f i a h = elim (Bool-cases (ltb i n)) [
    | inl t ↦ ground (arith, count-update n f i a)
    | inr t ↦ ground (arith, count-update_of_le n f i a)
  ]

  -- A change of every thread that `p` does not see.
  pub count-same : (n : ℕ) (f g : ℕ → A) → ((i : ℕ) → p (f i) ≡ p (g i)) → count n f ≡ count n g
  unfolding count
  count-same zero f g h = refl
  count-same (suc n) f g h = ground (arith, count-same n f g h, h n)

  pub count-none : (n : ℕ) (f : ℕ → A) → ((i : ℕ) → p (f i) ≡ false) → count n f ≡ 0
  unfolding count
  count-none zero f h = refl
  count-none (suc n) f h = ground (arith, count-none n f h, h n)

  pub count-le : (n : ℕ) (f : ℕ → A) → count n f ≤ n
  unfolding count
  count-le zero f = omega arith
  count-le (suc n) f = ground (arith, count-le n f)

  pub count-pos : (n : ℕ) (f : ℕ → A) (i : ℕ) → i < n → p (f i) ≡ true → 1 ≤ count n f
  unfolding count
  count-pos zero f i l h = absurd (omega arith)
  count-pos (suc n) f i l h = elim (Bool-cases (ltb i n)) [
    | inl t ↦ ground (arith, count-pos n f i)
    | inr t ↦ let e : i ≡ n = ground arith in ground (arith, h)
  ]

  pub count-some : (n : ℕ) (f : ℕ → A) → 1 ≤ count n f → (i : ℕ) × (i < n) × (p (f i) ≡ true)
  unfolding count
  count-some zero f h = absurd (omega arith)
  count-some (suc n) f h = elim (Bool-cases (p (f n))) [
    | inl t ↦ (n, omega arith, t)
    | inr t ↦ let (i, l, e) = count-some n f (ground (arith, h, t)) in (i, omega arith, e)
  ]

  pub count-two :
      (n : ℕ) (f : ℕ → A) (i j : ℕ)
      → i < j
      → j < n
      → p (f i) ≡ true
      → p (f j) ≡ true
      → 2 ≤ count n f
  unfolding count
  count-two zero f i j l m h h' = absurd (omega arith)
  count-two (suc n) f i j l m h h' = elim (Bool-cases (ltb j n)) [
    | inl t ↦ ground (arith, count-two n f i j)
    | inr t ↦ let e : j ≡ n = ground arith in ground (arith, count-pos n f i, h')
  ]
