-- ===== src/Memory/Text.antt =====
-- strlen and safestrcpy (string.c) on NUL-terminated texts.
use os_ca.Prelude.{
  ℕ, zero, suc, ◌+◌, ◌-◌, ◌<◌, ◌≤◌, ◌≡◌, refl, ◌∙◌, ◌≢◌, arith, if◌then◌else◌, ◌==◌, update,
  update_self, update_of_ne, Bool-cases, inl, inr, ap, ◌⊎◌, some,
}
use os_ca.Memory.{Memory, strlen, copy_text, safestrcpy}

-- The text at `s` has `l` bytes before its NUL.
pub record IsText (m : Memory) (s l : ℕ) : Type 0 where
  pub bytes : (i : ℕ) → i < l → m (s + i) ≢ 0
  pub ends : m (s + l) ≡ 0

-- `strlen` returns, after as many rounds as the text has bytes, their number.
pub strlen_lem :
    (l fuel : ℕ) (m : Memory) (s : ℕ) → l < fuel → IsText m s l → strlen fuel m s ≡ some l
unfolding strlen
strlen_lem l zero m s h t = absurd (omega arith)
strlen_lem zero (suc fuel) m s h t =
    let first : m s ≡ 0 = ap m (omega arith) ∙ t.ends in ground arith
strlen_lem (suc l) (suc fuel) m s h t =
    let first : m s ≢ 0 = λ e. t.bytes 0 (omega arith) (ap m (omega arith) ∙ e) in
    ground (
      arith,
      strlen_lem l fuel m (s + 1) (omega arith) (record {
        bytes = λ i lt e. t.bytes (suc i) (omega arith) (ap m (omega arith) ∙ e);
        ends = ap m (omega arith) ∙ t.ends;
      }),
    )

-- What the copy of at most `n` bytes leaves.
record Copied (n : ℕ) (m : Memory) (s t : ℕ) (r : Memory × ℕ) : Type 0 where
  bound : r.1 ≤ n
  outside : (a : ℕ) → (a < s) ⊎ (s + r.1 ≤ a) → r.0 a ≡ m a
  inside : (t + n ≤ s) ⊎ (s + n ≤ t) → (i : ℕ) → i < r.1 → r.0 (s + i) ≡ m (t + i)

copy_text-Copied : (n : ℕ) (m : Memory) (s t : ℕ) → Copied n m s t (copy_text n m s t)
unfolding copy_text
copy_text-Copied zero m s t = record {
  bound = omega arith;
  outside = λ a h. refl;
  inside = λ h i l. absurd (omega arith);
}
copy_text-Copied (suc n) m s t =
    go (copy_text n (update m s (m t)) (s + 1) (t + 1))
      (copy_text-Copied n (update m s (m t)) (s + 1) (t + 1))
  where
    first :
        (t + suc n ≤ s) ⊎ (s + suc n ≤ t) → (i : ℕ) → i ≡ 0 → update m s (m t) (s + i) ≡ m (t + i)
    first h i e =
        let a : s + i ≡ s = omega arith in
        let b : t + i ≡ t = omega arith in rw (a, b) (update_self m s (m t))

    later :
        (r : Memory × ℕ)
        → Copied n (update m s (m t)) (s + 1) (t + 1) r
        → (t + suc n ≤ s) ⊎ (s + suc n ≤ t)
        → (i : ℕ) → i < suc r.1
        → r.0 (s + i) ≡ m (t + i)
    later r c h i l = elim (Bool-cases (i == 0)) [
      | inl z ↦ c.outside (s + i) (ground arith) ∙ first h i (ground arith)
      | inr f ↦
          let a : s + i ≡ s + 1 + (i - 1) = ground arith in
          let b : t + 1 + (i - 1) ≡ t + i = ground arith in
          let ne : s ≢ t + i = ground (arith, c.bound) in
          rw a (c.inside (ground arith) (i - 1) (ground arith) ∙ rw b (update_of_ne m (m t) ne))
    ]

    go :
        (r : Memory × ℕ)
        → Copied n (update m s (m t)) (s + 1) (t + 1) r
        → Copied (suc n) m s t (if m t == 0 then (update m s (m t), 1) else (r.0, suc r.1))
    go r c = elim (Bool-cases (m t == 0)) [
      | inl z ↦ rw z (record {
        bound = omega arith;
        outside = λ a h. ground arith;
        inside = λ h i l. first h i (omega arith);
      })
      | inr f ↦ rw f (record {
        bound = omega (arith, c.bound);
        outside = λ a h. ground (arith, c.outside a);
        inside = λ h i l. later r c h i l;
      })
    ]

-- `safestrcpy(s, t, n)` with `n` positive puts a NUL within the `n` bytes from `s` on and changes no
-- other byte of the memory; if the two ranges of `n` bytes do not meet, the bytes before that NUL are
-- those of `t`.
pub safestrcpy_lem :
    (m : Memory) (s t n : ℕ)
    → 0 < n
    → (j : ℕ) × (j < n)
      × (safestrcpy m s t n (s + j) ≡ 0)
      × ((a : ℕ) → (a < s) ⊎ (s + n ≤ a) → safestrcpy m s t n a ≡ m a)
      × ((t + n ≤ s) ⊎ (s + n ≤ t) → (i : ℕ) → i < j → safestrcpy m s t n (s + i) ≡ m (t + i))
unfolding safestrcpy
safestrcpy_lem m s t zero h = absurd (omega arith)
safestrcpy_lem m s t (suc n) h =
    let c = copy_text-Copied n m s t in
    let r = copy_text n m s t in
    (
      r.1,
      omega (arith, c.bound),
      update_self r.0 (s + r.1) 0,
      λ a o. ground (arith, c.bound, c.outside a),
      λ o i l. ground (arith, c.bound, c.inside (ground arith) i),
    )
