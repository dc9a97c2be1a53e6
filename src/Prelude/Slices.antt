-- ===== src/Prelude/Slices.antt =====
-- Runs of values of a function as lists.
use Prim.Native.Nat.{ℕ, zero, suc, ◌+◌, ◌<◌}
use mathlib.Core.Path.{◌≡◌, refl, sym, ap, ◌∙◌}
use mathlib.Core.List.{List, [], ◌∷◌, ◌++◌}
use native.Mathlib.Omega.{arith}
use os_ca.Prelude.Lists.{length}

-- The `n` bytes of `f` from `a` on.
abbrev pub slice : (ℕ → ℕ) → ℕ → ℕ → List ℕ
slice f a zero = []
slice f a (suc n) = f a ∷ slice f (a + 1) n

pub slice-eq :
    (f g : ℕ → ℕ) (a b n : ℕ)
    → ((i : ℕ) → i < n → f (a + i) ≡ g (b + i))
    → slice f a n ≡ slice g b n
slice-eq f g a b zero h = refl
slice-eq f g a b (suc n) h = cc (
  ap f (a_zero a),
  ap g (a_zero b),
  h 0 (omega arith),
  slice-eq f g (a + 1) (b + 1) n
      (λ i l. ap f (next a i) ∙ h (suc i) (omega arith) ∙ sym (ap g (next b i))),
)
  where
    a_zero : (x : ℕ) → x + 0 ≡ x
    a_zero x = omega arith

    next : (x i : ℕ) → x + 1 + i ≡ x + suc i
    next x i = omega arith

pub slice-cons : (f : ℕ → ℕ) (a n : ℕ) → slice f a (n + 1) ≡ f a ∷ slice f (a + 1) n
slice-cons f a n = let e : n + 1 ≡ suc n = omega arith in rw e refl

pub slice-snoc : (f : ℕ → ℕ) (a n : ℕ) → slice f a (n + 1) ≡ slice f a n ++ f (a + n) ∷ []
slice-snoc f a zero = let e : a + 0 ≡ a = omega arith in rw e refl
slice-snoc f a (suc n) =
    let e : a + 1 + n ≡ a + suc n = omega arith in
    slice-cons f a (suc n)
    ∙ ap (λ (l : List ℕ). f a ∷ l)
        (ap (slice f (a + 1)) next
          ∙ slice-snoc f (a + 1) n
          ∙ ap (λ (x : ℕ). slice f (a + 1) n ++ f x ∷ []) e)
  where
    next : suc n ≡ n + 1
    next = omega arith

pub length-slice : (f : ℕ → ℕ) (a n : ℕ) → length (slice f a n) ≡ n
length-slice f a zero = refl
length-slice f a (suc n) = ap suc (length-slice f (a + 1) n)

pub slice-append : (f : ℕ → ℕ) (a m n : ℕ) → slice f a (m + n) ≡ slice f a m ++ slice f (a + m) n
slice-append f a zero n =
    let e : a + 0 ≡ a = omega arith in let e' : 0 + n ≡ n = omega arith in rw (e, e') refl
slice-append f a (suc m) n =
    let e : suc m + n ≡ suc (m + n) = omega arith in
    let e' : a + 1 + m ≡ a + suc m = omega arith in
    ap (slice f a) e
    ∙ ap (λ (l : List ℕ). f a ∷ l)
        (slice-append f (a + 1) m n ∙ ap (λ (x : ℕ). slice f (a + 1) m ++ slice f x n) e')
