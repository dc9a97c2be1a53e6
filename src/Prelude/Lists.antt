-- ===== src/Prelude/Lists.antt =====
-- Lists indexed and measured by native numbers, and lists of distinct numbers.
use Prim.Native.Nat.{ℕ, zero, suc, ◌+◌, ◌≤◌, ◌<◌}
use mathlib.Core.Path.{◌≡◌, refl}
use mathlib.Core.Logic.{◌≢◌}
use mathlib.Core.Bool.{Bool, true, false, ◌&&◌, ◌||◌, not}
use mathlib.Core.Option.{Option, none, some}
use mathlib.Core.List.{List, [], ◌∷◌, ◌++◌}
use native.Mathlib.Omega.{arith}
use os_ca.Prelude.Tests.{◌==◌, if◌then◌else◌}

module _ {ℓ} {A : Type ℓ} where
  abbrev pub length : List A → ℕ
  length [] = 0
  length (x ∷ xs) = suc (length xs)

  abbrev pub get_elem? : List A → ℕ → Option A
  get_elem? [] i = none
  get_elem? (x ∷ xs) zero = some x
  get_elem? (x ∷ xs) (suc i) = get_elem? xs i

  abbrev pub get_or : List A → ℕ → A → A
  get_or [] i d = d
  get_or (x ∷ xs) zero d = x
  get_or (x ∷ xs) (suc i) d = get_or xs i d

  abbrev pub take : ℕ → List A → List A
  take zero xs = []
  take (suc n) [] = []
  take (suc n) (x ∷ xs) = x ∷ take n xs

  abbrev pub drop : ℕ → List A → List A
  drop zero xs = xs
  drop (suc n) [] = []
  drop (suc n) (x ∷ xs) = drop n xs

  pub length-append : (xs ys : List A) → length (xs ++ ys) ≡ length xs + length ys
  length-append [] ys = omega arith
  length-append (x ∷ xs) ys = omega (arith, length-append xs ys)

-- Membership as a test, and the tests and operations of lists of distinct numbers.
abbrev pub contains : ℕ → List ℕ → Bool
contains a [] = false
contains a (x ∷ xs) = (a == x) || contains a xs

abbrev pub nodup : List ℕ → Bool
nodup [] = true
nodup (x ∷ xs) = not (contains x xs) && nodup xs

abbrev pub erase : ℕ → List ℕ → List ℕ
erase a [] = []
erase a (x ∷ xs) = if a == x then xs else x ∷ erase a xs

pub contains-append :
    (a : ℕ) (xs ys : List ℕ) → contains a (xs ++ ys) ≡ (contains a xs || contains a ys)
contains-append a [] ys = refl
contains-append a (x ∷ xs) ys = ground (arith, contains-append a xs ys)

pub contains-erase_of_ne : (a b : ℕ) (xs : List ℕ) → a ≢ b → contains a (erase b xs) ≡ contains a xs
contains-erase_of_ne a b [] ne = refl
contains-erase_of_ne a b (x ∷ xs) ne = ground (arith, contains-erase_of_ne a b xs ne)

pub contains-erase_self : (a : ℕ) (xs : List ℕ) → nodup xs ≡ true → contains a (erase a xs) ≡ false
contains-erase_self a [] h = refl
contains-erase_self a (x ∷ xs) h = ground (arith, contains-erase_self a xs)

pub contains-erase : (a b : ℕ) (xs : List ℕ) → contains a (erase b xs) ≡ true → contains a xs ≡ true
contains-erase a b [] h = h
contains-erase a b (x ∷ xs) h = ground (arith, contains-erase a b xs)

pub nodup-erase : (a : ℕ) (xs : List ℕ) → nodup xs ≡ true → nodup (erase a xs) ≡ true
nodup-erase a [] h = refl
nodup-erase a (x ∷ xs) h = ground (arith, nodup-erase a xs, contains-erase_of_ne x a xs)

pub nodup-snoc :
    (a : ℕ) (xs : List ℕ) → nodup xs ≡ true → contains a xs ≡ false → nodup (xs ++ a ∷ []) ≡ true
nodup-snoc a [] h n = refl
nodup-snoc a (x ∷ xs) h n = ground (arith, nodup-snoc a xs, contains-append x xs (a ∷ []))

pub length-erase :
    (a : ℕ) (xs : List ℕ) → contains a xs ≡ true → length (erase a xs) + 1 ≡ length xs
length-erase a [] h = absurd (ground arith)
length-erase a (x ∷ xs) h = ground (arith, length-erase a xs)

pub erase-of_absent : (a : ℕ) (xs : List ℕ) → contains a xs ≡ false → erase a xs ≡ xs
erase-of_absent a [] h = refl
erase-of_absent a (x ∷ xs) h = ground (arith, erase-of_absent a xs)

-- The pigeonhole principle: distinct numbers below `n` are at most `n`.
pub length-le_of_nodup :
    (n : ℕ) (xs : List ℕ)
    → nodup xs ≡ true
    → ((a : ℕ) → contains a xs ≡ true → a < n)
    → length xs ≤ n
length-le_of_nodup zero [] d b = omega arith
length-le_of_nodup zero (x ∷ xs) d b = absurd (ground (arith, b x))
length-le_of_nodup (suc n) xs d b = ground (
  arith,
  length-le_of_nodup n (erase n xs) (nodup-erase n xs d)
      (λ (a : ℕ) (h : contains a (erase n xs) ≡ true).
        ground (arith, b a, contains-erase_of_ne a n xs, contains-erase_self n xs d)),
  length-erase n xs,
  erase-of_absent n xs,
)
