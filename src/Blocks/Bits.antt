-- ===== src/Blocks/Bits.antt =====
-- The bits of a block of the free map (fs.c).
use Prim.Native.Nat.{bit_and, bit_or}
use os_ca.Prelude.{
  ℕ, zero, suc, ◌-◌, ◌/◌, ◌%◌, ◌^◌, ◌<◌, ◌≡◌, refl, ap, sym, ◌∙◌, Bool, true, false, ◌&&◌, not, ltb,
  ◌==◌, arith, Bool-cases, inl, inr, either,
}
use os_ca.Blocks.{Block, is_free, set_bit, clear_bit}

same : Bool → Bool → Bool
same true b = b
same false b = not b

-- Over a small range, check every value by evaluation.
all_below : ℕ → (ℕ → Bool) → Bool
all_below zero p = true
all_below (suc n) p = p n && all_below n p

all_below-IsSound : (n : ℕ) (p : ℕ → Bool) (x : ℕ) → all_below n p ≡ true → x < n → p x ≡ true
unfolding all_below
all_below-IsSound zero p x h l = absurd (omega arith)
all_below-IsSound (suc n) p x h l = ground (arith, all_below-IsSound n p x)

-- What a table over all bytes and pairs of bits says of one of its entries.
all_bits :
    (p : ℕ → ℕ → ℕ → Bool)
    → all_below 256 (λ x. all_below 8 (λ i. all_below 8 (p x i))) ≡ true
    → (x i j : ℕ) → x < 256
    → i < 8
    → j < 8
    → p x i j ≡ true
all_bits p t x i j h h' h'' =
    all_below-IsSound 8 (p x i) j
      (all_below-IsSound 8 (λ i. all_below 8 (p x i)) i
        (all_below-IsSound 256 (λ x. all_below 8 (λ i. all_below 8 (p x i))) x t h) h')
      h''

set_table :
    all_below 256 (λ x. all_below 8 (λ i. all_below 8 (λ j.
      ltb (bit_or x (2 ^ i)) 256
      && same
          (bit_and (bit_or x (2 ^ i)) (2 ^ j) == 0)
          (not (i == j) && (bit_and x (2 ^ j) == 0)))))
    ≡ true
unfolding all_below same
set_table = refl

clear_table :
    all_below 256 (λ x. all_below 8 (λ i. all_below 8 (λ j.
      ltb (bit_and x (255 - 2 ^ i)) 256
      && same
          (not (bit_and (bit_and x (255 - 2 ^ i)) (2 ^ j) == 0))
          (not (i == j) && not (bit_and x (2 ^ j) == 0)))))
    ≡ true
unfolding all_below same
clear_table = refl

same_eq : (a b : Bool) → same a b ≡ true → a ≡ b
unfolding same
same_eq true b h = sym h
same_eq false b h = ground (arith, h)

set_byte :
    (x i j : ℕ)
    → x < 256
    → i < 8
    → j < 8
    → (bit_or x (2 ^ i) < 256)
      × ((bit_and (bit_or x (2 ^ i)) (2 ^ j) == 0) ≡ (not (i == j) && (bit_and x (2 ^ j) == 0)))
set_byte x i j h h' h'' =
    let both = all_bits _ set_table x i j h h' h'' in
    (ground (arith, both), same_eq _ _ (ground (arith, both)))

clear_byte :
    (x i j : ℕ)
    → x < 256
    → i < 8
    → j < 8
    → (bit_and x (255 - 2 ^ i) < 256)
      × (not (bit_and (bit_and x (255 - 2 ^ i)) (2 ^ j) == 0)
          ≡ (not (i == j) && not (bit_and x (2 ^ j) == 0)))
clear_byte x i j h h' h'' =
    let both = all_bits _ clear_table x i j h h' h'' in
    (ground (arith, both), same_eq _ _ (ground (arith, both)))

abbrev pub IsBytes : Block → Type 0
IsBytes b = (i : ℕ) → b i < 256

same_place : (bi bj : ℕ) → (bi / 8 == bj / 8) ≡ true → (bi % 8 == bj % 8) ≡ (bi == bj)
same_place bi bj h = ground arith

other_place : (bi bj : ℕ) → (bi / 8 == bj / 8) ≡ false → (bi == bj) ≡ false
other_place bi bj h = ground arith

module _ {b : Block} (h : IsBytes b) where
  pub set_bit-IsBytes : (bi : ℕ) → IsBytes (set_bit b bi)
  set_bit-IsBytes bi i =
      either (λ v. v < 256) (bi / 8 == i)
        (λ _. (set_byte (b (bi / 8)) (bi % 8) 0 (h (bi / 8)) (omega arith) (omega arith)).0)
        (λ _. h i)

  -- Setting a bit takes it, and no other.
  pub is_free-set_bit : (bi bj : ℕ) → is_free (set_bit b bi) bj ≡ (not (bi == bj) && is_free b bj)
  is_free-set_bit bi bj = elim (Bool-cases (bi / 8 == bj / 8)) [
    | inl here ↦
        let places : (bi % 8 == bj % 8) ≡ (bi == bj) = same_place bi bj here in
        let bytes : b (bi / 8) ≡ b (bj / 8) = ap b (ground (arith, here)) in
        rw here (
          rw bytes (
            (set_byte (b (bj / 8)) (bi % 8) (bj % 8) (h (bj / 8)) (omega arith) (omega arith)).1
            ∙ rw places refl))
    | inr there ↦ let apart : (bi == bj) ≡ false = other_place bi bj there in rw (there, apart) refl
  ]

  pub clear_bit-IsBytes : (bi : ℕ) → IsBytes (clear_bit b bi)
  clear_bit-IsBytes bi i =
      either (λ v. v < 256) (bi / 8 == i)
        (λ _. (clear_byte (b (bi / 8)) (bi % 8) 0 (h (bi / 8)) (omega arith) (omega arith)).0)
        (λ _. h i)

  -- Clearing a bit frees it, and no other.
  pub is_free-clear_bit :
      (bi bj : ℕ) → not (is_free (clear_bit b bi) bj) ≡ (not (bi == bj) && not (is_free b bj))
  is_free-clear_bit bi bj = elim (Bool-cases (bi / 8 == bj / 8)) [
    | inl here ↦
        let places : (bi % 8 == bj % 8) ≡ (bi == bj) = same_place bi bj here in
        let bytes : b (bi / 8) ≡ b (bj / 8) = ap b (ground (arith, here)) in
        rw here (
          rw bytes (
            (clear_byte (b (bj / 8)) (bi % 8) (bj % 8) (h (bj / 8)) (omega arith) (omega arith)).1
            ∙ rw places refl))
    | inr there ↦ let apart : (bi == bj) ≡ false = other_place bi bj there in rw (there, apart) refl
  ]
