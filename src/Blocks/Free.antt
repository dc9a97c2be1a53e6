-- ===== src/Blocks/Free.antt =====
-- What balloc and bfree (fs.c) do to the free map of the disk.
use os_ca.Prelude.{
  ℕ, zero, suc, ◌+◌, ◌-◌, ◌*◌, ◌/◌, ◌%◌, ◌<◌, ◌≤◌, ◌≡◌, ◌≢◌, refl, ap, ◌∙◌, subst, Bool, true,
  false, ◌&&◌, not, Option, none, some, ltb, ◌==◌, update, arith, Bool-cases, inl, inr, either,
}
use os_ca.Blocks.{
  Block, Disk, SuperBlock, bsize, bpb, bblock, is_free, set_bit, clear_bit, bzero, find_bit,
  take_block, balloc_from, balloc,
}
use os_ca.Blocks.Bits.{
  IsBytes, set_bit-IsBytes, is_free-set_bit, clear_bit-IsBytes, is_free-clear_bit,
}

-- The free map as a set of blocks.
abbrev pub free_block : SuperBlock → Disk → ℕ → Bool
free_block sb disk b = is_free (disk (bblock sb b)) (b % bpb)

-- The disk holds bytes, and the blocks of the free map are in use.
pub record IsMap (sb : SuperBlock) (disk : Disk) : Type 0 where
  pub bytes : (b : ℕ) → IsBytes (disk b)
  pub reserved :
      (x b : ℕ) → x < sb.size → b < sb.size → b ≡ bblock sb x → free_block sb disk b ≡ false

-- A bit that the inner loop finds is the first free one; otherwise it has seen no free one.
data Found (n : ℕ) (sb : SuperBlock) (bytes : Block) (b bi : ℕ) : Option ℕ → Type 0 where
  found :
      {i : ℕ}
      → bi ≤ i
      → i < bi + n
      → b + i < sb.size
      → is_free bytes i ≡ true
      → ((j : ℕ) → bi ≤ j → j < i → is_free bytes j ≡ false)
      → Found n sb bytes b bi (some i)
  full :
      ((j : ℕ) → bi ≤ j → j < bi + n → b + j < sb.size → is_free bytes j ≡ false)
      → Found n sb bytes b bi none

find_bit-Found :
    (n : ℕ) (sb : SuperBlock) (bytes : Block) (b bi : ℕ)
    → Found n sb bytes b bi (find_bit n sb bytes b bi)
unfolding find_bit
find_bit-Found zero sb bytes b bi = full (λ j l m h. absurd (omega arith))
find_bit-Found (suc n) sb bytes b bi =
    either (Found (suc n) sb bytes b bi) (ltb (b + bi) sb.size)
      (λ inside.
        either (Found (suc n) sb bytes b bi) (is_free bytes bi)
          (λ f. found (omega arith) (omega arith) (ground arith) f (λ j l m. absurd (omega arith)))
          (λ u. later u (find_bit-Found n sb bytes b (bi + 1))))
      (λ outside. full (λ j l m h. absurd (ground arith)))
  where
    first :
        is_free bytes bi ≡ false
        → (j : ℕ) → bi ≤ j
        → (bi + 1 ≤ j → is_free bytes j ≡ false)
        → is_free bytes j ≡ false
    first u j l rest = elim (Bool-cases (bi == j)) [
      | inl here ↦
          let same : bi ≡ j = ground (arith, here) in subst (λ i. is_free bytes i ≡ false) same u
      | inr past ↦ rest (ground (arith, past))
    ]

    later :
        {o : Option ℕ}
        → is_free bytes bi ≡ false
        → Found n sb bytes b (bi + 1) o
        → Found (suc n) sb bytes b bi o
    later u (found {i} l m h f before) =
        found (omega arith) (omega arith) h f (λ j p q. first u j p (λ p'. before j p' q))
    later u (full before) = full (λ j p q h. first u j p (λ p'. before j p' (omega arith) h))

abbrev pub mark : SuperBlock → Disk → ℕ → Disk
mark sb disk x = update disk (bblock sb x) (set_bit (disk (bblock sb x)) (x % bpb))

abbrev pub unmark : SuperBlock → Disk → ℕ → Disk
unmark sb disk x = update disk (bblock sb x) (clear_bit (disk (bblock sb x)) (x % bpb))

same_bit :
    (sb : SuperBlock) (x y : ℕ)
    → (bblock sb x == bblock sb y) ≡ true
    → (x % bpb == y % bpb) ≡ (x == y)
same_bit sb x y h = ground arith

other_bit : (sb : SuperBlock) (x y : ℕ) → (bblock sb x == bblock sb y) ≡ false → (x == y) ≡ false
other_bit sb x y h = ground arith

module _ (sb : SuperBlock) (disk : Disk) (h : (b : ℕ) → IsBytes (disk b)) (x : ℕ) where
  free_block-mark :
      (y : ℕ) → free_block sb (mark sb disk x) y ≡ (not (x == y) && free_block sb disk y)
  free_block-mark y = elim (Bool-cases (bblock sb x == bblock sb y)) [
    | inl here ↦
        let at : bblock sb x ≡ bblock sb y = ground (arith, here) in
        rw (here, at)
          (is_free-set_bit (h (bblock sb y)) (x % bpb) (y % bpb) ∙ rw (same_bit sb x y here) refl)
    | inr there ↦ rw (there, other_bit sb x y there) refl
  ]

  pub free_block-unmark :
      (y : ℕ)
      → not (free_block sb (unmark sb disk x) y) ≡ (not (x == y) && not (free_block sb disk y))
  free_block-unmark y = elim (Bool-cases (bblock sb x == bblock sb y)) [
    | inl here ↦
        let at : bblock sb x ≡ bblock sb y = ground (arith, here) in
        rw (here, at)
          (is_free-clear_bit (h (bblock sb y)) (x % bpb) (y % bpb) ∙ rw (same_bit sb x y here) refl)
    | inr there ↦ rw (there, other_bit sb x y there) refl
  ]

  mark-bytes : (b : ℕ) → IsBytes (mark sb disk x b)
  mark-bytes b =
      either IsBytes (bblock sb x == b) (λ _. set_bit-IsBytes (h (bblock sb x)) (x % bpb))
        (λ _. h b)

  unmark-bytes : (b : ℕ) → IsBytes (unmark sb disk x b)
  unmark-bytes b =
      either IsBytes (bblock sb x == b) (λ _. clear_bit-IsBytes (h (bblock sb x)) (x % bpb))
        (λ _. h b)

  bzero-bytes : (b : ℕ) → IsBytes (bzero disk x b)
  bzero-bytes b =
      either IsBytes (x == b)
        (λ _ i. either (λ v. v < 256) (ltb i bsize) (λ _. omega arith) (λ _. h x i)) (λ _. h b)

  bzero-zero : (i : ℕ) → i < bsize → bzero disk x x i ≡ 0
  bzero-zero i l = ground arith

  free_block-bzero :
      (y : ℕ) → x ≢ bblock sb y → free_block sb (bzero disk x) y ≡ free_block sb disk y
  free_block-bzero y ne = let apart : (x == bblock sb y) ≡ false = ground arith in rw apart refl

-- What a search from block `lo` on gives.
pub data Allocated (sb : SuperBlock) (disk : Disk) (lo : ℕ) : Option (ℕ × Disk) → Type 0 where
  taken :
      {x : ℕ} {disk' : Disk}
      → lo ≤ x
      → x < sb.size
      → free_block sb disk x ≡ true
      → ((y : ℕ) → lo ≤ y → y < x → free_block sb disk y ≡ false)
      → ((y : ℕ) → y < sb.size → free_block sb disk' y ≡ (not (x == y) && free_block sb disk y))
      → ((i : ℕ) → i < bsize → disk' x i ≡ 0)
      → ((b : ℕ) → b ≢ x → ((y : ℕ) → y < sb.size → b ≢ bblock sb y) → disk' b ≡ disk b)
      → IsMap sb disk'
      → Allocated sb disk lo (some (x, disk'))
  none_free :
      ((y : ℕ) → lo ≤ y → y < sb.size → free_block sb disk y ≡ false) → Allocated sb disk lo none

module _ {sb : SuperBlock} {disk : Disk} (v : IsMap sb disk) where
  -- A free block is none of the map's.
  apart : (x y : ℕ) → x < sb.size → y < sb.size → free_block sb disk x ≡ true → x ≢ bblock sb y
  apart x y h h' f e = let used = v.reserved y x h' h e in absurd (ground (arith, f, used))

  -- No block but the new one and those of the map is written.
  bzero-other : {x : ℕ} (b : ℕ) → b ≢ x → b ≢ bblock sb x → bzero (mark sb disk x) x b ≡ disk b
  bzero-other {x} b n m =
      let old : (x == b) ≡ false = ground arith in
      let unmapped : (bblock sb x == b) ≡ false = ground arith in rw (old, unmapped) refl

  taken_block :
      (x y : ℕ)
      → x < sb.size
      → y < sb.size
      → free_block sb disk x ≡ true
      → free_block sb (bzero (mark sb disk x) x) y ≡ (not (x == y) && free_block sb disk y)
  taken_block x y h h' f =
      free_block-bzero sb (mark sb disk x) (mark-bytes sb disk v.bytes x) x y (apart x y h h' f)
      ∙ free_block-mark sb disk v.bytes x y

  taken-IsMap :
      (x : ℕ) → x < sb.size → free_block sb disk x ≡ true → IsMap sb (bzero (mark sb disk x) x)
  taken-IsMap x h f = record {
    bytes = bzero-bytes sb (mark sb disk x) (mark-bytes sb disk v.bytes x) x;
    reserved = λ z b l l' e. taken_block x b h l' f ∙ rw (v.reserved z b l l' e) (ground arith);
  }

  taken-Allocated :
      (lo x : ℕ)
      → lo ≤ x
      → x < sb.size
      → free_block sb disk x ≡ true
      → ((y : ℕ) → lo ≤ y → y < x → free_block sb disk y ≡ false)
      → Allocated sb disk lo (some (x, bzero (mark sb disk x) x))
  taken-Allocated lo x l h f before =
      taken l h f before (λ y h'. taken_block x y h h' f)
        (bzero-zero sb (mark sb disk x) (mark-bytes sb disk v.bytes x) x)
        (λ b n m. bzero-other b n (m x h)) (taken-IsMap x h f)

  -- The block at bit `i` of the `q`-th block of the map
  at_bit :
      (q i : ℕ)
      → i < bpb
      → free_block sb disk (q * bpb + i) ≡ is_free (disk (bblock sb (q * bpb))) i
  at_bit q i l =
      let same : bblock sb (q * bpb + i) ≡ bblock sb (q * bpb) = omega arith in
      let bit : (q * bpb + i) % bpb ≡ i = omega arith in rw (same, bit) refl

  take_block_eq :
      (q i : ℕ)
      → i < bpb
      → take_block sb disk (q * bpb) i
        ≡ (q * bpb + i, bzero (mark sb disk (q * bpb + i)) (q * bpb + i))
  take_block_eq q i l =
      let same : bblock sb (q * bpb + i) ≡ bblock sb (q * bpb) = omega arith in
      let bit : (q * bpb + i) % bpb ≡ i = omega arith in rw (same, bit) refl

  earlier :
      (lo mid : ℕ) {o : Option (ℕ × Disk)}
      → lo ≤ mid
      → ((y : ℕ) → lo ≤ y → y < mid → y < sb.size → free_block sb disk y ≡ false)
      → Allocated sb disk mid o
      → Allocated sb disk lo o
  earlier lo mid p used (taken {x} l h f before rest zeroed frame m) =
      taken (omega arith) h f
        (λ y a b. elim (Bool-cases (ltb y mid)) [
          | inl low ↦ used y a (ground arith) (omega arith)
          | inr high ↦ before y (ground arith) b
        ])
        rest zeroed frame m
  earlier lo mid p used (none_free before) = none_free (λ y a b. elim (Bool-cases (ltb y mid)) [
    | inl low ↦ used y a (ground arith) b
    | inr high ↦ before y (ground arith) b
  ])

  round-Allocated :
      (q : ℕ) (o : Option ℕ) (rest : Option (ℕ × Disk))
      → Found bpb sb (disk (bblock sb (q * bpb))) (q * bpb) 0 o
      → Allocated sb disk (q * bpb + bpb) rest
      → Allocated sb disk
          (q * bpb)
          (elim o [ none ↦ rest | some bi ↦ some (take_block sb disk (q * bpb) bi) ])
  round-Allocated q (some i) rest (found l m h f before) r =
      let here : free_block sb disk (q * bpb + i) ≡ true = at_bit q i (omega arith) ∙ f in
      rw (take_block_eq q i (omega arith)) (
        taken-Allocated (q * bpb) (q * bpb + i) (omega arith) h here (λ y a b.
          let j = y - q * bpb in
          let same : y ≡ q * bpb + j = omega arith in
          ap (free_block sb disk) same
          ∙ at_bit q j (omega arith)
          ∙ before j (omega arith) (omega arith)))
  round-Allocated q none rest (full before) r =
      earlier (q * bpb) (q * bpb + bpb) (omega arith)
        (λ y a b c.
          let j = y - q * bpb in
          let same : y ≡ q * bpb + j = omega arith in
          ap (free_block sb disk) same
          ∙ at_bit q j (omega arith)
          ∙ before j (omega arith) (omega arith) (omega arith))
        r

  balloc_from-Allocated :
      (n q : ℕ)
      → sb.size ≤ (q + n) * bpb
      → Allocated sb disk (q * bpb) (balloc_from n sb disk (q * bpb))
  unfolding balloc_from
  balloc_from-Allocated zero q h = none_free (λ y l m. absurd (omega arith))
  balloc_from-Allocated (suc n) q h =
      either (Allocated sb disk (q * bpb)) (ltb (q * bpb) sb.size)
        (λ inside.
          round-Allocated q _ _ (find_bit-Found bpb sb (disk (bblock sb (q * bpb))) (q * bpb) 0) (
            let next : (q + 1) * bpb ≡ q * bpb + bpb = omega arith in
            subst (λ b. Allocated sb disk b (balloc_from n sb disk b)) next
              (balloc_from-Allocated n (q + 1) (omega arith))))
        (λ outside. none_free (λ y l m. absurd (ground arith)))

-- While the blocks of the free map are marked in use, balloc returns the first free block of the disk: it
-- is marked in use and zeroed, no other block is freed or taken, none but it and those of the map is
-- written, and the free map stays well formed.
-- It panics only if no block is free; its rounds cover the disk.
pub balloc_lem :
    (sb : SuperBlock) (disk : Disk) → IsMap sb disk → Allocated sb disk 0 (balloc sb disk)
unfolding balloc
balloc_lem sb disk v = balloc_from-Allocated v (sb.size / bpb + 1) 0 (omega arith)
