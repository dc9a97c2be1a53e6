-- ===== src/Inodes/Count.antt =====
-- How many blocks of the disk are free (fs.c).
use os_ca.Prelude.{
  ℕ, zero, suc, ◌+◌, ◌<◌, ◌≡◌, refl, ◌∙◌, true, false, ◌&&◌, not, if◌then◌else◌, ◌==◌, arith,
  Bool-cases, inl, inr, subst,
}
use os_ca.Blocks.{Disk, SuperBlock}
use os_ca.Blocks.Free.{free_block}

-- The free blocks among the first `n`.
unfoldable pub free_below : ℕ → SuperBlock → Disk → ℕ
free_below zero sb disk = 0
free_below (suc n) sb disk = free_below n sb disk + (if free_block sb disk n then 1 else 0)

unfoldable pub free_count : SuperBlock → Disk → ℕ
unfolding free_below
free_count sb disk = free_below sb.size sb disk

module _ (sb : SuperBlock) (disk disk' : Disk) where
  free_below-same :
      (n : ℕ)
      → ((y : ℕ) → y < n → free_block sb disk' y ≡ free_block sb disk y)
      → free_below n sb disk' ≡ free_below n sb disk
  unfolding free_below
  free_below-same zero h = refl
  free_below-same (suc n) h =
      rw (h n (omega arith), free_below-same n (λ y l. h y (omega arith))) refl

  free_below-taken :
      (x : ℕ)
      → free_block sb disk x ≡ true
      → (n : ℕ) → x < n
      → ((y : ℕ) → y < n → free_block sb disk' y ≡ (not (x == y) && free_block sb disk y))
      → free_below n sb disk' + 1 ≡ free_below n sb disk
  unfolding free_below
  free_below-taken x f zero l h = absurd (omega arith)
  free_below-taken x f (suc n) l h = elim (Bool-cases (x == n)) [
    | inl last ↦
        let same : x ≡ n = ground (arith, last) in
        let new : free_block sb disk' n ≡ false = h n (omega arith) ∙ rw last refl in
        let old : free_block sb disk n ≡ true = subst (λ y. free_block sb disk y ≡ true) same f in
        let rest : free_below n sb disk' ≡ free_below n sb disk = free_below-same n (λ y m.
          let other : (x == y) ≡ false = ground (arith, same) in
          h y (omega arith) ∙ rw other refl) in
        rw (new, old, rest) (omega arith)
    | inr more ↦
        let here : free_block sb disk' n ≡ free_block sb disk n =
          h n (omega arith) ∙ rw more refl in
        let rest = free_below-taken x f n (ground (arith, more)) (λ y m. h y (omega arith)) in
        rw here (omega (arith, rest))
  ]

  -- A block that has been taken is one free block less.
  pub free_count-taken :
      (x : ℕ)
      → x < sb.size
      → free_block sb disk x ≡ true
      → ((y : ℕ) → y < sb.size → free_block sb disk' y ≡ (not (x == y) && free_block sb disk y))
      → free_count sb disk' + 1 ≡ free_count sb disk
  unfolding free_count
  free_count-taken x l f h = free_below-taken x f sb.size l h

  pub free_count-same :
      ((y : ℕ) → y < sb.size → free_block sb disk' y ≡ free_block sb disk y)
      → free_count sb disk' ≡ free_count sb disk
  unfolding free_count
  free_count-same h = free_below-same sb.size h

free_below-none :
    (n : ℕ) (sb : SuperBlock) (disk : Disk)
    → ((y : ℕ) → y < n → free_block sb disk y ≡ false)
    → free_below n sb disk ≡ 0
unfolding free_below
free_below-none zero sb disk h = refl
free_below-none (suc n) sb disk h =
    rw (h n (omega arith), free_below-none n sb disk (λ y l. h y (omega arith))) refl

pub free_count-none :
    (sb : SuperBlock) (disk : Disk)
    → ((y : ℕ) → y < sb.size → free_block sb disk y ≡ false)
    → free_count sb disk ≡ 0
unfolding free_count
free_count-none sb disk h = free_below-none sb.size sb disk h
