-- ===== src/Blocks/Release.antt =====
-- bfree (fs.c), and what it undoes.
use os_ca.Prelude.{
  ℕ, ◌<◌, ◌≡◌, refl, ap, sym, subst, ◌∙◌, Bool, true, false, ◌&&◌, ◌||◌, not, Option, none, some,
  ◌==◌, arith, ==-self, some_unique,
}
use os_ca.Blocks.{Disk, SuperBlock, balloc, bfree}
use os_ca.Blocks.Free.{free_block, IsMap, Allocated, taken, balloc_lem, unmark, free_block-unmark}

not_lem : (a b c : Bool) → not a ≡ (not b && not c) → a ≡ (b || c)
not_lem true true c h = refl
not_lem true false true h = refl
not_lem true false false h = absurd (ground (arith, h))
not_lem false true c h = absurd (ground (arith, h))
not_lem false false true h = absurd (ground (arith, h))
not_lem false false false h = refl

-- bfree panics on a free block. Of a block in use it frees just this block.
pub bfree_lem :
    (sb : SuperBlock) (disk : Disk) (x : ℕ)
    → IsMap sb disk
    → (free_block sb disk x ≡ true → bfree sb disk x ≡ none)
      × (free_block sb disk x ≡ false
          → (disk' : Disk) × (bfree sb disk x ≡ some disk')
            × ((y : ℕ) → free_block sb disk' y ≡ ((x == y) || free_block sb disk y)))
unfolding bfree
bfree_lem sb disk x v = (
  λ f. rw f refl,
  λ f. (unmark sb disk x, rw f refl, λ y. not_lem _ _ _ (free_block-unmark sb disk v.bytes x y)),
)

put_back : (a f : Bool) → (a ≡ true → f ≡ true) → (a || (not a && f)) ≡ f
put_back true f h = sym (h refl)
put_back false f h = refl

-- Freeing the block on the disk leaves the blocks free that were free on the old disk.
abbrev Undone : SuperBlock → Disk → ℕ × Disk → Type 0
Undone sb disk (x, disk') =
    (disk'' : Disk) × (bfree sb disk' x ≡ some disk'')
    × ((y : ℕ) → y < sb.size → free_block sb disk'' y ≡ free_block sb disk y)

allocated-Undone :
    (sb : SuperBlock) (disk : Disk) (r : ℕ × Disk) (o : Option (ℕ × Disk))
    → o ≡ some r
    → Allocated sb disk 0 o
    → Undone sb disk r
allocated-Undone sb disk r none e a = absurd (ground (arith, e))
allocated-Undone sb disk r (some _) e (taken {x = z} {disk' = d} l h f before rest zeroed frame m) =
    let used : free_block sb d z ≡ false = rest z h ∙ rw (==-self z) refl in
    let (disk'', freed, after) = (bfree_lem sb d z m).1 used in
    subst (Undone sb disk) (some_unique refl e) (
      disk'',
      freed,
      λ y h'.
          after y
          ∙ rw (rest y h') (
              put_back (z == y) (free_block sb disk y) (λ t.
                let same : z ≡ y = ground (arith, t) in ap (free_block sb disk) (sym same) ∙ f)),
    )

-- What balloc takes, bfree gives back: freeing the block that has just been allocated does not panic, and
-- leaves the same blocks free as before.
pub bfree-balloc :
    (sb : SuperBlock) (disk disk' : Disk) (x : ℕ)
    → IsMap sb disk
    → balloc sb disk ≡ some (x, disk')
    → (disk'' : Disk) × (bfree sb disk' x ≡ some disk'')
      × ((y : ℕ) → y < sb.size → free_block sb disk'' y ≡ free_block sb disk y)
bfree-balloc sb disk disk' x v e =
    allocated-Undone sb disk (x, disk') (balloc sb disk) e (balloc_lem sb disk v)
