-- ===== src/Tests/Disk.antt =====
-- The theorems on the free map and on formats, on small inputs.
use os_ca.Prelude.{
  ℕ, ◌<◌, ◌≡◌, refl, sym, true, false, Option, none, some, List, [], ◌∷◌, if◌then◌else◌, ◌==◌,
  arith, subst,
}
use os_ca.Blocks.{Disk, SuperBlock, find_bit, balloc_from, balloc, bfree, bzero}
use os_ca.Blocks.Free.{free_block, IsMap, Allocated, mark, balloc_lem}
use os_ca.Blocks.Release.{bfree-balloc}
use os_ca.Format.{printint, cprintf, atoi}
use os_ca.Format.Numbers.{atoi-printint}
use os_ca.Format.Total.{cprintf-some}

-- Eight blocks; block 1 is the free map, in which blocks 0, 1 and 2 are in use.
abbrev pub super : SuperBlock
super = record { size = 8; bmapstart = 1 }

abbrev pub disk : Disk
disk b i = if (b == 1) then if i == 0 then 7 else 0 else 0

pub disk-IsMap : IsMap super disk
disk-IsMap = record {
  bytes = λ b i. ground arith;
  reserved = λ x b h h' e.
      let one : b ≡ 1 = omega (arith, e) in
      subst (λ b. free_block super disk b ≡ false) (sym one) refl;
}

balloc_lem_example : Allocated super disk 0 (balloc super disk)
balloc_lem_example = balloc_lem super disk disk-IsMap

first_free : balloc super disk ≡ some (3, bzero (mark super disk 3) 3)
unfolding balloc balloc_from find_bit
first_free = refl

bfree-balloc_example :
    (disk'' : Disk) × (bfree super (bzero (mark super disk 3) 3) 3 ≡ some disk'')
    × ((y : ℕ) → y < 8 → free_block super disk'' y ≡ free_block super disk y)
bfree-balloc_example = bfree-balloc super disk (bzero (mark super disk 3) 3) 3 disk-IsMap first_free

atoi-printint_example : (out : List ℕ) × (printint 2025 10 true ≡ some out) × (atoi out ≡ 2025)
atoi-printint_example = atoi-printint 2025 true (omega arith)

-- "%d%s%" with the arguments 7 and 7, at which "A" stands; nothing else can be read.
abbrev texts : ℕ → Option (List ℕ)
texts a = if a == 7 then some (b'A' ∷ []) else none

cprintf-some_example :
    (out : List ℕ) × (cprintf texts (λ _. 7) (some (b'%' ∷ b'd' ∷ b'%' ∷ b's' ∷ b'%' ∷ []))
      ≡ some out)
cprintf-some_example =
    cprintf-some texts (λ _. 7) (b'%' ∷ b'd' ∷ b'%' ∷ b's' ∷ b'%' ∷ []) (λ j. omega arith)
      (λ e. absurd (omega (arith, e)), (λ _ _. (b'A' ∷ [], refl), tt))
