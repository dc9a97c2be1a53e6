-- ===== src/Blocks.antt =====
-- The free map of the disk in fs.c (balloc, bfree, bzero). A block is a function from offsets to bytes.
-- bread and log_write are reads and writes of the disk as the running transaction sees it; what they do
-- below is Log's and Buffers' part. `none` is a panic.
pub mod Bits
pub mod Free
pub mod Release
use Prim.Native.Nat.{bit_and, bit_or}
use os_ca.Prelude.{
  ℕ, zero, suc, ◌+◌, ◌-◌, ◌/◌, ◌%◌, ◌^◌, Bool, true, false, Option, none, some, if◌then◌else◌, ltb,
  ◌==◌, update,
}

abbrev pub Block : Type 0
Block = ℕ → ℕ

abbrev pub Disk : Type 0
Disk = ℕ → Block

pub record SuperBlock : Type 0 where
  pub size : ℕ
  pub bmapstart : ℕ

abbrev pub bsize : ℕ
bsize = 512

-- Bitmap bits per block
abbrev pub bpb : ℕ
bpb = 4096

-- Block of free map containing bit for block b
abbrev pub bblock : SuperBlock → ℕ → ℕ
bblock sb b = b / bpb + sb.bmapstart

-- `(bp->data[bi/8] & m) == 0` with `m = 1 << (bi % 8)`
abbrev pub is_free : Block → ℕ → Bool
is_free bytes bi = bit_and (bytes (bi / 8)) (2 ^ (bi % 8)) == 0

-- `bp->data[bi/8] |= m`
abbrev pub set_bit : Block → ℕ → Block
set_bit bytes bi = update bytes (bi / 8) (bit_or (bytes (bi / 8)) (2 ^ (bi % 8)))

-- `bp->data[bi/8] &= ~m`
abbrev pub clear_bit : Block → ℕ → Block
clear_bit bytes bi = update bytes (bi / 8) (bit_and (bytes (bi / 8)) (255 - 2 ^ (bi % 8)))

abbrev pub bzero : Disk → ℕ → Disk
bzero disk bno = update disk bno (λ i. if ltb i bsize then 0 else disk bno i)

-- The inner loop of balloc from bit `bi` on, with `n` bits left in the block.
unfoldable pub find_bit : ℕ → SuperBlock → Block → ℕ → ℕ → Option ℕ
find_bit zero sb bytes b bi = none
find_bit (suc n) sb bytes b bi =
    let rest = find_bit n sb bytes b (bi + 1) in
    if ltb (b + bi) sb.size then if is_free bytes bi then some bi else rest else none

-- What balloc does with the bit that it has found.
abbrev pub take_block : SuperBlock → Disk → ℕ → ℕ → ℕ × Disk
take_block sb disk b bi =
    let at = bblock sb b in (b + bi, bzero (update disk at (set_bit (disk at) bi)) (b + bi))

-- The outer loop from block `b` on, with `n` rounds.
unfoldable pub balloc_from : ℕ → SuperBlock → Disk → ℕ → Option (ℕ × Disk)
unfolding find_bit
balloc_from zero sb disk b = none
balloc_from (suc n) sb disk b =
    let rest = balloc_from n sb disk (b + bpb) in
    if ltb b sb.size
    then elim (find_bit bpb sb (disk (bblock sb b)) b 0) [
      | none ↦ rest
      | some bi ↦ some (take_block sb disk b bi)
    ]
    else none

unfoldable pub balloc : SuperBlock → Disk → Option (ℕ × Disk)
unfolding balloc_from
balloc sb disk = balloc_from (sb.size / bpb + 1) sb disk 0

pub bfree : SuperBlock → Disk → ℕ → Option Disk
bfree sb disk b =
    let at = bblock sb b in
    let bi = b % bpb in
    if is_free (disk at) bi then none else some (update disk at (clear_bit (disk at) bi))
