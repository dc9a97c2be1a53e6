-- ===== src/Inodes.antt =====
-- The content of a file in fs.c: bmap, readi and writei on inodes that are no devices. The disk is as in
-- Blocks; a read of a device goes to devsw, and iupdate's copy of the inode on the disk is left out, so that an
-- inode is its cached fields. `none` is a panic, or in the loops the end of their fuel.
pub mod Slots
pub mod Mapping
pub mod Effect
pub mod Reading
pub mod Filling
pub mod Rounds
pub mod Writing
pub mod RoundTrip
pub mod Count
use os_ca.Prelude.{
  ℕ, zero, suc, ◌+◌, ◌-◌, ◌*◌, ◌/◌, ◌%◌, ◌^◌, Bool, true, false, ◌&&◌, ◌||◌, Option, none, some,
  List, [], ◌∷◌, ◌++◌, if◌then◌else◌, ◌>>=◌, ltb, leb, ◌==◌, update, add32, slice,
}
use os_ca.Memory.{int_at, put_int}
use os_ca.Blocks.{Block, Disk, SuperBlock, bsize, balloc}

abbrev pub ndirect : ℕ
ndirect = 12

abbrev pub nindirect : ℕ
nindirect = 128

abbrev pub maxfile : ℕ
maxfile = 140

pub record Inode : Type 0 where
  pub addrs : ℕ → ℕ
  pub size : ℕ

-- A block's address with the inode and the disk after the call.
abbrev pub Mapped : Type 0
Mapped = ℕ × Inode × Disk

-- `if((addr = ip->addrs[i]) == 0) ip->addrs[i] = addr = balloc(ip->dev);`
unfoldable pub direct_block : SuperBlock → Disk → Inode → ℕ → Option Mapped
direct_block sb disk ip i =
    if ip.addrs i == 0
    then (do
      (addr, disk') ← balloc sb disk
      some (addr, record ip { addrs = update ip.addrs i addr }, disk'))
    else some (ip.addrs i, ip, disk)

-- The `bn`-th entry of the indirect block at `at`.
unfoldable pub indirect_block : SuperBlock → Disk → Inode → ℕ → ℕ → Option Mapped
indirect_block sb disk ip at bn =
    if int_at (disk at) (4 * bn) == 0
    then (do
      (addr, disk') ← balloc sb disk
      some (addr, ip, update disk' at (put_int (disk' at) (4 * bn) addr)))
    else some (int_at (disk at) (4 * bn), ip, disk)

unfoldable pub bmap : SuperBlock → Disk → Inode → ℕ → Option Mapped
unfolding direct_block indirect_block
bmap sb disk ip bn =
    if ltb bn ndirect
    then direct_block sb disk ip bn
    else if ltb (bn - ndirect) nindirect
    then (do
      (at, ip', disk') ← direct_block sb disk ip ndirect
      indirect_block sb disk' ip' at (bn - ndirect))
    else none

-- `min(n - tot, BSIZE - off%BSIZE)`
abbrev pub chunk : ℕ → ℕ → ℕ
chunk off n = if ltb n (bsize - off % bsize) then n else bsize - off % bsize

-- The loop of readi: `n` bytes are left to be read from `off` on.
unfoldable pub read_blocks : ℕ → SuperBlock → Disk → Inode → ℕ → ℕ → Option (List ℕ × Inode × Disk)
read_blocks zero sb disk ip off n = if n == 0 then some ([], ip, disk) else none
read_blocks (suc fuel) sb disk ip off n = elim (n == 0) [
  | true ↦ some ([], ip, disk)
  | false ↦ do
    (at, ip', disk') ← bmap sb disk ip (off / bsize)
    let m = chunk off n
    (rest, ip'', disk'') ← read_blocks fuel sb disk' ip' (off + m) (n - m)
    some (slice (disk' at) (off % bsize) m ++ rest, ip'', disk'')
]

-- The bytes that go to `dst`, or -1. The result of the call is their number.
unfoldable pub readi : SuperBlock → Disk → Inode → ℕ → ℕ → Option (Option (List ℕ) × Inode × Disk)
unfolding read_blocks
readi sb disk ip off n =
    if ltb ip.size off || ltb (add32 off n) off then some (none, ip, disk) else (do
      let count = if ltb ip.size (add32 off n) then ip.size - off else n
      (bytes, ip', disk') ← read_blocks count sb disk ip off count
      some (some bytes, ip', disk'))

-- `memmove(bp->data + at, src, m)`
unfoldable pub fill : Block → ℕ → (ℕ → ℕ) → ℕ → Block
fill bytes at src m i = if leb at i && ltb i (at + m) then src (i - at) else bytes i

-- The loop of writei, with `n` bytes of `src` left to be written from `off` on.
unfoldable pub write_blocks :
    ℕ → SuperBlock → Disk → Inode → ℕ → (ℕ → ℕ) → ℕ → Option (Inode × Disk)
write_blocks zero sb disk ip off src n = if n == 0 then some (ip, disk) else none
write_blocks (suc fuel) sb disk ip off src n = elim (n == 0) [
  | true ↦ some (ip, disk)
  | false ↦ do
    (at, ip', disk') ← bmap sb disk ip (off / bsize)
    let m = chunk off n
    let disk'' = update disk' at (fill (disk' at) (off % bsize) src m)
    write_blocks fuel sb disk'' ip' (off + m) (λ i. src (m + i)) (n - m)
]

-- The number of bytes written, or -1.
unfoldable pub writei :
    SuperBlock → Disk → Inode → ℕ → (ℕ → ℕ) → ℕ → Option (Option ℕ × Inode × Disk)
unfolding write_blocks
writei sb disk ip off src n =
    if (ltb ip.size off || ltb (add32 off n) off) || ltb (maxfile * bsize) (add32 off n)
    then some (none, ip, disk)
    else (do
      (ip', disk') ← write_blocks n sb disk ip off src n
      let grown = ltb 0 n && ltb ip'.size (off + n)
      some (some n, if grown then record ip' { size = off + n } else ip', disk'))
