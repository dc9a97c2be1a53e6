-- ===== src/Inodes/Reading.antt =====
-- readi (fs.c) gives the content of the file.
use os_ca.Prelude.{
  ℕ, zero, suc, ◌+◌, ◌-◌, ◌*◌, ◌/◌, ◌%◌, ◌^◌, ◌<◌, ◌≤◌, ◌≡◌, ◌≢◌, ◌⊎◌, refl, ap, sym, ◌∙◌, true,
  false, ◌||◌, none, some, List, ◌++◌, if◌then◌else◌, ltb, ◌==◌, arith, Bool-cases, inl, inr, slice,
  slice-eq, slice-append, add32,
}
use os_ca.Blocks.{Disk, SuperBlock, bsize}
use os_ca.Inodes.{Inode, maxfile, chunk, read_blocks, readi}
use os_ca.Inodes.Slots.{slot, sized, slot-sized}
use os_ca.Inodes.Effect.{bmap-mapped}

-- The byte of the file at `a`.
abbrev pub content : Disk → Inode → ℕ → ℕ
content disk ip a = disk (slot disk ip (a / bsize)) (a % bsize)

pub content-sized :
    (disk : Disk) (ip : Inode) (n a : ℕ) → content disk (sized ip n) a ≡ content disk ip a
content-sized disk ip n a = ap (λ (b : ℕ). disk b (a % bsize)) (slot-sized disk ip n (a / bsize))

-- The file has a block for each of its bytes, and no more bytes than a file can have.
pub record IsFilled (disk : Disk) (ip : Inode) : Type 0 where
  pub fits : ip.size ≤ maxfile * bsize
  pub present : (a : ℕ) → a < ip.size → slot disk ip (a / bsize) ≢ 0

pub chunk_bounds :
    (off n : ℕ)
    → 0 < n
    → (0 < chunk off n) × (chunk off n ≤ n) × (off % bsize + chunk off n ≤ bsize)
chunk_bounds off n h = ground arith

-- A chunk lies in one block.
pub content-chunk :
    (disk : Disk) (ip : Inode) (off i : ℕ)
    → off % bsize + i < bsize
    → content disk ip (off + i) ≡ disk (slot disk ip (off / bsize)) (off % bsize + i)
content-chunk disk ip off i h =
    let block : (off + i) / bsize ≡ off / bsize = omega arith in
    let place : (off + i) % bsize ≡ off % bsize + i = omega arith in rw (block, place) refl

slice-chunk :
    (disk : Disk) (ip : Inode) (off n m : ℕ)
    → off % bsize + m ≤ bsize
    → m ≤ n
    → slice (disk (slot disk ip (off / bsize))) (off % bsize) m
        ++ slice (content disk ip) (off + m) (n - m)
      ≡ slice (content disk ip) off n
slice-chunk disk ip off n m h l =
    let whole : n ≡ m + (n - m) = omega arith in
    let first : slice (disk (slot disk ip (off / bsize))) (off % bsize) m
        ≡ slice (content disk ip) off m =
      slice-eq (disk (slot disk ip (off / bsize))) (content disk ip) (off % bsize) off m
        (λ i k. sym (content-chunk disk ip off i (omega arith))) in
    ap (λ (x : List ℕ). x ++ slice (content disk ip) (off + m) (n - m)) first
    ∙ sym (slice-append (content disk ip) off m (n - m))
    ∙ ap (slice (content disk ip) off) (sym whole)

pub read_blocks_lem :
    (fuel : ℕ) (sb : SuperBlock) {disk : Disk} {ip : Inode} (off n : ℕ)
    → IsFilled disk ip
    → n ≤ fuel
    → off + n ≤ ip.size
    → read_blocks fuel sb disk ip off n ≡ some (slice (content disk ip) off n, ip, disk)
unfolding read_blocks
read_blocks_lem zero sb off n v l h = let none_left : n ≡ 0 = omega arith in rw none_left refl
read_blocks_lem (suc fuel) sb {disk} {ip} off n v l h = elim (Bool-cases (n == 0)) [
  | inl last ↦ let none_left : n ≡ 0 = ground (arith, last) in rw none_left refl
  | inr more ↦
      let m = chunk off n in
      let b = chunk_bounds off n (ground (arith, more)) in
      let mapped =
        bmap-mapped sb (off / bsize) (omega (arith, v.fits, b.0, b.1))
          (v.present off (omega (arith, b.0, b.1))) in
      let rest =
        read_blocks_lem fuel sb (off + m) (n - m) v (omega (arith, b.0)) (omega (arith, b.1)) in
      rw (more, read_blocks)
        (rw mapped
          (rw rest (ap (λ (x : List ℕ). some (x, ip, disk)) (slice-chunk disk ip off n m b.2 b.1))))
]

-- readi of a file gives the bytes of its content from `off` on, `n` of them or as many as the file has
-- there, and changes nothing. If `off` is behind the end of the file or `off + n` overflows, the result is -1.
pub readi_lem :
    (sb : SuperBlock) {disk : Disk} {ip : Inode} (off n : ℕ)
    → IsFilled disk ip
    → n < 2 ^ 32
    → ((ip.size < off) ⊎ (2 ^ 32 ≤ off + n)
        → off < 2 ^ 32
        → readi sb disk ip off n ≡ some (none, ip, disk))
      × (off ≤ ip.size
          → off + n < 2 ^ 32
          → readi sb disk ip off n
            ≡ some (
              some (
                  slice (content disk ip) off (if ltb ip.size (off + n) then ip.size - off else n)),
              ip,
              disk,
            ))
unfolding readi
readi_lem sb {disk} {ip} off n v l = (
  λ bad w.
      let refused : (ltb ip.size off || ltb (add32 off n) off) ≡ true = ground arith in
      rw refused refl,
  λ h k.
      let fine : (ltb ip.size off || ltb (add32 off n) off) ≡ false = ground arith in
      let sum : add32 off n ≡ off + n = omega arith in
      let count = if ltb ip.size (off + n) then ip.size - off else n in
      rw (fine, sum) (rw (read_blocks_lem count sb off count v (omega arith) (ground arith)) refl),
)
