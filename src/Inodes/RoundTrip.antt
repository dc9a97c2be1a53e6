-- ===== src/Inodes/RoundTrip.antt =====
-- What writei (fs.c) puts into a file, readi gets out of it.
use os_ca.Prelude.{
  ℕ, ◌+◌, ◌-◌, ◌*◌, ◌<◌, ◌≤◌, ◌≡◌, ap, ◌∙◌, some, List, if◌then◌else◌, ltb, arith, slice, slice-eq,
}
use os_ca.Blocks.{Disk, SuperBlock, bsize}
use os_ca.Inodes.{Inode, maxfile, writei, readi}
use os_ca.Inodes.Slots.{IsFile}
use os_ca.Inodes.Count.{free_count}
use os_ca.Inodes.Reading.{content, IsFilled, readi_lem}
use os_ca.Inodes.Writing.{touched, end_of, writei_lem}

long_enough :
    (size size' off n : ℕ)
    → off ≤ size
    → size' ≡ end_of size off n
    → (off ≤ size') × ((if ltb size' (off + n) then size' - off else n) ≡ n)
long_enough size size' off n h e = ground arith

-- A write that starts in the file or at its end, and ends within the longest file, returns `n`, while the disk has
-- two free blocks for each block that it touches. A read of the same range from the new file and the new
-- disk then gives the bytes that have been written, and changes nothing.
pub readi-writei :
    {sb : SuperBlock} {disk : Disk} {ip : Inode} (off : ℕ) (src : ℕ → ℕ) (n : ℕ)
    → IsFile sb disk ip
    → IsFilled disk ip
    → ((i : ℕ) → src i < 256)
    → off ≤ ip.size
    → off + n ≤ maxfile * bsize
    → 2 * touched off n ≤ free_count sb disk
    → (ip' : Inode) × (disk' : Disk) × (writei sb disk ip off src n ≡ some (some n, ip', disk'))
      × (readi sb disk' ip' off n ≡ some (some (slice src 0 n), ip', disk'))
readi-writei {sb} {disk} {ip} off src n v f b inside fits c =
    let (ip', disk', e, v', f', size, new, old) =
      (writei_lem off src n v f b (omega (arith, f.fits)) (omega arith) c).1 inside fits in
    let whole = long_enough ip.size ip'.size off n inside size in
    (
      ip',
      disk',
      e,
      (readi_lem sb off n f' (omega arith)).1 whole.0 (omega arith)
          ∙ ap (λ (k : ℕ). some (some (slice (content disk' ip') off k), ip', disk')) whole.1
          ∙ ap (λ (x : List ℕ). some (some x, ip', disk'))
              (slice-eq (content disk' ip') src off 0 n (λ i l. new i l ∙ ap src (omega arith))),
    )
