-- ===== src/Inodes/Writing.antt =====
-- writei (fs.c) changes the content of the file where it writes, and nowhere else.
use os_ca.Prelude.{
  ℕ, zero, suc, ◌+◌, ◌-◌, ◌*◌, ◌/◌, ◌%◌, ◌^◌, ◌<◌, ◌≤◌, ◌≡◌, ◌≢◌, ◌⊎◌, refl, ap, sym, subst, ◌∙◌,
  true, false, ◌&&◌, ◌||◌, none, some, if◌then◌else◌, ltb, ◌==◌, arith, Bool-cases, inl, inr,
  update, add32,
}
use os_ca.Blocks.{Disk, SuperBlock, bsize}
use os_ca.Inodes.{Inode, maxfile, bmap, chunk, fill, write_blocks, writei}
use os_ca.Inodes.Slots.{slot, IsFile, sized, slot-sized, sized-IsFile}
use os_ca.Inodes.Count.{free_count}
use os_ca.Inodes.Effect.{bmap_lem}
use os_ca.Inodes.Reading.{content, content-sized, IsFilled, chunk_bounds}
use os_ca.Inodes.Rounds.{Written, Written-zero, Written-trans, round-Written, round-cost}

-- The blocks that `n` bytes from `off` on touch.
abbrev pub touched : ℕ → ℕ → ℕ
touched off n = if n == 0 then 0 else (off % bsize + n + (bsize - 1)) / bsize

touched-round :
    (off n : ℕ) → 0 < n → touched (off + chunk off n) (n - chunk off n) + 1 ≤ touched off n
touched-round off n h = elim (Bool-cases (ltb n (bsize - off % bsize))) [
  | inl t ↦ let none_left : (n - n == 0) ≡ true = ground arith in rw (t, none_left) (ground arith)
  | inr t ↦
      let next : (off + (bsize - off % bsize)) % bsize ≡ 0 = omega arith in
      rw (t, next) (ground arith)
]

touched-pos : (off n : ℕ) → 0 < n → 1 ≤ touched off n
touched-pos off n h = ground arith

write_blocks-round :
    (fuel : ℕ) (sb : SuperBlock) (disk : Disk) (ip : Inode) (off : ℕ) (src : ℕ → ℕ) (n addr : ℕ)
    (ip1 : Inode) (d1 : Disk)
    → 0 < n
    → bmap sb disk ip (off / bsize) ≡ some (addr, ip1, d1)
    → write_blocks (suc fuel) sb disk ip off src n
      ≡ write_blocks fuel sb
          (update d1 addr (fill (d1 addr) (off % bsize) src (chunk off n)))
          ip1
          (off + chunk off n)
          (λ i. src (chunk off n + i))
          (n - chunk off n)
unfolding write_blocks
write_blocks-round fuel sb disk ip off src n addr ip1 d1 pos e =
    let more : (n == 0) ≡ false = ground arith in rw (more, write_blocks) (rw e refl)

write_blocks_lem :
    (fuel : ℕ) {sb : SuperBlock} {disk : Disk} {ip : Inode} (off : ℕ) (src : ℕ → ℕ) (n : ℕ)
    → IsFile sb disk ip
    → ((i : ℕ) → src i < 256)
    → n ≤ fuel
    → off + n ≤ maxfile * bsize
    → 2 * touched off n ≤ free_count sb disk
    → (ip' : Inode) × (disk' : Disk) × (write_blocks fuel sb disk ip off src n ≡ some (ip', disk'))
      × Written sb disk ip off src n disk' ip'
unfolding write_blocks
write_blocks_lem zero {disk} {ip} off src n v b l h c =
    let none_left : n ≡ 0 = omega arith in
    (ip, disk, rw none_left refl, Written-zero off src n none_left v)
write_blocks_lem (suc fuel) {sb} {disk} {ip} off src n v b l h c = elim (Bool-cases (n == 0)) [
  | inl last ↦
      let none_left : n ≡ 0 = ground (arith, last) in
      (ip, disk, rw none_left refl, Written-zero off src n none_left v)
  | inr more ↦
      let pos : 0 < n = ground (arith, more) in
      let m = chunk off n in
      let bounds = chunk_bounds off n pos in
      let place : off / bsize < maxfile = omega arith in
      let (addr, ip1, d1, e, f) =
        bmap_lem (off / bsize) v place (omega (arith, c, touched-pos off n pos)) in
      let w = round-Written off f place src b m bounds.2 in
      let (ip', disk', e', w') =
        write_blocks_lem fuel (off + m) (λ i. src (m + i)) (n - m) w.file (λ i. b (m + i))
          (omega (arith, bounds.0)) (omega (arith, bounds.1))
          (omega (arith, round-cost off f place src b m bounds.2, c, touched-round off n pos)) in
      (
        ip',
        disk',
        write_blocks-round fuel sb disk ip off src n addr ip1 d1 pos e ∙ e',
        Written-trans off src n m bounds.1 h w w',
      )
]

-- The file after a write: it is as long as before, or to the end of what is written.
abbrev pub end_of : ℕ → ℕ → ℕ → ℕ
end_of size off n = if ltb 0 n && ltb size (off + n) then off + n else size

held :
    {sb : SuperBlock} {disk disk' : Disk} {ip ip' : Inode} {off n : ℕ} {src : ℕ → ℕ}
    → IsFilled disk ip
    → off ≤ ip.size
    → Written sb disk ip off src n disk' ip'
    → (a : ℕ) → a < end_of ip.size off n
    → slot disk' ip' (a / bsize) ≢ 0
held {disk'} {ip} {ip'} {off} {n} f h t a l = elim (Bool-cases (ltb a ip.size)) [
  | inl old ↦ t.kept (a / bsize) (ground (arith, old, f.fits)) (f.present a (ground (arith, old)))
  | inr new ↦
      let place : off + (a - off) ≡ a = ground (arith, new, h) in
      subst (λ x. slot disk' ip' (x / bsize) ≢ 0) place
        (t.has (a - off) (ground (arith, new, l, h)))
]

-- writei of `n` bytes that start in the file, or at its end, and end within the longest file puts them into the
-- file's content from `off` on: no other byte of it changes, the file grows if they reach past its
-- end, and its blocks are its own again. It returns `n`, if the disk has two free blocks for each block
-- that is written to. Otherwise, where the range is refused, it returns -1 and changes nothing.
pub writei_lem :
    {sb : SuperBlock} {disk : Disk} {ip : Inode} (off : ℕ) (src : ℕ → ℕ) (n : ℕ)
    → IsFile sb disk ip
    → IsFilled disk ip
    → ((i : ℕ) → src i < 256)
    → off < 2 ^ 32
    → n < 2 ^ 32
    → 2 * touched off n ≤ free_count sb disk
    → ((ip.size < off) ⊎ (maxfile * bsize < off + n)
        → writei sb disk ip off src n ≡ some (none, ip, disk))
      × (off ≤ ip.size
          → off + n ≤ maxfile * bsize
          → (ip' : Inode) × (disk' : Disk) × (writei sb disk ip off src n
              ≡ some (some n, ip', disk'))
            × IsFile sb disk' ip'
            × IsFilled disk' ip'
            × (ip'.size ≡ end_of ip.size off n)
            × ((i : ℕ) → i < n → content disk' ip' (off + i) ≡ src i)
            × ((a : ℕ)
                → a < ip.size
                → (a < off) ⊎ (off + n ≤ a)
                → content disk' ip' a ≡ content disk ip a))
unfolding writei
writei_lem {sb} {disk} {ip} off src n v f b w w' c = (
  λ bad.
      let refused : ((ltb ip.size off || ltb (add32 off n) off)
            || ltb (maxfile * bsize) (add32 off n))
          ≡ true =
        refused_range bad in
      rw refused refl,
  λ inside fits.
      let fine : ((ltb ip.size off || ltb (add32 off n) off) || ltb (maxfile * bsize) (add32 off n))
          ≡ false =
        ground arith in
      let (ip', disk', e, t) = write_blocks_lem n off src n v b (omega arith) fits c in
      let size = end_of ip.size off n in
      (
        sized ip' size,
        disk',
        rw (fine, e) (ap (λ (x : Inode). some (some n, x, disk')) (grown_eq t.size)),
        sized-IsFile size t.file,
        record {
          fits = ground (arith, f.fits);
          present = λ a l z. held f inside t a l (sym (slot-sized disk' ip' size (a / bsize)) ∙ z);
        },
        refl,
        λ i l. content-sized disk' ip' size (off + i) ∙ t.new i l,
        λ a l o.
            content-sized disk' ip' size a ∙ (t.old a (omega (arith, f.fits)) (f.present a l) o),
      ),
)
  where
    refused_range :
        (ip.size < off) ⊎ (maxfile * bsize < off + n)
        → ((ltb ip.size off || ltb (add32 off n) off) || ltb (maxfile * bsize) (add32 off n)) ≡ true
    refused_range (inl x) = ground arith
    refused_range (inr x) = ground arith

    grown_eq :
        {ip' : Inode}
        → ip'.size ≡ ip.size
        → (if ltb 0 n && ltb ip'.size (off + n) then sized ip' (off + n) else ip')
          ≡ sized ip' (end_of ip.size off n)
    grown_eq {ip'} same = elim (Bool-cases (ltb 0 n && ltb ip.size (off + n))) [
      | inl t ↦
          let grows : (ltb 0 n && ltb ip'.size (off + n)) ≡ true =
            ap (λ (x : ℕ). ltb 0 n && ltb x (off + n)) same ∙ t in
          rw (grows, t) refl
      | inr t ↦
          let stays : (ltb 0 n && ltb ip'.size (off + n)) ≡ false =
            ap (λ (x : ℕ). ltb 0 n && ltb x (off + n)) same ∙ t in
          rw (stays, t) (ap (sized ip') same)
    ]
