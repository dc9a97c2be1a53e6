-- ===== src/Inodes/Rounds.antt =====
-- A round of the loop of writei (fs.c), and rounds one behind the other.
use os_ca.Prelude.{
  ℕ, ◌+◌, ◌-◌, ◌*◌, ◌/◌, ◌%◌, ◌<◌, ◌≤◌, ◌≡◌, ◌≢◌, ◌⊎◌, refl, ap, sym, subst, ◌∙◌, false, ◌&&◌, ltb,
  leb, ◌==◌, arith, Bool-cases, inl, inr, update,
}
use os_ca.Blocks.{Disk, SuperBlock, bsize, Block}
use os_ca.Inodes.{Inode, maxfile, fill}
use os_ca.Inodes.Slots.{slot, IsFile}
use os_ca.Inodes.Count.{free_count}
use os_ca.Inodes.Effect.{Effect}
use os_ca.Inodes.Filling.{
  poked, poked-IsFile, poked-slot, poked-content, poked-here, poked-free_count, fill-bytes,
  fill-inside, fill-outside,
}
use os_ca.Inodes.Reading.{content, content-chunk}

-- The `n` bytes of `src` are the file's from `off` on; each other byte that the file had is as it was.
pub record Written (sb : SuperBlock) (disk : Disk) (ip : Inode) (off : ℕ) (src : ℕ → ℕ) (n : ℕ)
    (disk' : Disk) (ip' : Inode) : Type 0 where
  pub file : IsFile sb disk' ip'
  pub size : ip'.size ≡ ip.size
  pub new : (i : ℕ) → i < n → content disk' ip' (off + i) ≡ src i
  pub has : (i : ℕ) → i < n → slot disk' ip' ((off + i) / bsize) ≢ 0
  pub old :
      (a : ℕ)
      → a / bsize < maxfile
      → slot disk ip (a / bsize) ≢ 0
      → (a < off) ⊎ (off + n ≤ a)
      → content disk' ip' a ≡ content disk ip a
  pub kept : (j : ℕ) → j < maxfile → slot disk ip j ≢ 0 → slot disk' ip' j ≢ 0

pub Written-zero :
    {sb : SuperBlock} {disk : Disk} {ip : Inode} (off : ℕ) (src : ℕ → ℕ) (n : ℕ)
    → n ≡ 0
    → IsFile sb disk ip
    → Written sb disk ip off src n disk ip
Written-zero off src n z v = record {
  file = v;
  size = refl;
  new = λ i l. absurd (omega (arith, z));
  has = λ i l. absurd (omega (arith, z));
  old = λ a l ne o. refl;
  kept = λ j l ne. ne;
}

-- Two writes, one behind the other, are one.
pub Written-trans :
    {sb : SuperBlock} {d0 d1 d2 : Disk} {i0 i1 i2 : Inode} (off : ℕ) (src : ℕ → ℕ) (n m : ℕ)
    → m ≤ n
    → off + n ≤ maxfile * bsize
    → Written sb d0 i0 off src m d1 i1
    → Written sb d1 i1 (off + m) (λ i. src (m + i)) (n - m) d2 i2
    → Written sb d0 i0 off src n d2 i2
Written-trans {d2} {i2} off src n m l h s t = record {
  file = t.file;
  size = t.size ∙ s.size;
  new = λ i k. elim (Bool-cases (ltb i m)) [
    | inl a ↦
        t.old (off + i) (omega arith) (s.has i (ground (arith, a))) (inl (ground (arith, a)))
        ∙ s.new i (ground (arith, a))
    | inr a ↦
        let p : off + m + (i - m) ≡ off + i = ground (arith, a) in
        let q : m + (i - m) ≡ i = ground (arith, a) in
        ap (content d2 i2) (sym p) ∙ t.new (i - m) (ground (arith, a)) ∙ ap src q
  ];
  has = λ i k. elim (Bool-cases (ltb i m)) [
    | inl a ↦ t.kept ((off + i) / bsize) (omega arith) (s.has i (ground (arith, a)))
    | inr a ↦
        let p : off + m + (i - m) ≡ off + i = ground (arith, a) in
        subst (λ a. slot d2 i2 (a / bsize) ≢ 0) p (t.has (i - m) (ground (arith, a)))
  ];
  old = λ a k ne o. t.old a k (s.kept (a / bsize) k ne) (later o) ∙ s.old a k ne (first o);
  kept = λ j k ne. t.kept j k (s.kept j k ne);
}
  where
    later : {a : ℕ} → (a < off) ⊎ (off + n ≤ a) → (a < off + m) ⊎ (off + m + (n - m) ≤ a)
    later (inl x) = inl (omega arith)
    later (inr x) = inr (omega arith)

    first : {a : ℕ} → (a < off) ⊎ (off + n ≤ a) → (a < off) ⊎ (off + m ≤ a)
    first (inl x) = inl x
    first (inr x) = inr (omega arith)

-- A round of the loop: bmap, and the copy into the block.
module _ {sb : SuperBlock} {disk d1 : Disk} {ip ip1 : Inode} (off : ℕ) {addr : ℕ}
    (e : Effect sb disk ip (off / bsize) addr d1 ip1) (l : off / bsize < maxfile) (src : ℕ → ℕ)
    (bytes : (i : ℕ) → src i < 256) (m : ℕ) (h : off % bsize + m ≤ bsize) where
  abbrev bn : ℕ
  bn = off / bsize

  has_block : slot d1 ip1 bn ≢ 0
  has_block z = e.present (sym e.here ∙ z)

  abbrev copied : Block
  copied = fill (d1 (slot d1 ip1 bn)) (off % bsize) src m

  copied-bytes : (i : ℕ) → copied i < 256
  copied-bytes i =
      fill-bytes (d1 (slot d1 ip1 bn)) (off % bsize) src m (e.file.map.bytes (slot d1 ip1 bn)) bytes
        i

  abbrev d2 : Disk
  d2 = poked e.file bn l has_block copied copied-bytes

  same_slot : (j : ℕ) → j < maxfile → slot d2 ip1 j ≡ slot d1 ip1 j
  same_slot j k = poked-slot e.file bn l has_block copied copied-bytes j (omega arith)

  round-new : (i : ℕ) → i < m → content d2 ip1 (off + i) ≡ src i
  round-new i k =
      content-chunk d2 ip1 off i (omega arith)
      ∙ ap (λ (b : Block). b (off % bsize + i))
          (poked-here e.file bn l has_block copied copied-bytes)
      ∙ fill-inside (d1 (slot d1 ip1 bn)) (off % bsize) src m i k

  -- The block itself, but for the chunk.
  round-here :
      (a : ℕ)
      → a / bsize ≡ bn
      → slot disk ip bn ≢ 0
      → (a < off) ⊎ (off + m ≤ a)
      → content d2 ip1 a ≡ content disk ip a
  round-here a same ne o =
      ap (λ (j : ℕ). d2 (slot d2 ip1 j) (a % bsize)) same
      ∙ ap (λ (b : Block). b (a % bsize)) (poked-here e.file bn l has_block copied copied-bytes)
      ∙ fill-outside (d1 (slot d1 ip1 bn)) (off % bsize) src m (a % bsize) (outside o)
      ∙ ap (λ (x : ℕ). d1 x (a % bsize)) (e.here ∙ e.old ne)
      ∙ ap (λ (b : Block). b (a % bsize)) (e.content bn l ne)
      ∙ ap (λ (j : ℕ). disk (slot disk ip j) (a % bsize)) (sym same)
    where
      outside :
          (a < off) ⊎ (off + m ≤ a)
          → (leb (off % bsize) (a % bsize) && ltb (a % bsize) (off % bsize + m)) ≡ false
      outside (inl x) = let y : a % bsize < off % bsize = omega (arith, same) in ground arith
      outside (inr x) = let y : off % bsize + m ≤ a % bsize = omega (arith, same) in ground arith

  round-old :
      (a : ℕ)
      → a / bsize < maxfile
      → slot disk ip (a / bsize) ≢ 0
      → (a < off) ⊎ (off + m ≤ a)
      → content d2 ip1 a ≡ content disk ip a
  round-old a k ne o = elim (Bool-cases (a / bsize == bn)) [
    | inl t ↦
        let same : a / bsize ≡ bn = ground (arith, t) in
        round-here a same (subst (λ j. slot disk ip j ≢ 0) same ne) o
    | inr t ↦
        let other : a / bsize ≢ bn = ground (arith, t) in
        let stays = e.slots (a / bsize) k other in
        ap (λ (b : Block). b (a % bsize))
          (poked-content e.file bn l has_block copied copied-bytes (a / bsize) k other
              (λ z. ne (sym stays ∙ z))
            ∙ ap d1 stays
            ∙ e.content (a / bsize) k ne)
  ]

  round-kept : (j : ℕ) → j < maxfile → slot disk ip j ≢ 0 → slot d2 ip1 j ≢ 0
  round-kept j k ne z = elim (Bool-cases (j == bn)) [
    | inl t ↦
        let same : j ≡ bn = ground (arith, t) in
        has_block (subst (λ i. slot d1 ip1 i ≡ 0) same (sym (same_slot j k) ∙ z))
    | inr t ↦ ne (sym (e.slots j k (ground (arith, t))) ∙ sym (same_slot j k) ∙ z)
  ]

  pub round-Written :
      Written sb disk ip off src m (update d1 addr (fill (d1 addr) (off % bsize) src m)) ip1
  round-Written =
      subst (λ a. Written sb disk ip off src m (update d1 a (fill (d1 a) (off % bsize) src m)) ip1)
        e.here
        (record {
          file = poked-IsFile e.file bn l has_block copied copied-bytes;
          size = e.size;
          new = round-new;
          has = λ i k z.
              let same : (off + i) / bsize ≡ bn = omega arith in
              has_block (sym (same_slot bn l) ∙ subst (λ j. slot d2 ip1 j ≡ 0) same z);
          old = round-old;
          kept = round-kept;
        })

  pub round-cost :
      free_count sb disk ≤ free_count sb (update d1 addr (fill (d1 addr) (off % bsize) src m)) + 2
  round-cost =
      subst
        (λ a.
          free_count sb disk ≤ free_count sb (update d1 a (fill (d1 a) (off % bsize) src m)) + 2)
        e.here (omega (arith, e.cost, poked-free_count e.file bn l has_block copied copied-bytes))
