-- ===== src/Inodes/Slots.antt =====
-- The blocks of a file (fs.c): the 12 direct ones, the 128 of the indirect block, and this one itself.
use os_ca.Prelude.{
  ℕ, ◌-◌, ◌*◌, ◌^◌, ◌<◌, ◌≤◌, ◌≡◌, ◌≢◌, refl, ap, sym, subst, ◌∙◌, true, false, ◌&&◌, not,
  if◌then◌else◌, ltb, ◌==◌, arith, Bool-cases, inl, inr, ==-self, ==-of_ne,
}
use os_ca.Memory.{int_at}
use os_ca.Blocks.{Block, Disk, SuperBlock, bsize, bblock}
use os_ca.Blocks.Free.{free_block, IsMap}
use os_ca.Inodes.{Inode, ndirect, maxfile}

-- The address in a slot of the file, 0 if there is none: slot `maxfile` is that of the indirect block.
unfoldable pub slot : Disk → Inode → ℕ → ℕ
slot disk ip i =
    if i == maxfile
    then ip.addrs ndirect
    else if ltb i ndirect
    then ip.addrs i
    else if ip.addrs ndirect == 0
    then 0
    else int_at (disk (ip.addrs ndirect)) (4 * (i - ndirect))

module _ (disk : Disk) (ip : Inode) where
  pub slot-direct : (i : ℕ) → i < ndirect → slot disk ip i ≡ ip.addrs i
  unfolding slot
  slot-direct i h = ground arith

  pub slot-root : slot disk ip maxfile ≡ ip.addrs ndirect
  unfolding slot
  slot-root = refl

  pub slot-indirect :
      (i : ℕ)
      → ndirect ≤ i
      → i < maxfile
      → ip.addrs ndirect ≢ 0
      → slot disk ip i ≡ int_at (disk (ip.addrs ndirect)) (4 * (i - ndirect))
  unfolding slot
  slot-indirect i l h ne =
      let a : (i == maxfile) ≡ false = ground arith in
      let b : ltb i ndirect ≡ false = ground arith in rw (a, b, ==-of_ne ne) refl

  pub slot-none : (i : ℕ) → ndirect ≤ i → i < maxfile → ip.addrs ndirect ≡ 0 → slot disk ip i ≡ 0
  unfolding slot
  slot-none i l h e = ground arith

pub data Place (j : ℕ) : Type 0 where
  in_inode : j < ndirect → Place j
  in_block : ndirect ≤ j → j < maxfile → Place j
  at_root : j ≡ maxfile → Place j

pub place : (j : ℕ) → j ≤ maxfile → Place j
place j l = elim (Bool-cases (ltb j ndirect)) [
  | inl a ↦ in_inode (ground arith)
  | inr a ↦ elim (Bool-cases (j == maxfile)) [
    | inl b ↦ at_root (ground arith)
    | inr b ↦ in_block (ground arith) (ground arith)
  ]
]

-- The slots of an indirect block that stays where and what it is.
pub slot-same :
    (disk disk' : Disk) (ip ip' : Inode) (j : ℕ)
    → ndirect ≤ j
    → j < maxfile
    → ip'.addrs ndirect ≡ ip.addrs ndirect
    → (ip.addrs ndirect ≢ 0 → disk' (ip.addrs ndirect) ≡ disk (ip.addrs ndirect))
    → slot disk' ip' j ≡ slot disk ip j
slot-same disk disk' ip ip' j l m e same = elim (Bool-cases (ip.addrs ndirect == 0)) [
  | inl z ↦
      let no_block : ip.addrs ndirect ≡ 0 = ground (arith, z) in
      slot-none disk' ip' j l m (e ∙ no_block) ∙ sym (slot-none disk ip j l m no_block)
  | inr z ↦
      let block : ip.addrs ndirect ≢ 0 = ground (arith, z) in
      slot-indirect disk' ip' j l m (λ n. block (sym e ∙ n))
      ∙ ap (λ (a : ℕ). int_at (disk' a) (4 * (j - ndirect))) e
      ∙ ap (λ (b : Block). int_at b (4 * (j - ndirect))) (same block)
      ∙ sym (slot-indirect disk ip j l m block)
]

-- A block that is in use and holds no part of the free map.
pub record IsOwned (sb : SuperBlock) (disk : Disk) (a : ℕ) : Type 0 where
  pub below : a < sb.size
  pub used : free_block sb disk a ≡ false
  pub unmapped : (x : ℕ) → x < sb.size → a ≢ bblock sb x

-- The file's blocks are its own: they are in use, and different. Block 0 is never given out.
pub record IsFile (sb : SuperBlock) (disk : Disk) (ip : Inode) : Type 0 where
  pub map : IsMap sb disk
  pub boot : free_block sb disk 0 ≡ false
  pub small : sb.size ≤ 2 ^ 32
  pub owned : (i : ℕ) → i ≤ maxfile → slot disk ip i ≢ 0 → IsOwned sb disk (slot disk ip i)
  pub distinct :
      (i j : ℕ)
      → i ≤ maxfile
      → j ≤ maxfile
      → slot disk ip i ≢ 0
      → slot disk ip i ≡ slot disk ip j
      → i ≡ j

-- The length of the file is no concern of its blocks.
abbrev pub sized : Inode → ℕ → Inode
sized ip n = record ip { size = n }

pub slot-sized : (disk : Disk) (ip : Inode) (n j : ℕ) → slot disk (sized ip n) j ≡ slot disk ip j
unfolding slot
slot-sized disk ip n j = refl

pub sized-IsFile :
    {sb : SuperBlock} {disk : Disk} {ip : Inode} (n : ℕ)
    → IsFile sb disk ip
    → IsFile sb disk (sized ip n)
unfolding slot
sized-IsFile n v = record {
  map = v.map;
  boot = v.boot;
  small = v.small;
  owned = v.owned;
  distinct = v.distinct;
}

-- What balloc has done when it returns `x`.
pub record Fresh (sb : SuperBlock) (disk disk' : Disk) (x : ℕ) : Type 0 where
  pub below : x < sb.size
  pub free : free_block sb disk x ≡ true
  pub frees : (y : ℕ) → y < sb.size → free_block sb disk' y ≡ (not (x == y) && free_block sb disk y)
  pub zeroed : (i : ℕ) → i < bsize → disk' x i ≡ 0
  pub frame : (b : ℕ) → b ≢ x → ((y : ℕ) → y < sb.size → b ≢ bblock sb y) → disk' b ≡ disk b
  pub map : IsMap sb disk'

-- Slot `k` of the file, which was empty, holds `x`; no other slot and no block of the content has changed.
pub record Grown (sb : SuperBlock) (disk : Disk) (ip : Inode) (k x : ℕ) (disk' : Disk) (ip' : Inode)
    : Type 0 where
  pub bound : k ≤ maxfile
  pub empty : slot disk ip k ≡ 0
  pub slots : (j : ℕ) → j ≤ maxfile → slot disk' ip' j ≡ (if k == j then x else slot disk ip j)
  pub frees : (y : ℕ) → y < sb.size → free_block sb disk' y ≡ (not (x == y) && free_block sb disk y)
  pub map : IsMap sb disk'
  pub content :
      (j : ℕ) → j < maxfile → slot disk ip j ≢ 0 → disk' (slot disk ip j) ≡ disk (slot disk ip j)
  pub zeroed : k < maxfile → (i : ℕ) → i < bsize → disk' x i ≡ 0
  pub size : ip'.size ≡ ip.size

module _ {sb : SuperBlock} {disk : Disk} {ip : Inode} (v : IsFile sb disk ip) {x : ℕ}
    (below : x < sb.size) (free : free_block sb disk x ≡ true) where
  pub fresh-pos : x ≢ 0
  fresh-pos e = absurd (ground (arith, subst (λ b. free_block sb disk b ≡ true) e free, v.boot))

  pub fresh-unmapped : (y : ℕ) → y < sb.size → x ≢ bblock sb y
  fresh-unmapped y l e = absurd (ground (arith, v.map.reserved y x l below e, free))

  owned-ne : (a : ℕ) → IsOwned sb disk a → x ≢ a
  owned-ne a o e = absurd (ground (arith, subst (λ b. free_block sb disk b ≡ true) e free, o.used))

  pub slot-ne : (j : ℕ) → j ≤ maxfile → slot disk ip j ≢ 0 → x ≢ slot disk ip j
  slot-ne j l ne = owned-ne (slot disk ip j) (v.owned j l ne)

module _ {sb : SuperBlock} {disk disk' : Disk} {ip ip' : Inode} {k x : ℕ} (v : IsFile sb disk ip)
    (below : x < sb.size) (free : free_block sb disk x ≡ true)
    (g : Grown sb disk ip k x disk' ip') where
  pub grown-here : slot disk' ip' k ≡ x
  grown-here = g.slots k g.bound ∙ rw (==-self k) refl

  pub grown-other : (j : ℕ) → j ≤ maxfile → j ≢ k → slot disk' ip' j ≡ slot disk ip j
  grown-other j l ne = g.slots j l ∙ rw (==-of_ne {a = k} {b = j} (λ e. ne (sym e))) refl

  grown-used : (a : ℕ) → a < sb.size → free_block sb disk a ≡ false → free_block sb disk' a ≡ false
  grown-used a l u = g.frees a l ∙ rw u (ground arith)

  grown-IsOwned : (j : ℕ) → j ≤ maxfile → slot disk' ip' j ≢ 0 → IsOwned sb disk' (slot disk' ip' j)
  grown-IsOwned j l ne = elim (Bool-cases (k == j)) [
    | inl here ↦
        let same : slot disk' ip' j ≡ x = g.slots j l ∙ rw here refl in
        rw same (record {
          below = below;
          used = g.frees x below ∙ rw (==-self x) refl;
          unmapped = fresh-unmapped v below free;
        })
    | inr there ↦
        let same : slot disk' ip' j ≡ slot disk ip j = g.slots j l ∙ rw there refl in
        let o = v.owned j l (λ e. ne (same ∙ e)) in
        rw same (record {
          below = o.below;
          used = grown-used (slot disk ip j) o.below o.used;
          unmapped = o.unmapped;
        })
  ]

  grown-distinct :
      (i j : ℕ)
      → i ≤ maxfile
      → j ≤ maxfile
      → slot disk' ip' i ≢ 0
      → slot disk' ip' i ≡ slot disk' ip' j
      → i ≡ j
  grown-distinct i j l m ne e = elim (Bool-cases (k == i)) [
    | inl a ↦ elim (Bool-cases (k == j)) [
      | inl b ↦ ground (arith, a, b)
      | inr b ↦
          let si : slot disk' ip' i ≡ x = g.slots i l ∙ rw a refl in
          let sj : slot disk' ip' j ≡ slot disk ip j = g.slots j m ∙ rw b refl in
          absurd (slot-ne v below free j m (λ z. ne (e ∙ sj ∙ z)) (sym si ∙ e ∙ sj))
    ]
    | inr a ↦
        let si : slot disk' ip' i ≡ slot disk ip i = g.slots i l ∙ rw a refl in
        elim (Bool-cases (k == j)) [
          | inl b ↦
              let sj : slot disk' ip' j ≡ x = g.slots j m ∙ rw b refl in
              absurd (slot-ne v below free i l (λ z. ne (si ∙ z)) (sym sj ∙ sym e ∙ si))
          | inr b ↦
              let sj : slot disk' ip' j ≡ slot disk ip j = g.slots j m ∙ rw b refl in
              v.distinct i j l m (λ z. ne (si ∙ z)) (sym si ∙ e ∙ sj)
        ]
  ]

  pub grown-IsFile : IsFile sb disk' ip'
  grown-IsFile = record {
    map = g.map;
    boot = grown-used 0 (omega arith) v.boot;
    small = v.small;
    owned = grown-IsOwned;
    distinct = grown-distinct;
  }
