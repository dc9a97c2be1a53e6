-- ===== src/Inodes/Mapping.antt =====
-- The slots of a file after balloc has given bmap (fs.c) a block.
use os_ca.Prelude.{
  ℕ, ◌+◌, ◌-◌, ◌*◌, ◌<◌, ◌≤◌, ◌≡◌, ◌≢◌, refl, ap, sym, subst, ◌∙◌, false, Option, none, some,
  if◌then◌else◌, ◌==◌, update, update_self, update_of_ne, arith, Bool-cases, inl, inr, either,
}
use os_ca.Memory.{int_at, put_int}
use os_ca.Blocks.{Block, Disk, SuperBlock, bblock, balloc}
use os_ca.Blocks.Free.{free_block, IsMap, Allocated, taken, none_free, balloc_lem}
use os_ca.Inodes.{Inode, ndirect, nindirect, maxfile}
use os_ca.Memory.Words.{int_at-put_int, int_at-put_int_other, int_at-zero, put_int-bytes}
use os_ca.Inodes.Slots.{
  slot, slot-direct, slot-root, slot-indirect, slot-none, IsOwned, IsFile, Fresh, Grown, in_inode,
  in_block, at_root, place, slot-same, slot-ne, fresh-pos,
}
use os_ca.Inodes.Count.{free_count, free_count-none}

-- balloc, while a block is free.
pub balloc-Fresh :
    (sb : SuperBlock) (disk : Disk)
    → IsMap sb disk
    → 0 < free_count sb disk
    → (x : ℕ) × (disk' : Disk) × (balloc sb disk ≡ some (x, disk')) × Fresh sb disk disk' x
balloc-Fresh sb disk v h = go (balloc sb disk) refl (balloc_lem sb disk v)
  where
    go :
        (o : Option (ℕ × Disk))
        → balloc sb disk ≡ o
        → Allocated sb disk 0 o
        → (x : ℕ) × (disk' : Disk) × (balloc sb disk ≡ some (x, disk')) × Fresh sb disk disk' x
    go (some _) e (taken {x} {disk'} l below free before frees zeroed frame m) = (
      x,
      disk',
      e,
      record { below = below; free = free; frees = frees; zeroed = zeroed; frame = frame; map = m },
    )
    go none e (none_free u) =
        absurd (omega (arith, free_count-none sb disk (λ y l. u y (omega arith) l)))

module _ {sb : SuperBlock} {disk disk' : Disk} {ip : Inode} {x : ℕ} (v : IsFile sb disk ip)
    (f : Fresh sb disk disk' x) where
  -- balloc writes to none of the file's blocks.
  old_block :
      (j : ℕ) → j ≤ maxfile → slot disk ip j ≢ 0 → disk' (slot disk ip j) ≡ disk (slot disk ip j)
  old_block j l ne =
      let o = v.owned j l ne in
      f.frame (slot disk ip j) (λ e. slot-ne v f.below f.free j l ne (sym e)) o.unmapped

  root_block : ip.addrs ndirect ≢ 0 → disk' (ip.addrs ndirect) ≡ disk (ip.addrs ndirect)
  root_block ne =
      subst (λ a. disk' a ≡ disk a) (slot-root disk ip)
        (old_block maxfile (omega arith) (λ e. ne (sym (slot-root disk ip) ∙ e)))

  direct_slots :
      (i : ℕ)
      → i < ndirect
      → (j : ℕ) → j ≤ maxfile
      → slot disk' (record ip { addrs = update ip.addrs i x }) j
        ≡ (if i == j then x else slot disk ip j)
  direct_slots i l j m = elim (place j m) [
    | in_inode a ↦ slot-direct disk' _ j a ∙ rw (slot-direct disk ip j a) refl
    | in_block a b ↦
        let other : (i == j) ≡ false = ground arith in
        rw other (
          slot-same disk disk' ip (record ip { addrs = update ip.addrs i x }) j a b (ground arith)
            root_block)
    | at_root a ↦
        let other : (i == j) ≡ false = ground (arith, a) in
        rw other (
          rw a (
            slot-root disk' (record ip { addrs = update ip.addrs i x })
            ∙ ground (arith, slot-root disk ip)))
  ]

  -- A direct slot is filled.
  pub direct-Grown :
      (i : ℕ)
      → i < ndirect
      → ip.addrs i ≡ 0
      → Grown sb disk ip i x disk' (record ip { addrs = update ip.addrs i x })
  direct-Grown i l e = record {
    bound = omega arith;
    empty = slot-direct disk ip i l ∙ e;
    slots = direct_slots i l;
    frees = f.frees;
    map = f.map;
    content = λ j m ne. old_block j (omega arith) ne;
    zeroed = λ _. f.zeroed;
    size = refl;
  }

  root_slots :
      ip.addrs ndirect ≡ 0
      → (j : ℕ) → j ≤ maxfile
      → slot disk' (record ip { addrs = update ip.addrs ndirect x }) j
        ≡ (if maxfile == j then x else slot disk ip j)
  root_slots e j m = elim (place j m) [
    | in_inode a ↦
        let other : (maxfile == j) ≡ false = ground arith in
        rw other (slot-direct disk' _ j a ∙ ground (arith, slot-direct disk ip j a))
    | in_block a b ↦
        let other : (maxfile == j) ≡ false = ground arith in
        rw other (
          slot-indirect disk' (record ip { addrs = update ip.addrs ndirect x }) j a b
            (fresh-pos v f.below f.free)
          ∙ int_at-zero (disk' x) (4 * (j - ndirect)) (λ i l. f.zeroed i (omega arith))
          ∙ sym (slot-none disk ip j a b e))
    | at_root a ↦ rw a (slot-root disk' (record ip { addrs = update ip.addrs ndirect x }))
  ]

  -- The indirect block is made.
  pub root-Grown :
      ip.addrs ndirect ≡ 0
      → Grown sb disk ip maxfile x disk' (record ip { addrs = update ip.addrs ndirect x })
  root-Grown e = record {
    bound = omega arith;
    empty = slot-root disk ip ∙ e;
    slots = root_slots e;
    frees = f.frees;
    map = f.map;
    content = λ j m ne. old_block j (omega arith) ne;
    zeroed = λ l. absurd (omega arith);
    size = refl;
  }

module _ {sb : SuperBlock} {disk disk' : Disk} {ip : Inode} {x : ℕ} (v : IsFile sb disk ip)
    (f : Fresh sb disk disk' x) (root : ip.addrs ndirect ≢ 0) (bn : ℕ) (small : bn < nindirect)
    (empty : int_at (disk (ip.addrs ndirect)) (4 * bn) ≡ 0) where
  abbrev pub at : ℕ
  at = ip.addrs ndirect

  abbrev pub written : Disk
  written = update disk' at (put_int (disk' at) (4 * bn) x)

  root_slot : slot disk ip maxfile ≢ 0
  root_slot e = root (sym (slot-root disk ip) ∙ e)

  root-IsOwned : IsOwned sb disk at
  root-IsOwned =
      subst (λ a. IsOwned sb disk a) (slot-root disk ip) (v.owned maxfile (omega arith) root_slot)

  inner_slot :
      (j : ℕ)
      → ndirect ≤ j
      → j < maxfile
      → slot written ip j ≡ (if ndirect + bn == j then x else slot disk ip j)
  inner_slot j a b = slot-indirect written ip j a b root ∙ elim (Bool-cases (ndirect + bn == j)) [
    | inl here ↦
        let same : j - ndirect ≡ bn = ground (arith, here) in
        rw (here, same)
          (ap (λ (y : Block). int_at y (4 * bn))
              (update_self disk' at (put_int (disk' at) (4 * bn) x))
            ∙ int_at-put_int (disk' at) (4 * bn) x (omega (arith, f.below, v.small)))
    | inr there ↦ rw there (
        ap (λ (y : Block). int_at y (4 * (j - ndirect)))
          (update_self disk' at (put_int (disk' at) (4 * bn) x))
        ∙ int_at-put_int_other (disk' at) bn (j - ndirect) x (ground arith)
        ∙ ap (λ (y : Block). int_at y (4 * (j - ndirect))) (root_block v f root)
        ∙ sym (slot-indirect disk ip j a b root))
  ]

  inner_slots :
      (j : ℕ) → j ≤ maxfile → slot written ip j ≡ (if ndirect + bn == j then x else slot disk ip j)
  inner_slots j m = elim (place j m) [
    | in_inode a ↦
        let other : (ndirect + bn == j) ≡ false = ground arith in
        rw other (slot-direct written ip j a ∙ sym (slot-direct disk ip j a))
    | in_block a b ↦ inner_slot j a b
    | at_root a ↦
        let other : (ndirect + bn == j) ≡ false = ground (arith, a) in
        rw other (rw a (slot-root written ip ∙ sym (slot-root disk ip)))
  ]

  written-other : (b : ℕ) → b ≢ at → written b ≡ disk' b
  written-other b ne = update_of_ne disk' (put_int (disk' at) (4 * bn) x) (λ e. ne (sym e))

  written-free : (y : ℕ) → y < sb.size → free_block sb written y ≡ free_block sb disk' y
  written-free y l = rw (written-other (bblock sb y) (λ e. root-IsOwned.unmapped y l (sym e))) refl

  written-IsMap : IsMap sb written
  written-IsMap = record {
    bytes = λ b.
        either (λ (y : Block). (i : ℕ) → y i < 256) (at == b)
          (λ _. put_int-bytes (disk' at) (4 * bn) x (f.map.bytes at)) (λ _. f.map.bytes b);
    reserved = λ y b l m e. written-free b m ∙ f.map.reserved y b l m e;
  }

  first : ndirect + bn - ndirect ≡ bn
  first = omega arith

  not_root : (j : ℕ) → j < maxfile → slot disk ip j ≢ 0 → slot disk ip j ≢ at
  not_root j m ne e =
      let last : j ≡ maxfile =
        v.distinct j maxfile (omega arith) (omega arith) ne (e ∙ sym (slot-root disk ip)) in
      absurd (omega (arith, last))

  new_block : x ≢ at
  new_block e =
      slot-ne v f.below f.free maxfile (omega arith) root_slot (e ∙ sym (slot-root disk ip))

  -- A slot of the indirect block is filled.
  pub indirect-Grown : Grown sb disk ip (ndirect + bn) x written ip
  indirect-Grown = record {
    bound = omega arith;
    empty = slot-indirect disk ip (ndirect + bn) (omega arith) (omega arith) root ∙ rw first empty;
    slots = inner_slots;
    frees = λ y l. written-free y l ∙ f.frees y l;
    map = written-IsMap;
    content = λ j m ne.
        written-other (slot disk ip j) (not_root j m ne) ∙ old_block v f j (omega arith) ne;
    zeroed = λ _ i l. ap (λ (y : Block). y i) (written-other x new_block) ∙ f.zeroed i l;
    size = refl;
  }
