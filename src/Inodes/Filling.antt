-- ===== src/Inodes/Filling.antt =====
-- A block of a file that is written (fs.c): only the content of this block changes.
use os_ca.Prelude.{
  ℕ, ◌+◌, ◌-◌, ◌<◌, ◌≤◌, ◌≡◌, ◌≢◌, refl, ap, sym, ◌∙◌, true, false, ltb, ◌==◌, update, update_self,
  update_of_ne, arith, either, leb, ◌&&◌,
}
use os_ca.Blocks.{Block, Disk, SuperBlock, bblock}
use os_ca.Blocks.Free.{free_block, IsMap}
use os_ca.Inodes.{Inode, ndirect, maxfile, fill}
use os_ca.Inodes.Slots.{
  slot, slot-direct, slot-root, slot-same, in_inode, in_block, at_root, place, IsFile,
}
use os_ca.Inodes.Count.{free_count, free_count-same}

module _ {sb : SuperBlock} {disk : Disk} {ip : Inode} (v : IsFile sb disk ip) (bn : ℕ)
    (l : bn < maxfile) (ne : slot disk ip bn ≢ 0) (block : Block)
    (bytes : (i : ℕ) → block i < 256) where
  abbrev pub poked : Disk
  poked = update disk (slot disk ip bn) block

  poked-other : (b : ℕ) → b ≢ slot disk ip bn → poked b ≡ disk b
  poked-other b n = update_of_ne disk block (λ e. n (sym e))

  root_apart : ip.addrs ndirect ≢ 0 → poked (ip.addrs ndirect) ≡ disk (ip.addrs ndirect)
  root_apart n = poked-other (ip.addrs ndirect) (λ e.
      let last : bn ≡ maxfile =
        v.distinct bn maxfile (omega arith) (omega arith) ne (sym e ∙ sym (slot-root disk ip)) in
      absurd (omega (arith, last)))

  pub poked-slot : (j : ℕ) → j ≤ maxfile → slot poked ip j ≡ slot disk ip j
  poked-slot j m = elim (place j m) [
    | in_inode a ↦ slot-direct poked ip j a ∙ sym (slot-direct disk ip j a)
    | in_block a b ↦ slot-same disk poked ip ip j a b refl root_apart
    | at_root a ↦ rw a (slot-root poked ip ∙ sym (slot-root disk ip))
  ]

  poked-free : (y : ℕ) → y < sb.size → free_block sb poked y ≡ free_block sb disk y
  poked-free y m =
      let o = v.owned bn (omega arith) ne in
      rw (poked-other (bblock sb y) (λ e. o.unmapped y m (sym e))) refl

  pub poked-free_count : free_count sb poked ≡ free_count sb disk
  poked-free_count = free_count-same sb disk poked poked-free

  -- No other block of the content changes.
  pub poked-content :
      (j : ℕ)
      → j < maxfile
      → j ≢ bn
      → slot disk ip j ≢ 0
      → poked (slot poked ip j) ≡ disk (slot disk ip j)
  poked-content j m n s =
      ap poked (poked-slot j (omega arith))
      ∙ poked-other (slot disk ip j) (λ e. n (v.distinct j bn (omega arith) (omega arith) s e))

  pub poked-here : poked (slot poked ip bn) ≡ block
  poked-here = ap poked (poked-slot bn (omega arith)) ∙ update_self disk (slot disk ip bn) block

  poked-IsMap : IsMap sb poked
  poked-IsMap = record {
    bytes = λ b.
        either (λ (y : Block). (i : ℕ) → y i < 256) (slot disk ip bn == b) (λ _. bytes)
          (λ _. v.map.bytes b);
    reserved = λ x b h m e. poked-free b m ∙ v.map.reserved x b h m e;
  }

  pub poked-IsFile : IsFile sb poked ip
  poked-IsFile = record {
    map = poked-IsMap;
    boot = poked-free 0 (omega (arith, (v.owned bn (omega arith) ne).below)) ∙ v.boot;
    small = v.small;
    owned = λ j m n.
        let same = poked-slot j m in
        let o = v.owned j m (λ e. n (same ∙ e)) in
        rw same (record {
          below = o.below;
          used = poked-free (slot disk ip j) o.below ∙ o.used;
          unmapped = o.unmapped;
        });
    distinct = λ i j a b n e.
        v.distinct i j a b (λ z. n (poked-slot i a ∙ z))
          (sym (poked-slot i a) ∙ e ∙ poked-slot j b);
  }

pub fill-bytes :
    (b : Block) (at : ℕ) (src : ℕ → ℕ) (m : ℕ)
    → ((i : ℕ) → b i < 256)
    → ((i : ℕ) → src i < 256)
    → (i : ℕ) → fill b at src m i < 256
unfolding fill
fill-bytes b at src m h h' i =
    either (λ v. v < 256) (leb at i && ltb i (at + m)) (λ _. h' (i - at)) (λ _. h i)

pub fill-inside :
    (b : Block) (at : ℕ) (src : ℕ → ℕ) (m i : ℕ) → i < m → fill b at src m (at + i) ≡ src i
unfolding fill
fill-inside b at src m i l =
    let same : at + i - at ≡ i = omega arith in
    let t : (leb at (at + i) && ltb (at + i) (at + m)) ≡ true = ground arith in rw (t, same) refl

pub fill-outside :
    (b : Block) (at : ℕ) (src : ℕ → ℕ) (m i : ℕ)
    → (leb at i && ltb i (at + m)) ≡ false
    → fill b at src m i ≡ b i
unfolding fill
fill-outside b at src m i h = rw h refl
