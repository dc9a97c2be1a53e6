-- ===== src/Inodes/Effect.antt =====
-- bmap (fs.c): what a call makes of the file's slots and of the disk.
use os_ca.Prelude.{
  ℕ, ◌+◌, ◌-◌, ◌*◌, ◌<◌, ◌≤◌, ◌≡◌, ◌≢◌, refl, sym, subst, ◌∙◌, true, false, Option, some, ltb, ◌==◌,
  update, arith, Bool-cases, inl, inr, ==-of_ne,
}
use os_ca.Memory.{int_at, put_int}
use os_ca.Blocks.{Disk, SuperBlock, bsize}
use os_ca.Blocks.Free.{free_block}
use os_ca.Inodes.{Inode, ndirect, nindirect, maxfile, Mapped, direct_block, indirect_block, bmap}
use os_ca.Inodes.Slots.{
  slot, slot-direct, slot-indirect, slot-none, IsFile, Fresh, Grown, grown-IsFile, grown-here,
  grown-other, fresh-pos,
}
use os_ca.Memory.Words.{int_at-zero}
use os_ca.Inodes.Count.{free_count, free_count-taken}
use os_ca.Inodes.Mapping.{balloc-Fresh, direct-Grown, root-Grown, indirect-Grown}

-- The block of the file at `bn` is `addr`. If there was one before it is this; otherwise it is new and
-- full of zeros. The other slots and the blocks of the content are as they were.
pub record Effect (sb : SuperBlock) (disk : Disk) (ip : Inode) (bn addr : ℕ) (disk' : Disk)
    (ip' : Inode) : Type 0 where
  pub file : IsFile sb disk' ip'
  pub here : slot disk' ip' bn ≡ addr
  pub present : addr ≢ 0
  pub slots : (j : ℕ) → j < maxfile → j ≢ bn → slot disk' ip' j ≡ slot disk ip j
  pub old : slot disk ip bn ≢ 0 → addr ≡ slot disk ip bn
  pub content :
      (j : ℕ) → j < maxfile → slot disk ip j ≢ 0 → disk' (slot disk ip j) ≡ disk (slot disk ip j)
  pub zeroed : slot disk ip bn ≡ 0 → (i : ℕ) → i < bsize → disk' addr i ≡ 0
  pub size : ip'.size ≡ ip.size
  pub cost : free_count sb disk ≤ free_count sb disk' + 2

-- Nothing is to be done.
present-Effect :
    {sb : SuperBlock} {disk : Disk} {ip : Inode} (bn : ℕ)
    → IsFile sb disk ip
    → slot disk ip bn ≢ 0
    → Effect sb disk ip bn (slot disk ip bn) disk ip
present-Effect bn v ne = record {
  file = v;
  here = refl;
  present = ne;
  slots = λ j l n. refl;
  old = λ _. refl;
  content = λ j l n. refl;
  zeroed = λ e. absurd (ne e);
  size = refl;
  cost = omega arith;
}

module _ {sb : SuperBlock} {disk disk' : Disk} {ip ip' : Inode} {k x : ℕ} (v : IsFile sb disk ip)
    (f : Fresh sb disk disk' x) where
  Grown-Effect :
      (disk'' : Disk)
      → k < maxfile
      → Grown sb disk ip k x disk'' ip'
      → Effect sb disk ip k x disk'' ip'
  Grown-Effect disk'' l g = record {
    file = grown-IsFile v f.below f.free g;
    here = grown-here v f.below f.free g;
    present =
        λ e. absurd (ground (arith, subst (λ b. free_block sb disk b ≡ true) e f.free, v.boot));
    slots = λ j m ne. grown-other v f.below f.free g j (omega arith) ne;
    old = λ ne. absurd (ne g.empty);
    content = g.content;
    zeroed = λ _. g.zeroed l;
    size = g.size;
    cost = omega (arith, free_count-taken sb disk disk'' x f.below f.free g.frees);
  }

-- The indirect block is made first.
root-Effect :
    {sb : SuperBlock} {disk d1 d2 : Disk} {ip ip1 ip2 : Inode} {bn x addr : ℕ}
    → IsFile sb disk ip
    → Fresh sb disk d1 x
    → Grown sb disk ip maxfile x d1 ip1
    → free_count sb d1 ≤ free_count sb d2 + 1
    → bn < maxfile
    → Effect sb d1 ip1 bn addr d2 ip2
    → Effect sb disk ip bn addr d2 ip2
root-Effect {sb} {disk} {d1} {d2} {ip} {ip1} {bn} {x} v f g c l e = record {
  file = e.file;
  here = e.here;
  present = e.present;
  slots = λ j m ne. e.slots j m ne ∙ same j m;
  old = λ ne. e.old (λ z. ne (sym (same bn l) ∙ z)) ∙ same bn l;
  content = λ j m ne.
      subst (λ a. d2 a ≡ d1 a) (same j m) (e.content j m (λ z. ne (sym (same j m) ∙ z)))
      ∙ g.content j m ne;
  zeroed = λ z. e.zeroed (same bn l ∙ z);
  size = e.size ∙ g.size;
  cost = omega (arith, c, free_count-taken sb disk d1 x f.below f.free g.frees);
}
  where
    same : (j : ℕ) → j < maxfile → slot d1 ip1 j ≡ slot disk ip j
    same j m = grown-other v f.below f.free g j (omega arith) (λ z. absurd (omega (arith, z)))

-- What a call that returns gives.
abbrev pub Maps : SuperBlock → Disk → Inode → ℕ → Option Mapped → Type 0
Maps sb disk ip bn o =
    (addr : ℕ) × (ip' : Inode) × (disk' : Disk) × (o ≡ some (addr, ip', disk'))
    × Effect sb disk ip bn addr disk' ip'

-- bmap changes nothing where the file has a block.
pub bmap-mapped :
    (sb : SuperBlock) {disk : Disk} {ip : Inode} (bn : ℕ)
    → bn < maxfile
    → slot disk ip bn ≢ 0
    → bmap sb disk ip bn ≡ some (slot disk ip bn, ip, disk)
unfolding bmap direct_block indirect_block
bmap-mapped sb {disk} {ip} bn l ne = elim (Bool-cases (ltb bn ndirect)) [
  | inl a ↦
      let addr = slot-direct disk ip bn (ground (arith, a)) in
      let some_block : (ip.addrs bn == 0) ≡ false = ==-of_ne (λ e. ne (addr ∙ e)) in
      rw (a, some_block, addr) refl
  | inr a ↦ elim (Bool-cases (ip.addrs ndirect == 0)) [
    | inl z ↦ absurd (ne (slot-none disk ip bn (ground (arith, a)) l (ground (arith, z))))
    | inr z ↦
        let addr = slot-indirect disk ip bn (ground (arith, a)) l (ground (arith, z)) in
        let inside : ltb (bn - ndirect) nindirect ≡ true = ground arith in
        let some_block : (int_at (disk (ip.addrs ndirect)) (4 * (bn - ndirect)) == 0) ≡ false =
          ==-of_ne (λ e. ne (addr ∙ e)) in
        rw (a, inside, z, some_block, addr) refl
  ]
]

-- bmap gives every place of the file a block, while two blocks are free.
pub bmap_lem :
    {sb : SuperBlock} {disk : Disk} {ip : Inode} (bn : ℕ)
    → IsFile sb disk ip
    → bn < maxfile
    → 2 ≤ free_count sb disk
    → Maps sb disk ip bn (bmap sb disk ip bn)
unfolding bmap direct_block indirect_block
bmap_lem {sb} {disk} {ip} bn v l h = elim (Bool-cases (slot disk ip bn == 0)) [
  | inr some_block ↦
      let ne : slot disk ip bn ≢ 0 = ground (arith, some_block) in
      (slot disk ip bn, ip, disk, bmap-mapped sb bn l ne, present-Effect bn v ne)
  | inl empty ↦
      let none_yet : slot disk ip bn ≡ 0 = ground (arith, empty) in
      let (x, disk', e, f) = balloc-Fresh sb disk v.map (omega arith) in
      elim (Bool-cases (ltb bn ndirect)) [
        | inl a ↦
            let small : bn < ndirect = ground (arith, a) in
            let addr : ip.addrs bn ≡ 0 = sym (slot-direct disk ip bn small) ∙ none_yet in
            let no_block : (ip.addrs bn == 0) ≡ true = ground (arith, addr) in
            (
              x,
              record ip { addrs = update ip.addrs bn x },
              disk',
              rw (a, no_block, e) refl,
              Grown-Effect v f disk' l (direct-Grown v f bn small addr),
            )
        | inr a ↦
            let large : ndirect ≤ bn = ground (arith, a) in
            let inside : ltb (bn - ndirect) nindirect ≡ true = ground arith in
            let place : ndirect + (bn - ndirect) ≡ bn = omega arith in
            elim (Bool-cases (ip.addrs ndirect == 0)) [
              | inl z ↦
                  let no_root : ip.addrs ndirect ≡ 0 = ground (arith, z) in
                  let ip1 : Inode = record ip { addrs = update ip.addrs ndirect x } in
                  let g = root-Grown v f no_root in
                  let v1 = grown-IsFile v f.below f.free g in
                  let c = free_count-taken sb disk disk' x f.below f.free g.frees in
                  let (y, d2, e2, f2) = balloc-Fresh sb disk' v1.map (omega (arith, c)) in
                  let zero : int_at (disk' x) (4 * (bn - ndirect)) ≡ 0 =
                    int_at-zero (disk' x) (4 * (bn - ndirect)) (λ i m. f.zeroed i (omega arith)) in
                  let g2 =
                    indirect-Grown v1 f2 (fresh-pos v f.below f.free) (bn - ndirect) (omega arith)
                      zero in
                  let d3 : Disk = update d2 x (put_int (d2 x) (4 * (bn - ndirect)) y) in
                  let c2 = free_count-taken sb disk' d3 y f2.below f2.free g2.frees in
                  let zeroed : (int_at (disk' x) (4 * (bn - ndirect)) == 0) ≡ true =
                    ground (arith, zero) in
                  (
                    y,
                    ip1,
                    d3,
                    rw (a, inside, z, e, zeroed, e2) refl,
                    root-Effect v f g (omega (arith, c2)) l (
                        subst (λ k. Effect sb disk' ip1 k y d3 ip1) place
                          (Grown-Effect v1 f2 d3 (omega arith) g2)),
                  )
              | inr z ↦
                  let root : ip.addrs ndirect ≢ 0 = ground (arith, z) in
                  let zero : int_at (disk (ip.addrs ndirect)) (4 * (bn - ndirect)) ≡ 0 =
                    sym (slot-indirect disk ip bn large l root) ∙ none_yet in
                  let zeroed : (int_at (disk (ip.addrs ndirect)) (4 * (bn - ndirect)) == 0) ≡ true =
                    ground (arith, zero) in
                  let g = indirect-Grown v f root (bn - ndirect) (omega arith) zero in
                  let d1 : Disk =
                    update disk' (ip.addrs ndirect)
                      (put_int (disk' (ip.addrs ndirect)) (4 * (bn - ndirect)) x) in
                  (
                    x,
                    ip,
                    d1,
                    rw (a, inside, z, zeroed, e) refl,
                    subst (λ k. Effect sb disk ip k x d1 ip) place
                        (Grown-Effect v f d1 (omega arith) g),
                  )
            ]
      ]
]
