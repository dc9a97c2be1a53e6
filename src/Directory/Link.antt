-- ===== src/Directory/Link.antt =====
-- dirlink (fs.c) enters a name, and dirlookup finds it.
use os_ca.Prelude.{
  ℕ, ◌+◌, ◌*◌, ◌^◌, ◌<◌, ◌≤◌, ◌≡◌, ◌≢◌, refl, ap, ◌∙◌, true, false, Option, none, some,
  if◌then◌else◌, ltb, ◌==◌, arith, Bool-cases, inl, inr, ◌⊎◌,
}
use os_ca.Blocks.{Disk, SuperBlock, bsize}
use os_ca.Inodes.{Inode, maxfile}
use os_ca.Inodes.Slots.{IsFile}
use os_ca.Inodes.Count.{free_count}
use os_ca.Inodes.Reading.{IsFilled}
use os_ca.Inodes.Writing.{touched, end_of, writei_lem}
use os_ca.Directory.{
  Bytes, byte_of, dirent_size, dirent, inum_of, is_match, is_unused, scan_entries, dirlookup,
  enter_at, dirlink,
}
use os_ca.Directory.Names.{SameEntry, is_match-same, is_unused-same, dirent-bytes, dirent-match}
use os_ca.Directory.Scan.{entry, Scanned, first, no_entry, scan_entries_lem, dirlookup_lem}

-- The directory after `name` has been entered at place `j`.
pub record Linked (sb : SuperBlock) (disk : Disk) (dp : Inode) (name : Bytes) (inum count j : ℕ)
    (disk' : Disk) (dp' : Inode) : Type 0 where
  pub file : IsFile sb disk' dp'
  pub filled : IsFilled disk' dp'
  pub room : j ≤ count
  pub size : dp'.size ≡ (if j == count then count + 1 else count) * dirent_size
  pub here : SameEntry (entry disk' dp' j) (byte_of (dirent name inum))
  pub others : (i : ℕ) → i < count → i ≢ j → SameEntry (entry disk' dp' i) (entry disk dp i)

module _ {sb : SuperBlock} {disk : Disk} {dp : Inode} {name : Bytes} {inum count : ℕ}
    (s : dp.size ≡ count * dirent_size) where
  enter_at_lem :
      (j : ℕ)
      → IsFile sb disk dp
      → IsFilled disk dp
      → ((i : ℕ) → name i < 256)
      → j ≤ count
      → dp.size + dirent_size ≤ maxfile * bsize
      → 2 ≤ free_count sb disk
      → (dp' : Inode) × (disk' : Disk) × (enter_at sb disk dp name inum (j * dirent_size)
          ≡ some (true, dp', disk'))
        × Linked sb disk dp name inum count j disk' dp'
  unfolding enter_at
  enter_at_lem j v f b l fits c =
      let one : touched (j * dirent_size) dirent_size ≡ 1 = omega arith in
      let (dp', disk', e, v', f', size, new, old) =
        (writei_lem (j * dirent_size) (byte_of (dirent name inum)) dirent_size v f
            (dirent-bytes name inum b) (omega arith) (omega arith) (omega (arith, c, one))).1
          (omega (arith, s)) (omega (arith, s, fits)) in
      (
        dp',
        disk',
        rw e refl,
        record {
          file = v';
          filled = f';
          room = l;
          size = size ∙ new_size j l;
          here = new;
          others = λ i h ne k m. old (i * dirent_size + k) (omega (arith, s)) (apart i j k ne m);
        },
      )
    where
      new_size :
          (j : ℕ)
          → j ≤ count
          → end_of dp.size (j * dirent_size) dirent_size
            ≡ (if j == count then count + 1 else count) * dirent_size
      new_size j l = ground (arith, s)

      apart :
          (i j k : ℕ)
          → i ≢ j
          → k < dirent_size
          → (i * dirent_size + k < j * dirent_size)
            ⊎ (j * dirent_size + dirent_size ≤ i * dirent_size + k)
      apart i j k ne m = elim (Bool-cases (ltb i j)) [
        | inl t ↦ inl (ground (arith, t))
        | inr t ↦ let more : j < i = ground (arith, t, ne) in inr (omega arith)
      ]

-- The place for a new entry.
abbrev Place : Disk → Inode → ℕ → Option ((Option ℕ × ℕ) × Inode × Disk) → Type 0
Place disk dp count o =
    (j : ℕ) × (x : Option ℕ) × (j ≤ count)
    × (j < count → is_unused (entry disk dp j) ≡ true)
    × ((i : ℕ) → i < j → is_unused (entry disk dp i) ≡ false)
    × (o ≡ some ((x, j * dirent_size), dp, disk))

place_of :
    {disk : Disk} {dp : Inode} {count : ℕ} {o : Option ((Option ℕ × ℕ) × Inode × Disk)}
    → Scanned disk dp is_unused 0 count o
    → Place disk dp count o
place_of {disk} {dp} (first j l l' t before e) =
    (j, some (inum_of (entry disk dp j)), omega arith, λ _. t, λ i l. before i (omega arith) l, e)
place_of {count = count} (no_entry h e) =
    (count, none, omega arith, λ l. absurd (omega arith), λ i l. h i (omega arith) l, e)

missing :
    {disk : Disk} {dp : Inode} (name : Bytes) {count : ℕ}
    {o : Option ((Option ℕ × ℕ) × Inode × Disk)}
    → ((i : ℕ) → i < count → is_match name (entry disk dp i) ≡ false)
    → Scanned disk dp (is_match name) 0 count o
    → o ≡ some ((none, count * dirent_size), dp, disk)
missing name none_yet (first j l l' t before e) = absurd (ground (arith, none_yet j l', t))
missing name none_yet (no_entry h e) = e

module _ {sb : SuperBlock} {disk disk' : Disk} {dp dp' : Inode} {name : Bytes} {inum count j : ℕ}
    (none_yet : (i : ℕ) → i < count → is_match name (entry disk dp i) ≡ false) (ne : inum ≢ 0)
    (low : inum < 2 ^ 16) (k : Linked sb disk dp name inum count j disk' dp') where
  abbrev count' : ℕ
  count' = if j == count then count + 1 else count

  match_here : is_match name (entry disk' dp' j) ≡ true
  match_here =
      is_match-same name (entry disk' dp' j) (byte_of (dirent name inum)) k.here
      ∙ (dirent-match name inum ne low).1

  match_only : (i : ℕ) → i < count' → is_match name (entry disk' dp' i) ≡ true → i ≡ j
  match_only i l t = elim (Bool-cases (i == j)) [
    | inl e ↦ ground (arith, e)
    | inr e ↦
        let room = k.room in
        let inside : i < count = ground arith in
        let old =
          is_match-same name (entry disk' dp' i) (entry disk dp i)
            (k.others i inside (ground (arith, e))) in
        absurd (ground (arith, old, t, none_yet i inside))
  ]

  number_here : inum_of (entry disk' dp' j) ≡ inum
  number_here =
      rw (k.here 0 (omega arith), k.here 1 (omega arith)) (dirent-match name inum ne low).0

  found :
      {o : Option ((Option ℕ × ℕ) × Inode × Disk)}
      → Scanned disk' dp' (is_match name) 0 count' o
      → o ≡ some ((some inum, j * dirent_size), dp', disk')
  found (first i l l' t before e) =
      let same = match_only i l' t in
      e
      ∙ ap (λ (q : ℕ). some ((some (inum_of (entry disk' dp' q)), q * dirent_size), dp', disk'))
          same
      ∙ ap (λ (q : ℕ). some ((some q, j * dirent_size), dp', disk')) number_here
  found (no_entry h e) =
      let room = k.room in
      let inside : j < count' = ground arith in
      absurd (ground (arith, h j (omega arith) inside, match_here))

entering :
    (sb : SuperBlock) {disk : Disk} {dp : Inode} (name : Bytes) (inum : ℕ) {at off : ℕ}
    {x : Option ℕ}
    → dirlookup sb disk dp name ≡ some ((none, at), dp, disk)
    → scan_entries dp.size sb disk dp is_unused 0 ≡ some ((x, off), dp, disk)
    → dirlink sb disk dp name inum ≡ enter_at sb disk dp name inum off
unfolding dirlink
entering sb name inum e e' = rw e (rw e' refl)

-- dirlink of a name that the directory does not have, while two blocks are free and the file has room, enters it
-- with its inode's number in the first unused entry, or at the end, and returns 0. dirlookup then finds
-- this number there. The other entries stay, and the directory is a well-formed file again.
pub dirlookup-dirlink :
    {sb : SuperBlock} {disk : Disk} {dp : Inode} (name : Bytes) (inum count : ℕ)
    → IsFile sb disk dp
    → IsFilled disk dp
    → dp.size ≡ count * dirent_size
    → ((i : ℕ) → name i < 256)
    → inum ≢ 0
    → inum < 2 ^ 16
    → ((i : ℕ) → i < count → is_match name (entry disk dp i) ≡ false)
    → dp.size + dirent_size ≤ maxfile * bsize
    → 2 ≤ free_count sb disk
    → (j : ℕ) × (dp' : Inode) × (disk' : Disk) × (dirlink sb disk dp name inum
        ≡ some (true, dp', disk'))
      × (dirlookup sb disk' dp' name ≡ some ((some inum, j * dirent_size), dp', disk'))
      × (j < count → is_unused (entry disk dp j) ≡ true)
      × ((i : ℕ) → i < j → is_unused (entry disk dp i) ≡ false)
      × Linked sb disk dp name inum count j disk' dp'
dirlookup-dirlink {sb} {disk} {dp} name inum count v f s b ne low none_yet fits c =
    let absent = missing name none_yet (dirlookup_lem sb name count f s) in
    let (j, x, l, unused, used, at) =
      place_of
        (scan_entries_lem dp.size sb 0 count is_unused-same f s (omega arith) (omega (arith, s))) in
    let (dp', disk', e, k) = enter_at_lem {name = name} {inum = inum} s j v f b l fits c in
    (
      j,
      dp',
      disk',
      entering sb name inum absent at ∙ e,
      found none_yet ne low k
          (dirlookup_lem sb name (if j == count then count + 1 else count) k.filled k.size),
      unused,
      used,
      k,
    )

present :
    {disk : Disk} {dp : Inode} (name : Bytes) {count : ℕ}
    {o : Option ((Option ℕ × ℕ) × Inode × Disk)} (k : ℕ)
    → k < count
    → is_match name (entry disk dp k) ≡ true
    → Scanned disk dp (is_match name) 0 count o
    → (i at : ℕ) × (o ≡ some ((some i, at), dp, disk))
present {disk} {dp} name k l t (first j m m' t' before e) =
    (inum_of (entry disk dp j), j * dirent_size, e)
present name k l t (no_entry h e) = absurd (ground (arith, h k (omega arith) l, t))

-- dirlink of a name that the directory has returns -1 and changes nothing.
pub dirlink-present :
    (sb : SuperBlock) {disk : Disk} {dp : Inode} (name : Bytes) (inum count k : ℕ)
    → IsFilled disk dp
    → dp.size ≡ count * dirent_size
    → k < count
    → is_match name (entry disk dp k) ≡ true
    → dirlink sb disk dp name inum ≡ some (false, dp, disk)
unfolding dirlink
dirlink-present sb name inum count k f s l t =
    let (i, at, e) = present name k l t (dirlookup_lem sb name count f s) in rw e refl
