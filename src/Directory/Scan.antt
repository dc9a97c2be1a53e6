-- ===== src/Directory/Scan.antt =====
-- The loops of dirlookup and dirlink (fs.c) find the first entry that passes their test.
use os_ca.Prelude.{
  ℕ, zero, suc, ◌+◌, ◌-◌, ◌*◌, ◌<◌, ◌≤◌, ◌≡◌, refl, ap, ◌∙◌, Bool, true, false, Option, none, some,
  List, if◌then◌else◌, ltb, ◌==◌, arith, Bool-cases, inl, inr, slice, add32,
}
use os_ca.Blocks.{Disk, SuperBlock}
use os_ca.Inodes.{Inode, readi}
use os_ca.Inodes.Reading.{content, IsFilled, readi_lem}
use os_ca.Directory.{Bytes, byte_of, dirent_size, inum_of, is_match, scan_entries, dirlookup}
use os_ca.Directory.Names.{SameEntry, byte_of-slice, is_match-same}

-- The entry with number `k`.
abbrev pub entry : Disk → Inode → ℕ → Bytes
entry disk dp k i = content disk dp (k * dirent_size + i)

-- A test reads no more than an entry.
abbrev pub IsTest : (Bytes → Bool) → Type 0
IsTest test = (e e' : Bytes) → SameEntry e e' → test e ≡ test e'

-- The first of the `count` entries from number `k` on that passes the test, or none.
pub data Scanned (disk : Disk) (dp : Inode) (test : Bytes → Bool) (k count : ℕ)
    (o : Option ((Option ℕ × ℕ) × Inode × Disk)) : Type 0 where
  first :
      (j : ℕ)
      → k ≤ j
      → j < count
      → test (entry disk dp j) ≡ true
      → ((i : ℕ) → k ≤ i → i < j → test (entry disk dp i) ≡ false)
      → o ≡ some ((some (inum_of (entry disk dp j)), j * dirent_size), dp, disk)
      → Scanned disk dp test k count o
  no_entry :
      ((i : ℕ) → k ≤ i → i < count → test (entry disk dp i) ≡ false)
      → o ≡ some ((none, count * dirent_size), dp, disk)
      → Scanned disk dp test k count o

module _ {disk : Disk} {dp : Inode} {test : Bytes → Bool} {k count : ℕ}
    {o o' : Option ((Option ℕ × ℕ) × Inode × Disk)} where
  skip-Scanned :
      test (entry disk dp k) ≡ false
      → o ≡ o'
      → Scanned disk dp test (k + 1) count o'
      → Scanned disk dp test k count o
  skip-Scanned t e (first j l l' h before e') =
      first j (omega arith) l' h
        (λ i m m'. elim (Bool-cases (i == k)) [
          | inl here ↦ let same : i ≡ k = ground (arith, here) in rw same t
          | inr there ↦ before i (ground (arith, there, m)) m'
        ])
        (e ∙ e')
  skip-Scanned t e (no_entry h e') =
      no_entry
        (λ i m m'. elim (Bool-cases (i == k)) [
          | inl here ↦ let same : i ≡ k = ground (arith, here) in rw same t
          | inr there ↦ h i (ground (arith, there, m)) m'
        ])
        (e ∙ e')

module _ (fuel : ℕ) (sb : SuperBlock) {disk : Disk} {dp : Inode} {test : Bytes → Bool}
    (reads : IsTest test) (f : IsFilled disk dp) (k : ℕ)
    (inside : k * dirent_size + dirent_size ≤ dp.size) where
  abbrev bytes : List ℕ
  bytes = slice (content disk dp) (k * dirent_size) dirent_size

  read : readi sb disk dp (k * dirent_size) dirent_size ≡ some (some bytes, dp, disk)
  read =
      let fits = f.fits in
      let short : (if ltb dp.size (k * dirent_size + dirent_size)
            then dp.size - k * dirent_size
            else dirent_size)
          ≡ dirent_size =
        ground arith in
      (readi_lem sb (k * dirent_size) dirent_size f (omega arith)).1 (omega arith) (omega arith)
      ∙ ap (λ (n : ℕ). some (some (slice (content disk dp) (k * dirent_size) n), dp, disk)) short

  same : SameEntry (byte_of bytes) (entry disk dp k)
  same i l = byte_of-slice (content disk dp) (k * dirent_size) dirent_size i l

  number : inum_of (byte_of bytes) ≡ inum_of (entry disk dp k)
  number = rw (same 0 (omega arith), same 1 (omega arith)) refl

  scan-hit :
      test (entry disk dp k) ≡ true
      → scan_entries (suc fuel) sb disk dp test (k * dirent_size)
        ≡ some ((some (inum_of (entry disk dp k)), k * dirent_size), dp, disk)
  unfolding scan_entries
  scan-hit t =
      let more : ltb (k * dirent_size) dp.size ≡ true = ground arith in
      let t' : test (byte_of bytes) ≡ true = reads (byte_of bytes) (entry disk dp k) same ∙ t in
      rw (more, scan_entries)
        (rw read (rw t' (ap (λ (n : ℕ). some ((some n, k * dirent_size), dp, disk)) number)))

  scan-miss :
      test (entry disk dp k) ≡ false
      → scan_entries (suc fuel) sb disk dp test (k * dirent_size)
        ≡ scan_entries fuel sb disk dp test ((k + 1) * dirent_size)
  unfolding scan_entries
  scan-miss t =
      let fits = f.fits in
      let more : ltb (k * dirent_size) dp.size ≡ true = ground arith in
      let t' : test (byte_of bytes) ≡ false = reads (byte_of bytes) (entry disk dp k) same ∙ t in
      let on : add32 (k * dirent_size) dirent_size ≡ (k + 1) * dirent_size = omega arith in
      rw (more, scan_entries) (rw read (rw t' (ap (scan_entries fuel sb disk dp test) on)))

-- A file of `count` entries is read to the first one that passes the test, in as many rounds.
pub scan_entries_lem :
    (fuel : ℕ) (sb : SuperBlock) {disk : Disk} {dp : Inode} {test : Bytes → Bool} (k count : ℕ)
    → IsTest test
    → IsFilled disk dp
    → dp.size ≡ count * dirent_size
    → k ≤ count
    → count ≤ fuel + k
    → Scanned disk dp test k count (scan_entries fuel sb disk dp test (k * dirent_size))
unfolding scan_entries
scan_entries_lem zero sb {disk} {dp} k count reads f s l h =
    let last : k ≡ count = omega arith in
    let end : ltb (count * dirent_size) dp.size ≡ false = ground arith in
    rw last (no_entry (λ i m m'. absurd (omega arith)) (rw end refl))
scan_entries_lem (suc fuel) sb {disk} {dp} {test} k count reads f s l h =
    elim (Bool-cases (k == count)) [
      | inl t ↦
          let last : k ≡ count = ground (arith, t) in
          let end : ltb (count * dirent_size) dp.size ≡ false = ground arith in
          rw last (no_entry (λ i m m'. absurd (omega arith)) (rw (end, scan_entries) refl))
      | inr t ↦
          let more : k < count = ground (arith, t) in
          elim (Bool-cases (test (entry disk dp k))) [
            | inl hit ↦
                first k (omega arith) more hit (λ i m m'. absurd (omega arith))
                  (scan-hit fuel sb reads f k (omega arith) hit)
            | inr miss ↦
                skip-Scanned miss (scan-miss fuel sb reads f k (omega arith) miss)
                  (scan_entries_lem fuel sb (k + 1) count reads f s (omega arith) (omega arith))
          ]
    ]

-- dirlookup gives the first entry in use that has the name, with its offset, or 0 if there is none, and changes
-- nothing.
pub dirlookup_lem :
    (sb : SuperBlock) {disk : Disk} {dp : Inode} (name : Bytes) (count : ℕ)
    → IsFilled disk dp
    → dp.size ≡ count * dirent_size
    → Scanned disk dp (is_match name) 0 count (dirlookup sb disk dp name)
unfolding dirlookup
dirlookup_lem sb {disk} {dp} name count f s =
    scan_entries_lem dp.size sb 0 count (is_match-same name) f s (omega arith) (omega (arith, s))
