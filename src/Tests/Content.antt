-- ===== src/Tests/Content.antt =====
-- The theorems on the content of files, on the small disk.
use os_ca.Prelude.{
  true, false, if◌then◌else◌, ◌==◌, ◌≢◌, sym, ◌∙◌, ◌/◌, Bool-cases, inl, inr, ℕ, ◌+◌, ◌*◌, ◌<◌, ◌≤◌,
  ◌≡◌, ◌⊎◌, refl, none, some, [], ◌∷◌, arith,
}
use os_ca.Blocks.{Disk}
use os_ca.Inodes.{Inode, maxfile, writei, readi}
use os_ca.Inodes.Slots.{slot, IsFile}
use os_ca.Inodes.Count.{free_below, free_count}
use os_ca.Inodes.Reading.{content, IsFilled}
use os_ca.Inodes.Writing.{end_of, writei_lem}
use os_ca.Inodes.RoundTrip.{readi-writei}
use os_ca.Directory.{is_unused, is_match, dirlookup, dirlink}
use os_ca.Directory.Scan.{entry}
use os_ca.Directory.Link.{Linked, dirlookup-dirlink}
use os_ca.Tests.Disk.{super, disk, disk-IsMap}

abbrev empty_file : Inode
empty_file = record { addrs = λ _. 0; size = 0 }

no_slot : (j : ℕ) → slot disk empty_file j ≡ 0
unfolding slot
no_slot j = ground arith

empty-IsFile : IsFile super disk empty_file
empty-IsFile = record {
  map = disk-IsMap;
  boot = refl;
  small = omega arith;
  owned = λ j l ne. absurd (ne (no_slot j));
  distinct = λ i j l m ne e. absurd (ne (no_slot i));
}

empty-IsFilled : IsFilled disk empty_file
empty-IsFilled = record { fits = omega arith; present = λ a l. absurd (omega arith) }

-- "AAA"
abbrev text : ℕ → ℕ
text _ = b'A'

five_free : free_count super disk ≡ 5
unfolding free_count free_below
five_free = refl

writei_lem_example :
    ((0 < 0) ⊎ (maxfile * 512 < 0 + 3)
      → writei super disk empty_file 0 text 3 ≡ some (none, empty_file, disk))
    × (0 ≤ 0
        → 0 + 3 ≤ maxfile * 512
        → (ip' : Inode) × (disk' : Disk) × (writei super disk empty_file 0 text 3
            ≡ some (some 3, ip', disk'))
          × IsFile super disk' ip'
          × IsFilled disk' ip'
          × (ip'.size ≡ end_of 0 0 3)
          × ((i : ℕ) → i < 3 → content disk' ip' (0 + i) ≡ b'A')
          × ((a : ℕ)
              → a < 0
              → (a < 0) ⊎ (0 + 3 ≤ a)
              → content disk' ip' a ≡ content disk empty_file a))
writei_lem_example =
    writei_lem 0 text 3 empty-IsFile empty-IsFilled (λ i. omega arith) (omega arith) (omega arith)
      (omega (arith, five_free))

readi-writei_example :
    (ip' : Inode) × (disk' : Disk) × (writei super disk empty_file 0 text 3
      ≡ some (some 3, ip', disk'))
    × (readi super disk' ip' 0 3 ≡ some (some (b'A' ∷ b'A' ∷ b'A' ∷ []), ip', disk'))
readi-writei_example =
    readi-writei 0 text 3 empty-IsFile empty-IsFilled (λ i. omega arith) (omega arith) (omega arith)
      (omega (arith, five_free))

-- A directory in block 2, with one entry, which is not used.
abbrev directory : Inode
directory = record { addrs = λ i. if i == 0 then 2 else 0; size = 16 }

one_slot : (j : ℕ) → slot disk directory j ≢ 0 → j ≡ 0
unfolding slot
one_slot j ne = elim (Bool-cases (j == 0)) [
  | inl t ↦ ground (arith, t)
  | inr t ↦ absurd (ne (ground (arith, t)))
]

directory-IsFile : IsFile super disk directory
unfolding slot
directory-IsFile = record {
  map = disk-IsMap;
  boot = refl;
  small = omega arith;
  owned = λ j l ne.
      let first = one_slot j ne in
      rw first (record {
        below = omega arith;
        used = refl;
        unmapped = λ x h e. absurd (omega (arith, e));
      });
  distinct = λ i j l m ne e. one_slot i ne ∙ sym (one_slot j (λ z. ne (e ∙ z)));
}

directory-IsFilled : IsFilled disk directory
unfolding slot
directory-IsFilled = record {
  fits = omega arith;
  present =
      λ a l. let first : a / 512 ≡ 0 = omega arith in rw first (λ z. absurd (omega (arith, z)));
}

unused_entry : (i : ℕ) → i < 1 → is_match text (entry disk directory i) ≡ false
unfolding is_match slot
unused_entry i l = let first : i ≡ 0 = omega arith in rw first refl

dirlookup-dirlink_example :
    (j : ℕ) × (dp' : Inode) × (disk' : Disk) × (dirlink super disk directory text 7
      ≡ some (true, dp', disk'))
    × (dirlookup super disk' dp' text ≡ some ((some 7, j * 16), dp', disk'))
    × (j < 1 → is_unused (entry disk directory j) ≡ true)
    × ((i : ℕ) → i < j → is_unused (entry disk directory i) ≡ false)
    × Linked super disk directory text 7 1 j disk' dp'
dirlookup-dirlink_example =
    dirlookup-dirlink text 7 1 directory-IsFile directory-IsFilled refl (λ i. omega arith)
      (omega arith) (omega arith) unused_entry (omega arith) (omega (arith, five_free))
