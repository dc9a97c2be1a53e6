-- ===== src/Directory.antt =====
-- Directories of fs.c (namecmp, dirlookup, dirlink) on the files of Inodes, with strncmp and strncpy of string.c. The
-- inode is one of a directory. iget and iput belong to the inode cache, which is left out: dirlookup
-- returns the inode's number. A name is the bytes at its pointer. `none` is a panic, or the end of the fuel.
pub mod Names
pub mod Scan
pub mod Link
use os_ca.Prelude.{
  ℕ, zero, suc, ◌+◌, ◌-◌, ◌*◌, ◌/◌, ◌%◌, ◌^◌, Bool, true, false, ◌&&◌, ◌||◌, not, Option, none,
  some, List, [], ◌∷◌, if◌then◌else◌, ◌>>=◌, ltb, ◌==◌, add32, sub32, length,
}
use os_ca.Blocks.{Disk, SuperBlock}
use os_ca.Inodes.{Inode, readi, writei}
use os_ca.Paths.{dirsiz}

abbrev pub Bytes : Type 0
Bytes = ℕ → ℕ

-- The bytes at the pointer after `p++`.
abbrev pub next : Bytes → Bytes
next p i = p (suc i)

unfoldable pub strncmp : ℕ → Bytes → Bytes → ℕ
strncmp zero p q = 0
strncmp (suc n) p q =
    let rest = strncmp n (next p) (next q) in
    if not (p 0 == 0) && (p 0 == q 0) then rest else sub32 (p 0) (q 0)

unfoldable pub zeros : ℕ → List ℕ
zeros zero = []
zeros (suc n) = 0 ∷ zeros n

-- The `n` bytes that strncpy writes.
unfoldable pub strncpy : ℕ → Bytes → List ℕ
unfolding zeros
strncpy zero t = []
strncpy (suc n) t = let rest = strncpy n (next t) in if t 0 == 0 then 0 ∷ zeros n else t 0 ∷ rest

-- The byte of an object at `i`.
unfoldable pub byte_of : List ℕ → Bytes
byte_of [] i = 0
byte_of (b ∷ bs) zero = b
byte_of (b ∷ bs) (suc i) = byte_of bs i

-- sizeof(struct dirent)
abbrev pub dirent_size : ℕ
dirent_size = 16

-- `de.inum` and `de.name`
abbrev pub inum_of : Bytes → ℕ
inum_of de = de 0 + 2 ^ 8 * de 1

abbrev pub name_of : Bytes → Bytes
name_of de i = de (2 + i)

abbrev pub namecmp : Bytes → Bytes → ℕ
namecmp s t = strncmp dirsiz s t

-- The entry is in use, and has the name.
unfoldable pub is_match : Bytes → Bytes → Bool
is_match name de = not (inum_of de == 0) && (namecmp name (name_of de) == 0)

unfoldable pub is_unused : Bytes → Bool
is_unused de = inum_of de == 0

-- The loops over the entries from `off` on: the inode number of the first one that passes the test, and `off`.
unfoldable pub scan_entries :
    ℕ → SuperBlock → Disk → Inode → (Bytes → Bool) → ℕ → Option ((Option ℕ × ℕ) × Inode × Disk)
scan_entries zero sb disk dp test off =
    if ltb off dp.size then none else some ((none, off), dp, disk)
scan_entries (suc fuel) sb disk dp test off = elim (ltb off dp.size) [
  | false ↦ some ((none, off), dp, disk)
  | true ↦ do
    (bytes, dp', disk') ← readi sb disk dp off dirent_size
    de ← bytes
    elim (length de == dirent_size) [
      | false ↦ none
      | true ↦ elim (test (byte_of de)) [
        | true ↦ some ((some (inum_of (byte_of de)), off), dp', disk')
        | false ↦ scan_entries fuel sb disk' dp' test (add32 off dirent_size)
      ]
    ]
]

-- The inode's number with the offset of its entry, or 0.
unfoldable pub dirlookup :
    SuperBlock → Disk → Inode → Bytes → Option ((Option ℕ × ℕ) × Inode × Disk)
unfolding scan_entries is_match
dirlookup sb disk dp name = scan_entries dp.size sb disk dp (is_match name) 0

-- `strncpy(de.name, name, DIRSIZ); de.inum = inum;`
unfoldable pub dirent : Bytes → ℕ → List ℕ
unfolding strncpy
dirent name inum = inum % 2 ^ 8 ∷ inum / 2 ^ 8 % 2 ^ 8 ∷ strncpy dirsiz name

-- `writei(dp, (char*)&de, off, sizeof(de)) != sizeof(de)` is a panic.
unfoldable pub enter_at : SuperBlock → Disk → Inode → Bytes → ℕ → ℕ → Option (Bool × Inode × Disk)
unfolding dirent byte_of
enter_at sb disk dp name inum off = do
  (written, dp', disk') ← writei sb disk dp off (byte_of (dirent name inum)) dirent_size
  n ← written
  if n == dirent_size then some (true, dp', disk') else none

-- Whether dirlink returns 0.
unfoldable pub dirlink : SuperBlock → Disk → Inode → Bytes → ℕ → Option (Bool × Inode × Disk)
unfolding dirlookup enter_at is_unused scan_entries
dirlink sb disk dp name inum = do
  ((present, _), dp', disk') ← dirlookup sb disk dp name
  elim present [
    | some _ ↦ some (false, dp', disk')
    | none ↦ do
      ((_, off), dp'', disk'') ← scan_entries dp'.size sb disk' dp' is_unused 0
      enter_at sb disk'' dp'' name inum off
  ]
