-- ===== src/Paths.antt =====
-- Path names in fs.c (skipelem, namex). A path is its bytes before the NUL; a name is what the DIRSIZ bytes
-- of `name` say up to a NUL, if there is one. Directories are an interface: what ilock and dirlookup say of an
-- inode. The counts of references are not followed.
pub mod Names
use os_ca.Prelude.{
  ℕ, zero, suc, Bool, true, false, ◌&&◌, not, Option, none, some, List, [], ◌∷◌, if◌then◌else◌,
  ◌==◌, take,
}

abbrev pub dirsiz : ℕ
dirsiz = 14

-- `while(*path == '/') path++;`
pub skip_slashes : List ℕ → List ℕ
skip_slashes [] = []
skip_slashes (c ∷ path) = let rest = skip_slashes path in if c == b'/' then rest else c ∷ path

-- `while(*path != '/' && *path != 0) path++;`: what has been passed, and the rest.
pub pass_elem : List ℕ → List ℕ × List ℕ
pass_elem [] = ([], [])
pass_elem (c ∷ path) =
    let (elem, rest) = pass_elem path in if c == b'/' then ([], c ∷ path) else (c ∷ elem, rest)

-- The element at the start of a path without a leading slash.
pub elem_at : List ℕ → Option (List ℕ × List ℕ)
unfolding pass_elem skip_slashes
elem_at [] = none
elem_at (c ∷ path) =
    let (elem, rest) = pass_elem (c ∷ path) in some (take dirsiz elem, skip_slashes rest)

-- The name, and the path behind it.
pub skipelem : List ℕ → Option (List ℕ × List ℕ)
unfolding elem_at
skipelem path = elem_at (skip_slashes path)

-- What a lookup does with directories.
pub record Directories (Inode : Type 0) : Type 0 where
  pub is_dir : Inode → Bool
  pub dirlookup : Inode → List ℕ → Option Inode

-- namex returns the inode, or the parent with the last name in `name`, or 0.
pub data Lookup (Inode : Type 0) : Type 0 where
  inode : Inode → Lookup Inode
  parent : Inode → List ℕ → Lookup Inode
  missing : Lookup Inode

pub is_end : List ℕ → Bool
is_end [] = true
is_end (c ∷ path) = false

module _ {Inode : Type 0} (dirs : Directories Inode) (nameiparent : Bool) where
  -- The loop of namex, with fuel; `none` means that it ran out.
  pub walk_from : ℕ → Inode → List ℕ → Option (Lookup Inode)
  unfolding skipelem is_end
  walk_from zero ip path = none
  walk_from (suc fuel) ip path = elim (skipelem path) [
    | none ↦ some (if nameiparent then missing else inode ip)
    | some (name, rest) ↦
        if not (dirs.is_dir ip)
        then some missing
        else if nameiparent && is_end rest
        then some (parent ip name)
        else elim (dirs.dirlookup ip name) [
          | none ↦ some missing
          | some next ↦ walk_from fuel next rest
        ]
  ]

  -- `root` is the root's inode and `cwd` the working directory of the process.
  pub namex : ℕ → Inode → Inode → List ℕ → Option (Lookup Inode)
  unfolding walk_from
  namex fuel root cwd [] = walk_from fuel cwd []
  namex fuel root cwd (c ∷ path) = walk_from fuel (if c == b'/' then root else cwd) (c ∷ path)
