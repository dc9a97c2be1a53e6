-- ===== src/Tests/Lookups.antt =====
-- The theorem on path names, on a small tree.
use os_ca.Prelude.{ℕ, ◌+◌, ◌≡◌, true, false, some, List, [], ◌∷◌, arith, if◌then◌else◌}
use os_ca.Paths.{Directories, namex}
use os_ca.Paths.Names.{pieces, names, is_absolute, walk, namex_lem}

-- Every inode is a directory, and each name leads to the next inode.
abbrev chain : Directories ℕ
chain = record { is_dir = λ i. true; dirlookup = λ i name. some (i + 1) }

-- "/a//b"
abbrev path : List ℕ
path = b'/' ∷ b'a' ∷ b'/' ∷ b'/' ∷ b'b' ∷ []

namex_lem_example :
    namex chain false 3 0 9 path
    ≡ some (walk chain false (if is_absolute path then 0 else 9) (names path))
unfolding names pieces
namex_lem_example = namex_lem chain false 3 0 9 path (omega arith)
