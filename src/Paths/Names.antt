-- ===== src/Paths/Names.antt =====
-- The names of a path, and the walk along them (fs.c).
use os_ca.Prelude.{
  ℕ, zero, suc, ◌+◌, ◌<◌, ◌≡◌, refl, ap, sym, ◌∙◌, Bool, true, false, ◌&&◌, not, Option, none, some,
  List, [], ◌∷◌, length, if◌then◌else◌, ◌==◌, arith, Bool-cases, inl, inr, take, either, subst,
}
use os_ca.Paths.{
  dirsiz, skip_slashes, pass_elem, elem_at, skipelem, Directories, Lookup, inode, parent, missing,
  is_end, walk_from, namex,
}

-- A piece between two slashes, if it is not empty.
abbrev keep : List ℕ → List (List ℕ) → List (List ℕ)
keep [] es = es
keep (c ∷ e) es = (c ∷ e) ∷ es

-- The piece that the path begins with, and the names behind it.
unfoldable pub pieces : List ℕ → List ℕ × List (List ℕ)
pieces [] = ([], [])
pieces (c ∷ path) = let (e, es) = pieces path in if c == b'/' then ([], keep e es) else (c ∷ e, es)

-- The non-empty pieces between the slashes of a path.
unfoldable pub names : List ℕ → List (List ℕ)
unfolding pieces
names path = let (e, es) = pieces path in keep e es

module _ (c : ℕ) (path : List ℕ) where
  pieces-slash : (c == b'/') ≡ true → pieces (c ∷ path) ≡ ([], names path)
  unfolding pieces names
  pieces-slash h = rw (h, pieces) refl

  pieces-other : (c == b'/') ≡ false → pieces (c ∷ path) ≡ (c ∷ (pieces path).0, (pieces path).1)
  unfolding pieces
  pieces-other h = rw (h, pieces) refl

names-pieces :
    (path : List ℕ) (e : List ℕ) (es : List (List ℕ))
    → pieces path ≡ (e, es)
    → names path ≡ keep e es
unfolding names
names-pieces path e es h = rw h refl

names-slash : (c : ℕ) (path : List ℕ) → (c == b'/') ≡ true → names (c ∷ path) ≡ names path
names-slash c path h = names-pieces (c ∷ path) [] (names path) (pieces-slash c path h)

names-skip_slashes : (path : List ℕ) → names (skip_slashes path) ≡ names path
unfolding skip_slashes
names-skip_slashes [] = refl
names-skip_slashes (c ∷ path) = elim (Bool-cases (c == b'/')) [
  | inl slash ↦
      ap names (ground (arith, slash)) ∙ names-skip_slashes path ∙ sym (names-slash c path slash)
  | inr other ↦ ap names (ground (arith, other))
]

pieces-pass_elem : (path : List ℕ) → pieces path ≡ ((pass_elem path).0, names (pass_elem path).1)
unfolding pass_elem pieces names
pieces-pass_elem [] = refl
pieces-pass_elem (c ∷ path) = elim (Bool-cases (c == b'/')) [
  | inl slash ↦
      pieces-slash c path slash
      ∙ rw slash (ap (λ (n : List (List ℕ)). ([], n)) (sym (names-slash c path slash)))
  | inr other ↦
      pieces-other c path other
      ∙ rw other (ap (λ (x : List ℕ × List (List ℕ)). (c ∷ x.0, x.1)) (pieces-pass_elem path))
]

-- A path that begins with no slash.
pub HasNoSlash : List ℕ → Type 0
HasNoSlash [] = Unit
HasNoSlash (c ∷ path) = (c == b'/') ≡ false

skip_slashes-HasNoSlash : (path : List ℕ) → HasNoSlash (skip_slashes path)
unfolding skip_slashes HasNoSlash
skip_slashes-HasNoSlash [] = tt
skip_slashes-HasNoSlash (c ∷ path) =
    either HasNoSlash (c == b'/') (λ _. skip_slashes-HasNoSlash path) (λ other. other)

-- The names before a call of skipelem, by its result.
pub data Next (ns : List (List ℕ)) : Option (List ℕ × List ℕ) → Type 0 where
  at_end : ns ≡ [] → Next ns none
  next :
      (e rest : List ℕ)
      → ns ≡ e ∷ names rest
      → HasNoSlash rest
      → Next ns (some (take dirsiz e, rest))

names-nil : names [] ≡ []
unfolding names pieces
names-nil = refl

pass_elem-other :
    (c : ℕ) (path : List ℕ)
    → (c == b'/') ≡ false
    → pass_elem (c ∷ path) ≡ (c ∷ (pass_elem path).0, (pass_elem path).1)
unfolding pass_elem
pass_elem-other c path h = rw h refl

elem_at-Next : (path : List ℕ) → HasNoSlash path → Next (names path) (elem_at path)
unfolding elem_at HasNoSlash
elem_at-Next [] h = at_end names-nil
elem_at-Next (c ∷ path) h =
    let r = (pass_elem path).1 in
    let e = c ∷ (pass_elem path).0 in
    let first : names (c ∷ path) ≡ e ∷ names (skip_slashes r) =
      names-pieces (c ∷ path) e (names r) (
        pieces-other c path h
        ∙ ap (λ (x : List ℕ × List (List ℕ)). (c ∷ x.0, x.1)) (pieces-pass_elem path))
      ∙ ap (λ (n : List (List ℕ)). e ∷ n) (sym (names-skip_slashes r)) in
    subst (λ x. Next (names (c ∷ path)) (some (take dirsiz x.0, skip_slashes x.1)))
      (sym (pass_elem-other c path h)) (next e (skip_slashes r) first (skip_slashes-HasNoSlash r))

-- skipelem takes off the first name of a path, cut to DIRSIZ bytes, and leaves a path
pub skipelem-Next : (path : List ℕ) → Next (names path) (skipelem path)
unfolding skipelem
skipelem-Next path =
    subst (λ ns. Next ns (skipelem path)) (names-skip_slashes path)
      (elem_at-Next (skip_slashes path) (skip_slashes-HasNoSlash path))

unfoldable pub is_absolute : List ℕ → Bool
is_absolute [] = false
is_absolute (c ∷ path) = c == b'/'

is_nil : List (List ℕ) → Bool
is_nil [] = true
is_nil (e ∷ es) = false

names-cons :
    (c : ℕ) (path : List ℕ)
    → (c == b'/') ≡ false
    → names (c ∷ path) ≡ (c ∷ (pieces path).0) ∷ (pieces path).1
names-cons c path h =
    names-pieces (c ∷ path) (c ∷ (pieces path).0) (pieces path).1 (pieces-other c path h)

is_end-names : (path : List ℕ) → HasNoSlash path → is_end path ≡ is_nil (names path)
unfolding is_end is_nil HasNoSlash
is_end-names [] h = rw names-nil refl
is_end-names (c ∷ path) h = rw (names-cons c path h) refl

-- Results that are all there, branch by branch.
some-if {ℓ} :
    {A : Type ℓ} (a b : Bool) (x y z : A) {o : Option A}
    → o ≡ some z
    → (if a then some x else if b then some y else o) ≡ some (if a then x else if b then y else z)
some-if true b x y z e = refl
some-if false true x y z e = refl
some-if false false x y z e = e

some-follow {ℓ κ} :
    {A : Type ℓ} {B : Type κ} (o : Option A) (x : B) (f : A → Option B) (g : A → B)
    → ((a : A) → f a ≡ some (g a))
    → ◌≡◌ {A = Option B}
        (elim o [ none ↦ some x | some a ↦ f a ])
        (some (elim o [ none ↦ x | some a ↦ g a ]))
some-follow none x f g h = refl
some-follow (some a) x f g h = h a

module _ {Inode : Type 0} (dirs : Directories Inode) (nameiparent : Bool) where
  -- The walk along a list of names.
  pub walk : Inode → List (List ℕ) → Lookup Inode
  unfolding is_nil
  walk ip [] = if nameiparent then missing else inode ip
  walk ip (e ∷ es) =
      if not (dirs.is_dir ip)
      then missing
      else if nameiparent && is_nil es
      then parent ip (take dirsiz e)
      else elim (dirs.dirlookup ip (take dirsiz e)) [ none ↦ missing | some ip' ↦ walk ip' es ]

  -- A round of the loop, by the result of skipelem.
  round-walk :
      (fuel : ℕ) (ip : Inode) (ns : List (List ℕ)) (o : Option (List ℕ × List ℕ))
      → Next ns o
      → ((ip' : Inode) (rest : List ℕ)
          → length (names rest) + 1 ≡ length ns
          → walk_from dirs nameiparent fuel ip' rest ≡ some (walk ip' (names rest)))
      → (elim o [
        | none ↦ some (if nameiparent then missing else inode ip)
        | some (name, rest) ↦
            if not (dirs.is_dir ip)
            then some missing
            else if nameiparent && is_end rest
            then some (parent ip name)
            else elim (dirs.dirlookup ip name) [
              | none ↦ some missing
              | some ip' ↦ walk_from dirs nameiparent fuel ip' rest
            ]
      ])
        ≡ some (walk ip ns)
  unfolding walk
  round-walk fuel ip ns none (at_end n) h = rw n refl
  round-walk fuel ip ns (some _) (next e rest n s) h =
      let l : length (names rest) + 1 ≡ length ns = omega (arith, ap length n) in
      rw (n, is_end-names rest s)
        (some-if (not (dirs.is_dir ip)) (nameiparent && is_nil (names rest)) missing
          (parent ip (take dirsiz e)) _
          (some-follow (dirs.dirlookup ip (take dirsiz e)) missing
            (λ i. walk_from dirs nameiparent fuel i rest) (λ i. walk i (names rest))
            (λ i. h i rest l)))

  walk_from-walk :
      (fuel : ℕ) (ip : Inode) (path : List ℕ)
      → length (names path) < fuel
      → walk_from dirs nameiparent fuel ip path ≡ some (walk ip (names path))
  unfolding walk_from
  walk_from-walk zero ip path h = absurd (omega arith)
  walk_from-walk (suc fuel) ip path h =
      round-walk fuel ip (names path) (skipelem path) (skipelem-Next path)
        (λ ip' rest e. walk_from-walk fuel ip' rest (omega arith))

  -- namex follows the names of a path from the root, if the path begins with a slash, and from the
  -- working directory otherwise: each name is looked up, cut to DIRSIZ bytes, in the directory that
  -- the names before it lead to. Slashes in a row count as one, and a trailing one is ignored. With
  -- nameiparent it stops at the directory of the last name. One round for each name and one more are
  -- enough.
  pub namex_lem :
      (fuel : ℕ) (root cwd : Inode) (path : List ℕ)
      → length (names path) < fuel
      → namex dirs nameiparent fuel root cwd path
        ≡ some (walk (if is_absolute path then root else cwd) (names path))
  unfolding namex is_absolute
  namex_lem fuel root cwd [] h = walk_from-walk fuel cwd [] h
  namex_lem fuel root cwd (c ∷ path) h =
      walk_from-walk fuel (if c == b'/' then root else cwd) (c ∷ path) h
