-- ===== src/Files/Counts.antt =====
-- The reference counts of file.c against a count of the references that are held.
use os_ca.Prelude.{
  ℕ, zero, suc, ◌+◌, ◌-◌, ◌<◌, ◌≤◌, ◌≡◌, refl, ap, subst, ◌≢◌, Option, none, some, arith, ◌==◌,
  update, sub32, slt32, Bool-cases, inl, inr, ◌^◌,
}
use os_ca.Files.{
  fd_none, FileTable, nfile, filealloc_from, filealloc, filedup, fileclose, Closing, nothing_more,
  close_kind,
}

-- The references that descriptors hold, for each file.
abbrev pub Held : Type 0
Held = ℕ → ℕ

-- Every count is the number of the references, which is below 2 ^ 31 - 1.
unfoldable pub IsCounted : FileTable → Held → Type 0
IsCounted t held = (f : ℕ) → ((t f).ref ≡ held f) × (held f < 2 ^ 31 - 1)

-- What a call does to the table and to the references.
pub data Step (t : FileTable) (held : Held) : FileTable → Held → Type 0 where
  allocates :
      {t' : FileTable} (f : ℕ) → filealloc t ≡ some (f, t') → Step t held t' (update held f 1)
  shares :
      {t' : FileTable} (f : ℕ)
      → 0 < held f
      → held f + 1 < 2 ^ 31 - 1
      → filedup t f ≡ some t'
      → Step t held t' (update held f (held f + 1))
  closes :
      {t' : FileTable} {c : Closing} (f : ℕ)
      → 0 < held f
      → fileclose t f ≡ some (t', c)
      → Step t held t' (update held f (held f - 1))

-- What filealloc does, from entry `lo` on and below `hi`.
pub Allocates : FileTable → ℕ → ℕ → Option (ℕ × FileTable) → Type 0
Allocates t lo hi none = (f : ℕ) → lo ≤ f → f < hi → (t f).ref ≢ 0
Allocates t lo hi (some (f, t')) =
    (lo ≤ f) × (f < hi) × ((t f).ref ≡ 0) × (t' ≡ update t f (record (t f) { ref = 1 }))

on :
    (t : FileTable) (lo hi : ℕ) (r : Option (ℕ × FileTable))
    → (t lo).ref ≢ 0
    → Allocates t (lo + 1) hi r
    → Allocates t lo hi r
unfolding Allocates
on t lo hi none ne h =
    λ f a b. elim (Bool-cases (f == lo)) [ inl e ↦ ground arith | inr e ↦ h f (ground arith) b ]
on t lo hi (some (f, t')) ne (a, b, c, d) = (omega arith, b, c, d)

filealloc_from_lem :
    (n lo hi : ℕ) (t : FileTable) → n + lo ≡ hi → Allocates t lo hi (filealloc_from n lo t)
unfolding filealloc_from Allocates
filealloc_from_lem zero lo hi t e = λ f a b. absurd (omega arith)
filealloc_from_lem (suc n) lo hi t e = elim (Bool-cases ((t lo).ref == 0)) [
  | inl z ↦ rw z (omega arith, omega arith, ground arith, refl)
  | inr z ↦ rw z (on t lo hi _ (ground arith) (filealloc_from_lem n (lo + 1) hi t (omega arith)))
]

-- filealloc returns 0 just if every entry of the table is referenced. Otherwise it gives an entry that
-- has no reference one, and changes nothing else.
pub filealloc_lem : (t : FileTable) → Allocates t 0 nfile (filealloc t)
unfolding filealloc
filealloc_lem t = filealloc_from_lem nfile 0 nfile t refl

-- Each call of filealloc, filedup and fileclose keeps every count equal to the number of references
-- that are held, if a file is shared and closed by one that holds a reference.
pub Step-IsCounted :
    {t t' : FileTable} {held held' : Held}
    → IsCounted t held
    → Step t held t' held'
    → IsCounted t' held'
unfolding IsCounted filedup fileclose Allocates
Step-IsCounted {t} {t'} {held} v (allocates f e) =
    let (a, b, c, d) = subst (Allocates t 0 nfile) e (filealloc_lem t) in
    λ g. ground (arith, v g, ap (λ (x : FileTable). (x g).ref) d)
Step-IsCounted {t} {t'} {held} v (shares f p s e) = λ g. ground (arith, v f, v g)
Step-IsCounted {t} {t'} {held} v (closes f p e) = λ g. ground (arith, v f, v g)

-- For a file that is referenced, fileclose does not panic; it closes the pipe or puts the inode just
-- if the reference is the last one, and the entry can then be allocated again.
pub fileclose_lem :
    (t : FileTable) (held : Held) (f : ℕ)
    → IsCounted t held
    → 0 < held f
    → (t' : FileTable) × (c : Closing) × (fileclose t f ≡ some (t', c))
      × (1 < held f → (c ≡ nothing_more) × ((t' f).kind ≡ (t f).kind))
      × (held f ≡ 1 → (c ≡ close_kind (t f)) × ((t' f).ref ≡ 0) × ((t' f).kind ≡ fd_none))
unfolding IsCounted fileclose
fileclose_lem t held f v p = elim (Bool-cases (slt32 0 (sub32 (t f).ref 1))) [
  | inl h ↦ (
    update t f (record (t f) { ref = sub32 (t f).ref 1 }),
    nothing_more,
    ground (arith, v f),
    λ l. (refl, ground arith),
    λ l. absurd (ground (arith, v f)),
  )
  | inr h ↦ (
    update t f (record (t f) { ref = 0; kind = fd_none }),
    close_kind (t f),
    ground (arith, v f),
    λ l. absurd (ground (arith, v f)),
    λ l. (refl, ground arith, ground arith),
  )
]
