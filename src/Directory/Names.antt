-- ===== src/Directory/Names.antt =====
-- Names in directories: strncmp and strncpy of string.c.
use os_ca.Prelude.{
  ℕ, zero, suc, ◌+◌, ◌*◌, ◌/◌, ◌%◌, ◌^◌, ◌<◌, ◌≡◌, ◌≢◌, refl, ap, ◌∙◌, true, false, ◌&&◌, not, List,
  ◌∷◌, ◌==◌, arith, Bool-cases, inl, inr, slice, ==-of_ne,
}
use os_ca.Directory.{
  Bytes, next, strncmp, zeros, strncpy, byte_of, dirent, dirent_size, inum_of, name_of, is_match,
  is_unused,
}

-- Two names of at most `n` bytes agree up to and with their NUL.
abbrev pub SameName : ℕ → Bytes → Bytes → Type 0
SameName n p q = (i : ℕ) → i < n → ((j : ℕ) → j < i → p j ≢ 0) → p i ≡ q i

same-SameName :
    (n : ℕ) (p q : Bytes) → p 0 ≡ q 0 → SameName n (next p) (next q) → SameName (suc n) p q
same-SameName n p q e h zero l ne = e
same-SameName n p q e h (suc i) l ne = h i (omega arith) (λ j k. ne (suc j) (omega arith))

-- strncmp gives 0 just if the two names agree up to and with their NUL, or in their first `n` bytes.
pub strncmp_lem :
    (n : ℕ) (p q : Bytes)
    → ((i : ℕ) → p i < 256)
    → ((i : ℕ) → q i < 256)
    → (strncmp n p q ≡ 0 → SameName n p q) × (SameName n p q → strncmp n p q ≡ 0)
unfolding strncmp
strncmp_lem zero p q b c = (λ e i l ne. absurd (omega arith), λ s. refl)
strncmp_lem (suc n) p q b c =
    let rest = strncmp_lem n (next p) (next q) (λ i. b (suc i)) (λ i. c (suc i)) in
    let b0 = b 0 in
    let c0 = c 0 in
    elim (Bool-cases (not (p 0 == 0) && (p 0 == q 0))) [
      | inl t ↦
          let e : p 0 ≡ q 0 = ground (arith, t) in
          rw t (
            λ z. same-SameName n p q e (rest.0 z),
            λ s. rest.1 (λ i l ne. s (suc i) (omega arith) (λ j k. not_before t ne j k)),
          )
      | inr f ↦ rw f (
        λ z. ended f (omega (arith, z, b0, c0)),
        λ s.
            let e : p 0 ≡ q 0 = s 0 (omega arith) (λ j k. absurd (omega arith)) in
            rw e (omega (arith, c0)),
      )
    ]
  where
    not_before :
        (not (p 0 == 0) && (p 0 == q 0)) ≡ true
        → {i : ℕ} → ((j : ℕ) → j < i → next p j ≢ 0)
        → (j : ℕ) → j < suc i
        → p j ≢ 0
    not_before t ne zero k = ground (arith, t)
    not_before t ne (suc j) k = ne j (omega arith)

    ended : (not (p 0 == 0) && (p 0 == q 0)) ≡ false → p 0 ≡ q 0 → SameName (suc n) p q
    ended f e zero l ne = e
    ended f e (suc i) l ne = let n0 = ne 0 (omega arith) in absurd (ground (arith, f, e, n0))

-- Only the first `n` bytes count.
pub strncmp-same :
    (n : ℕ) (p q q' : Bytes) → ((i : ℕ) → i < n → q i ≡ q' i) → strncmp n p q ≡ strncmp n p q'
unfolding strncmp
strncmp-same zero p q q' h = refl
strncmp-same (suc n) p q q' h =
    rw
      (
        h 0 (omega arith),
        strncmp-same n (next p) (next q) (next q') (λ i l. h (suc i) (omega arith)),
      )
      refl

-- What strncpy writes is the same name.
pub strncmp-strncpy : (n : ℕ) (t : Bytes) → strncmp n t (byte_of (strncpy n t)) ≡ 0
unfolding strncmp strncpy byte_of
strncmp-strncpy zero t = refl
strncmp-strncpy (suc n) t = elim (Bool-cases (t 0 == 0)) [
  | inl z ↦ let e : t 0 ≡ 0 = ground (arith, z) in rw e refl
  | inr z ↦
      let self : (t 0 == t 0) ≡ true = ground arith in rw (z, self) (strncmp-strncpy n (next t))
]

pub byte_of-slice : (f : Bytes) (a n i : ℕ) → i < n → byte_of (slice f a n) i ≡ f (a + i)
unfolding byte_of
byte_of-slice f a zero i l = absurd (omega arith)
byte_of-slice f a (suc n) zero l = ap f (omega arith)
byte_of-slice f a (suc n) (suc i) l = byte_of-slice f (a + 1) n i (omega arith) ∙ ap f (omega arith)

zeros-bytes : (n i : ℕ) → byte_of (zeros n) i < 256
unfolding byte_of zeros
zeros-bytes zero i = omega arith
zeros-bytes (suc n) zero = omega arith
zeros-bytes (suc n) (suc i) = zeros-bytes n i

cons-bytes :
    {b : ℕ} (bs : List ℕ)
    → b < 256
    → ((i : ℕ) → byte_of bs i < 256)
    → (i : ℕ) → byte_of (b ∷ bs) i < 256
unfolding byte_of
cons-bytes bs h h' zero = h
cons-bytes bs h h' (suc i) = h' i

strncpy-bytes :
    (n : ℕ) (t : Bytes) → ((i : ℕ) → t i < 256) → (i : ℕ) → byte_of (strncpy n t) i < 256
unfolding byte_of strncpy zeros
strncpy-bytes zero t b i = omega arith
strncpy-bytes (suc n) t b i = elim (Bool-cases (t 0 == 0)) [
  | inl z ↦ rw z (zeros-bytes (suc n) i)
  | inr z ↦
      rw z (cons-bytes (strncpy n (next t)) (b 0) (strncpy-bytes n (next t) (λ k. b (suc k))) i)
]

pub dirent-bytes :
    (name : Bytes) (inum : ℕ)
    → ((i : ℕ) → name i < 256)
    → (i : ℕ) → byte_of (dirent name inum) i < 256
unfolding dirent byte_of
dirent-bytes name inum b zero = omega arith
dirent-bytes name inum b (suc zero) = omega arith
dirent-bytes name inum b (suc (suc i)) = strncpy-bytes 14 name b i

-- An entry is known by its 16 bytes.
abbrev pub SameEntry : Bytes → Bytes → Type 0
SameEntry e e' = (i : ℕ) → i < dirent_size → e i ≡ e' i

pub is_match-same : (name e e' : Bytes) → SameEntry e e' → is_match name e ≡ is_match name e'
unfolding is_match
is_match-same name e e' s =
    rw
      (
        s 0 (omega arith),
        s 1 (omega arith),
        strncmp-same 14 name (name_of e) (name_of e') (λ i l. s (2 + i) (omega arith)),
      )
      refl

pub is_unused-same : (e e' : Bytes) → SameEntry e e' → is_unused e ≡ is_unused e'
unfolding is_unused
is_unused-same e e' s = rw (s 0 (omega arith), s 1 (omega arith)) refl

-- The entry that dirlink makes has the name.
pub dirent-match :
    (name : Bytes) (inum : ℕ)
    → inum ≢ 0
    → inum < 2 ^ 16
    → (inum_of (byte_of (dirent name inum)) ≡ inum)
      × (is_match name (byte_of (dirent name inum)) ≡ true)
unfolding is_match dirent byte_of strncmp
dirent-match name inum ne l =
    let number : inum % 2 ^ 8 + 2 ^ 8 * (inum / 2 ^ 8 % 2 ^ 8) ≡ inum = omega arith in
    (number, rw (number, ==-of_ne ne, strncmp-strncpy 14 name) refl)
