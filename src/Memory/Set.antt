-- ===== src/Memory/Set.antt =====
-- memset (string.c) writes the same bytes with words as with bytes.
use os_ca.Prelude.{
  ℕ, zero, suc, ◌+◌, ◌*◌, ◌/◌, ◌%◌, ◌^◌, ◌<◌, ◌≡◌, ◌∙◌, ◌&&◌, arith, if◌then◌else◌, ltb, leb, ◌==◌,
  update, Bool-cases, inl, inr, refl,
}
use os_ca.Memory.{Memory, put_int, stosb, stosl, memset}

-- `n` bytes from `dst` on are `c`.
abbrev pub filled : ℕ → Memory → ℕ → ℕ → Memory
filled n m dst c a = if leb dst a && ltb a (dst + n) then c % 2 ^ 8 else m a

stosb_lem : (n : ℕ) (m : Memory) (d c a : ℕ) → stosb n m d c a ≡ filled n m d c a
unfolding stosb
stosb_lem zero m d c a = ground arith
stosb_lem (suc n) m d c a = stosb_lem n (update m d (c % 2 ^ 8)) (d + 1) c a ∙ ground arith

-- The word whose four bytes are `c`.
abbrev four : ℕ → ℕ
four c = 2 ^ 24 * c + 2 ^ 16 * c + 2 ^ 8 * c + c

put_int-four : (m : Memory) (d c a : ℕ) → c < 256 → put_int m d (four c) a ≡ filled 4 m d c a
put_int-four m d c a h =
    let b0 : four c % 2 ^ 8 ≡ c % 2 ^ 8 = omega arith in
    let b1 : four c / 2 ^ 8 % 2 ^ 8 ≡ c % 2 ^ 8 = omega arith in
    let b2 : four c / 2 ^ 16 % 2 ^ 8 ≡ c % 2 ^ 8 = omega arith in
    let b3 : four c / 2 ^ 24 % 2 ^ 8 ≡ c % 2 ^ 8 = omega arith in rw (b0, b1, b2, b3) (ground arith)

stosl_lem :
    (n : ℕ) (m : Memory) (d c a : ℕ) → c < 256 → stosl n m d (four c) a ≡ filled (4 * n) m d c a
unfolding stosl
stosl_lem zero m d c a h = ground arith
stosl_lem (suc n) m d c a h =
    stosl_lem n (put_int m d (four c)) (d + 4) c a h ∙ rw (put_int-four m d c a h) (ground arith)

-- memset makes each of the `n` bytes from `dst` on the low byte of `c`, whether it writes words or bytes, and
-- changes no other byte.
pub memset_lem : (m : Memory) (dst c n a : ℕ) → memset m dst c n a ≡ filled n m dst c a
unfolding memset
memset_lem m dst c n a = elim (Bool-cases (dst % 4 == 0 && n % 4 == 0)) [
  | inl t ↦
      let whole : 4 * (n / 4) ≡ n = ground (arith, t) in
      let low : c % 2 ^ 8 % 2 ^ 8 ≡ c % 2 ^ 8 = omega arith in
      rw t (stosl_lem (n / 4) m dst (c % 2 ^ 8) a (omega arith) ∙ rw (whole, low) refl)
  | inr f ↦ rw f (stosb_lem n m dst c a)
]
