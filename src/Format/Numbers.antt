-- ===== src/Format/Numbers.antt =====
-- Numbers that printint (console.c) prints, and atoi (ulib.c) reads.
use os_ca.Prelude.{
  ℕ, zero, suc, ◌+◌, ◌*◌, ◌/◌, ◌%◌, ◌^◌, ◌<◌, ◌≤◌, ◌≡◌, ◌∙◌, refl, ap, sym, Bool, true, false, ◌&&◌,
  some, List, [], ◌∷◌, ◌++◌, ltb, ◌==◌, add32, sub32, mul32, slt32, length, arith, Option-cases,
  Bool-cases, inl, inr, ◌⊎◌,
}
use os_ca.Format.{digit, put_digits, emit, buf_size, printint, is_digit, atoi_from, atoi}

atoi_from-digit :
    (q r : ℕ) (ys : List ℕ)
    → r < 10
    → q * 10 + r < 2 ^ 31
    → atoi_from q (digit r ∷ ys) ≡ atoi_from (q * 10 + r) ys
unfolding atoi_from
atoi_from-digit q r ys h l =
    let small : digit r ≡ b'0' + r = ground arith in
    let is : is_digit (b'0' + r) ≡ true = ground arith in
    let next : sub32 (add32 (mul32 q 10) (b'0' + r)) b'0' ≡ q * 10 + r = omega arith in
    rw (small, is, next) refl

-- What is in `buf`, printed and read back.
atoi-emit :
    (room x : ℕ) (ds ys : List ℕ)
    → x < 2 ^ 31
    → put_digits room 10 x ≡ some ds
    → atoi_from 0 (emit ds ys) ≡ atoi_from x ys
unfolding put_digits emit
atoi-emit zero x ds ys h e = absurd (ground (arith, e))
atoi-emit (suc room) x ds ys h e = elim (Bool-cases (x / 10 == 0)) [
  | inl last ↦
      let one : digit (x % 10) ∷ [] ≡ ds = ground (arith, e, last) in
      let nothing_above : x / 10 ≡ 0 = ground (arith, last) in
      let whole : 0 * 10 + x % 10 ≡ x = omega (arith, nothing_above) in
      rw (sym one) (atoi_from-digit 0 (x % 10) ys (omega arith) (omega arith) ∙ rw whole refl)
  | inr more ↦ elim (Option-cases (put_digits room 10 (x / 10))) [
    | inl none_left ↦ absurd (ground (arith, e, more, none_left))
    | inr (ds', rest) ↦
        let both : digit (x % 10) ∷ ds' ≡ ds = ground (arith, e, more, rest) in
        let whole : x / 10 * 10 + x % 10 ≡ x = omega arith in
        rw (sym both) (
          atoi-emit room (x / 10) ds' (digit (x % 10) ∷ ys) (omega arith) rest
          ∙ atoi_from-digit (x / 10) (x % 10) ys (omega arith) (omega arith)
          ∙ ap (λ n. atoi_from n ys) whole)
  ]
]

-- `base ^ n`
abbrev pub power : ℕ → ℕ → ℕ
power base zero = 1
power base (suc n) = base * power base n

module _ (base : ℕ) (shrinks : (x b : ℕ) → x < base * b → x / base < b) where
  -- A number below `base ^ n` needs at most `n` bytes.
  put_digits-some :
      (n room x : ℕ)
      → x < power base n
      → n ≤ room
      → 0 < n
      → (ds : List ℕ) × (put_digits room base x ≡ some ds) × (length ds ≤ n)
  unfolding put_digits
  put_digits-some zero room x h l p = absurd (omega arith)
  put_digits-some (suc n) zero x h l p = absurd (omega arith)
  put_digits-some (suc zero) (suc room) x h l p =
      let below = shrinks x 1 h in (digit (x % base) ∷ [], ground (arith, below), omega arith)
  put_digits-some (suc (suc n)) (suc room) x h l p = elim (Bool-cases (x / base == 0)) [
    | inl last ↦ rw last (digit (x % base) ∷ [], refl, omega arith)
    | inr more ↦
        let (ds, e, m) =
          put_digits-some (suc n) room (x / base) (shrinks x (power base (suc n)) h) (omega arith)
            (omega arith) in
        rw (more, e) (digit (x % base) ∷ ds, refl, omega arith)
  ]

digits_10 :
    (x : ℕ) → x < 2 ^ 32 → (ds : List ℕ) × (put_digits buf_size 10 x ≡ some ds) × (length ds ≤ 10)
digits_10 x h =
    put_digits-some 10 (λ y b l. omega arith) 10 buf_size x (omega arith) (omega arith)
      (omega arith)

digits_16 :
    (x : ℕ) → x < 2 ^ 32 → (ds : List ℕ) × (put_digits buf_size 16 x ≡ some ds) × (length ds ≤ 8)
digits_16 x h =
    put_digits-some 16 (λ y b l. omega arith) 8 buf_size x (omega arith) (omega arith) (omega arith)

digits_lem :
    (base x : ℕ)
    → (base ≡ 10) ⊎ (base ≡ 16)
    → x < 2 ^ 32
    → (ds : List ℕ) × (put_digits buf_size base x ≡ some ds) × (length ds ≤ 10)
digits_lem base x (inl ten) h = rw ten (digits_10 x h)
digits_lem base x (inr sixteen) h =
    rw sixteen (let (ds, e, l) = digits_16 x h in (ds, e, omega arith))

sign-fits : (n : ℕ) → n ≤ 10 → ltb n buf_size ≡ true
sign-fits n h = ground arith

-- printint never writes past its 16 bytes: it returns for every `int` in base 10 and in base 16, with
-- its sign or without it.
pub printint-some :
    (xx base : ℕ) (sign : Bool)
    → xx < 2 ^ 32
    → (base ≡ 10) ⊎ (base ≡ 16)
    → (out : List ℕ) × (printint xx base sign ≡ some out)
unfolding printint
printint-some xx base sign h b = elim (Bool-cases (sign && slt32 xx 0)) [
  | inl negative ↦
      let (ds, e, l) = digits_lem base (sub32 0 xx) b (omega arith) in
      rw (negative, e, sign-fits (length ds) l) (emit (ds ++ b'-' ∷ []) [], refl)
  | inr positive ↦ let (ds, e, l) = digits_lem base xx b h in rw (positive, e) (emit ds [], refl)
]

-- What printint prints in base 10 of a number that is not negative, atoi reads back as this number,
-- whether the number is printed as a signed or as an unsigned one.
pub atoi-printint :
    (xx : ℕ) (sign : Bool)
    → xx < 2 ^ 31
    → (out : List ℕ) × (printint xx 10 sign ≡ some out) × (atoi out ≡ xx)
unfolding printint atoi
atoi-printint xx sign h =
    let positive : (sign && slt32 xx 0) ≡ false = ground arith in
    let (ds, e, l) = digits_10 xx (omega arith) in
    rw (positive, e) (emit ds [], refl, atoi-emit buf_size xx ds [] h e)
