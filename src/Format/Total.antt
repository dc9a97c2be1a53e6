-- ===== src/Format/Total.antt =====
-- cprintf (console.c) on every format.
use os_ca.Prelude.{
  ℕ, ◌+◌, ◌^◌, ◌<◌, ◌≡◌, ◌≢◌, ◌>>=◌, arith, refl, true, false, ◌||◌, Option, some, List, [], ◌∷◌,
  ◌++◌, if◌then◌else◌, ◌==◌, Bool-cases, inl, inr, either,
}
use os_ca.Format.{convert, format_from, cprintf, takes_arg, null_text}
use os_ca.Console.{char_int}
use mathlib.Core.List.{map}
use os_ca.Format.Numbers.{printint-some}

abbrev pub Prints : Option (List ℕ) → Type 0
Prints o = (out : List ℕ) × (o ≡ some out)

-- The texts that the conversions %s of a format print are null or can be read to their NUL.
abbrev pub IsReadable : (ℕ → Option (List ℕ)) → (ℕ → ℕ) → ℕ → List ℕ → Type 0
IsReadable text arg i [] = Unit
IsReadable text arg i (c ∷ []) = Unit
IsReadable text arg i (c ∷ d ∷ fmt) = elim (c == b'%') [
  | true ↦
      (d ≡ b's' → arg i ≢ 0 → Prints (text (arg i)))
      × IsReadable text arg (if takes_arg d then i + 1 else i) fmt
  | false ↦ IsReadable text arg i (d ∷ fmt)
]

shown-Prints :
    (text : ℕ → Option (List ℕ)) (arg : ℕ)
    → (arg ≢ 0 → Prints (text arg))
    → Prints (do s ← if arg == 0 then some null_text else text arg; some (map char_int s))
shown-Prints text arg h = elim (Bool-cases (arg == 0)) [
  | inl t ↦ rw t (_, refl)
  | inr t ↦ let (s, e) = h (ground (arith, t)) in rw t (rw e (map char_int s, refl))
]

convert-Prints :
    (text : ℕ → Option (List ℕ)) (c arg : ℕ)
    → arg < 2 ^ 32
    → (c ≡ b's' → arg ≢ 0 → Prints (text arg))
    → Prints (convert text c arg)
unfolding convert
convert-Prints text c arg h r =
    either Prints (c == b'd') (λ _. printint-some arg 10 true h (inl refl))
      (λ _.
        either Prints ((c == b'x') || (c == b'p')) (λ _. printint-some arg 16 false h (inr refl))
          (λ _.
            either Prints (c == b's') (λ t. shown-Prints text arg (r (ground (arith, t))))
              (λ _. either Prints (c == b'%') (λ _. (_, refl)) (λ _. (_, refl)))))

format_from-Prints :
    (text : ℕ → Option (List ℕ)) (arg : ℕ → ℕ) (i : ℕ) (fmt : List ℕ)
    → ((j : ℕ) → arg j < 2 ^ 32)
    → IsReadable text arg i fmt
    → Prints (format_from text arg i fmt)
unfolding format_from
format_from-Prints text arg i [] h r = ([], refl)
format_from-Prints text arg i (c ∷ []) h r =
    either Prints (c == b'%') (λ _. (_, refl)) (λ _. (_, refl))
format_from-Prints text arg i (c ∷ d ∷ fmt) h r = elim (Bool-cases (c == b'%')) [
  | inl conversion ↦
      let (readable, later) = conversion_of conversion r in
      let (out, e) = convert-Prints text d (arg i) (h i) readable in
      let (rest, f) = format_from-Prints text arg (if takes_arg d then i + 1 else i) fmt h later in
      rw (conversion, format_from) (rw (e, f) (out ++ rest, refl))
  | inr plain ↦
      let (rest, f) = format_from-Prints text arg i (d ∷ fmt) h (plain_of plain r) in
      rw (plain, format_from) (rw f (c ∷ rest, refl))
]
  where
    conversion_of :
        (c == b'%') ≡ true
        → IsReadable text arg i (c ∷ d ∷ fmt)
        → (d ≡ b's' → arg i ≢ 0 → Prints (text (arg i)))
          × IsReadable text arg (if takes_arg d then i + 1 else i) fmt
    conversion_of t r = rw (IsReadable, t) at r

    plain_of :
        (c == b'%') ≡ false → IsReadable text arg i (c ∷ d ∷ fmt) → IsReadable text arg i (d ∷ fmt)
    plain_of t r = rw (IsReadable, t) at r

-- cprintf prints something for every format that is not null, if each text that a %s in it prints is null or can
-- be read to its NUL: no conversion writes past the buffer of printint, and a `%` at the end of the
-- format, or before a letter that is no conversion, is no error.
pub cprintf-some :
    (text : ℕ → Option (List ℕ)) (arg : ℕ → ℕ) (fmt : List ℕ)
    → ((j : ℕ) → arg j < 2 ^ 32)
    → IsReadable text arg 0 fmt
    → (out : List ℕ) × (cprintf text arg (some fmt) ≡ some out)
unfolding cprintf
cprintf-some text arg fmt h r = format_from-Prints text arg 0 fmt h r
