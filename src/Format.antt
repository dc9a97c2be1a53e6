-- ===== src/Format.antt =====
-- The output of numbers and formats in console.c (printint, cprintf), and atoi of ulib.c. The output is
-- the list of what goes to consputc. A `none` is a write outside the 16 bytes of `buf`, the panic on a null format,
-- or a text that cannot be read to its NUL.
pub mod Numbers
pub mod Total
use os_ca.Prelude.{
  ℕ, zero, suc, ◌+◌, ◌-◌, ◌/◌, ◌%◌, Bool, true, false, ◌&&◌, Option, none, some, List, [], ◌∷◌,
  ◌++◌, if◌then◌else◌, ◌>>=◌, ltb, leb, ◌==◌, add32, sub32, mul32, slt32, length, ◌||◌,
}
use mathlib.Core.List.{map}
use os_ca.Console.{char_int}

-- `digits[d]`
abbrev pub digit : ℕ → ℕ
digit d = if ltb d 10 then b'0' + d else b'a' + (d - 10)

-- The digits of `x`, the lowest one first, with `room` bytes left in `buf`.
unfoldable pub put_digits : ℕ → ℕ → ℕ → Option (List ℕ)
put_digits zero base x = none
put_digits (suc room) base x =
    let rest = put_digits room base (x / base) in
    if x / base == 0
    then some (digit (x % base) ∷ [])
    else (do ds ← rest; some (digit (x % base) ∷ ds))

-- `while(--i >= 0) consputc(buf[i]);`, before what is printed after it.
unfoldable pub emit : List ℕ → List ℕ → List ℕ
emit [] out = out
emit (d ∷ ds) out = emit ds (d ∷ out)

abbrev pub buf_size : ℕ
buf_size = 16

-- `buf[i++] = '-'`
abbrev pub put_sign : Bool → List ℕ → Option (List ℕ)
put_sign negative ds =
    if negative
    then if ltb (length ds) buf_size then some (emit (ds ++ b'-' ∷ []) []) else none
    else some (emit ds [])

unfoldable pub printint : ℕ → ℕ → Bool → Option (List ℕ)
unfolding put_digits emit
printint xx base sign = do
  let negative = sign && slt32 xx 0
  ds ← put_digits buf_size base (if negative then sub32 0 xx else xx)
  put_sign negative ds

-- "(null)"
abbrev pub null_text : List ℕ
null_text = b'(' ∷ b'n' ∷ b'u' ∷ b'l' ∷ b'l' ∷ b')' ∷ []

-- What `%` and `c` print with the argument `arg`; `text` is the bytes before the NUL at an
-- address, `none` where a read of them faults or does not end.
pub convert : (ℕ → Option (List ℕ)) → ℕ → ℕ → Option (List ℕ)
unfolding printint
convert text c arg =
    if c == b'd'
    then printint arg 10 true
    else if (c == b'x') || (c == b'p')
    then printint arg 16 false
    else if c == b's'
    then (do s ← if arg == 0 then some null_text else text arg; some (map char_int s))
    else if c == b'%'
    then some (b'%' ∷ [])
    else some (b'%' ∷ c ∷ [])

-- The conversions that take an argument.
abbrev pub takes_arg : ℕ → Bool
takes_arg c = (c == b'd') || (c == b'x') || (c == b'p') || (c == b's')

-- The loop of cprintf over the bytes before the NUL of the format; `arg i` is the `i`-th argument.
pub format_from : (ℕ → Option (List ℕ)) → (ℕ → ℕ) → ℕ → List ℕ → Option (List ℕ)
unfolding convert
format_from text arg i [] = some []
format_from text arg i (c ∷ []) = if c == b'%' then some [] else some (c ∷ [])
format_from text arg i (c ∷ d ∷ fmt) = elim (c == b'%') [
  | true ↦ do
    out ← convert text d (arg i)
    rest ← format_from text arg (if takes_arg d then i + 1 else i) fmt
    some (out ++ rest)
  | false ↦ do rest ← format_from text arg i (d ∷ fmt); some (c ∷ rest)
]

-- A null format panics.
pub cprintf : (ℕ → Option (List ℕ)) → (ℕ → ℕ) → Option (List ℕ) → Option (List ℕ)
unfolding format_from
cprintf text arg none = none
cprintf text arg (some fmt) = format_from text arg 0 fmt

abbrev pub is_digit : ℕ → Bool
is_digit c = leb b'0' c && leb c b'9'

-- The loop of atoi with the number that it has read.
unfoldable pub atoi_from : ℕ → List ℕ → ℕ
atoi_from n [] = n
atoi_from n (c ∷ s) =
    let rest = atoi_from (sub32 (add32 (mul32 n 10) c) b'0') s in if is_digit c then rest else n

pub atoi : List ℕ → ℕ
unfolding atoi_from
atoi s = atoi_from 0 s
