-- ===== src/Arguments/Strings.antt =====
-- What fetchstr and argstr (syscall.c) say about the string that a caller passes.
use os_ca.Prelude.{
  ℕ, zero, suc, ◌+◌, ◌-◌, ◌<◌, ◌≡◌, ◌∙◌, ap, ◌≢◌, sym, arith, Option, none, some, leb, ◌==◌,
  Option-cases, inl, inr, either, subst, Bool-cases,
}
use os_ca.Memory.{strlen}
use os_ca.Memory.Text.{IsText, strlen_lem}
use os_ca.Arguments.{Caller, find_nul, fetchstr, argint, argstr}

-- The bytes from `a` to the end of the process: the string there ends at the first NUL, or does not end.
pub data TextAt (p : Caller) (a : ℕ) : Option ℕ → Type 0 where
  text : {n : ℕ} → a + n < p.sz → IsText p.mem a n → TextAt p a (some n)
  unending : ((i : ℕ) → a + i < p.sz → p.mem (a + i) ≢ 0) → TextAt p a none

find_nul_lem :
    (p : Caller) (a n i s : ℕ)
    → s ≡ a + i
    → s + n ≡ p.sz
    → ((j : ℕ) → j < i → p.mem (a + j) ≢ 0)
    → TextAt p a (find_nul n p.mem s i)
unfolding find_nul
find_nul_lem p a zero i s d e h = unending (λ j l. h j (omega arith))
find_nul_lem p a (suc n) i s d e h =
    either (TextAt p a) (p.mem s == 0)
      (λ z. text (omega arith) (record { bytes = h; ends = ap p.mem (sym d) ∙ ground arith }))
      (λ z. find_nul_lem p a n (suc i) (s + 1) (omega arith) (omega arith) (λ j l.
        elim (Bool-cases (j == i)) [
          | inl here ↦
              let same : p.mem (a + j) ≡ p.mem s = ap p.mem (ground arith) in rw same (ground arith)
          | inr before ↦ h j (ground arith)
        ]))

-- fetchstr looks at no byte outside the process, and at each address there: it yields the number of bytes
-- before the first NUL, or -1 when the bytes from the address to the end of the process hold none.
pub fetchstr_lem : (p : Caller) (a : ℕ) → TextAt p a (fetchstr p a)
unfolding fetchstr
fetchstr_lem p a =
    either (TextAt p a) (leb p.sz a) (λ e. unending (λ i l. absurd (ground arith)))
      (λ e.
        find_nul_lem p a (p.sz - a) 0 a (omega arith) (ground arith) (λ j l. absurd (omega arith)))

text_at :
    {p : Caller} {a n : ℕ} {o : Option ℕ}
    → o ≡ some n
    → TextAt p a o
    → (a + n < p.sz) × IsText p.mem a n
text_at {p} {a} {n} e (text {n = n'} l t) =
    let same : n' ≡ n = ground arith in subst (λ k. (a + k < p.sz) × IsText p.mem a k) same (l, t)
text_at e (unending h) = absurd (ground arith)

-- A string that argstr lets through starts at the argument and ends with a NUL inside the process, so
-- that the kernel's strlen on it stops, with the length that argstr has returned.
pub argstr-strlen :
    (p : Caller) (n a len fuel : ℕ)
    → argstr p n ≡ some (a, len)
    → len < fuel
    → (argint p n ≡ some a) × (a + len < p.sz) × (strlen fuel p.mem a ≡ some len)
unfolding argstr
argstr-strlen p n a len fuel e l = elim (Option-cases (argint p n)) [
  | inl missing ↦ absurd (ground (arith, missing))
  | inr (i, found) ↦ elim (Option-cases (fetchstr p i)) [
    | inl bad ↦ absurd (ground (arith, found, bad))
    | inr (k, good) ↦
        let here : i ≡ a = ground (arith, e, found, good) in
        let this : k ≡ len = ground (arith, e, found, good) in
        let (inside, t) =
          text_at (ap (fetchstr p) (sym here) ∙ good ∙ ap some this) (fetchstr_lem p a) in
        (found ∙ ap some here, inside, strlen_lem len fuel p.mem a l t)
  ]
]
