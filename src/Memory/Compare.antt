-- ===== src/Memory/Compare.antt =====
-- memcmp (string.c) finds the first place where two ranges differ.
use os_ca.Prelude.{
  ℕ, zero, suc, ◌+◌, ◌<◌, ◌≡◌, ◌∙◌, ◌≢◌, Option, none, some, arith, ◌==◌, Bool-cases, inl, inr, ap,
}
use os_ca.Memory.{Memory, memcmp}

-- What the result of memcmp says of the `n` bytes from `s` and from `t` on.
abbrev pub Compared : Memory → ℕ → ℕ → ℕ → Option (ℕ × ℕ) → Type 0
Compared m s t n none = (i : ℕ) → i < n → m (s + i) ≡ m (t + i)
Compared m s t n (some (a, b)) =
    (j : ℕ) × (j < n)
    × (a ≡ m (s + j))
    × (b ≡ m (t + j))
    × (a ≢ b)
    × ((i : ℕ) → i < j → m (s + i) ≡ m (t + i))

shift : (m : Memory) (s i : ℕ) → m (s + 1 + i) ≡ m (s + suc i)
shift m s i = ap m (omega arith)

agree :
    (m : Memory) (s t j : ℕ)
    → m s ≡ m t
    → ((i : ℕ) → i < j → m (s + 1 + i) ≡ m (t + 1 + i))
    → (i : ℕ) → i < suc j
    → m (s + i) ≡ m (t + i)
agree m s t j e h zero l = ap m (omega arith) ∙ e ∙ ap m (omega arith)
agree m s t j e h (suc i) l = cc (shift m s i, shift m t i, h i (omega arith))

further :
    (m : Memory) (s t n : ℕ) (r : Option (ℕ × ℕ))
    → m s ≡ m t
    → Compared m (s + 1) (t + 1) n r
    → Compared m s t (suc n) r
further m s t n none e h = agree m s t n e h
further m s t n (some (a, b)) e (j, l, h, h', ne, before) =
    (suc j, omega arith, h ∙ shift m s j, h' ∙ shift m t j, ne, agree m s t j e before)

-- `memcmp` finds no difference just if the two ranges hold the same `n` bytes; otherwise it returns the
-- two bytes at the first place where they differ.
pub memcmp_lem : (m : Memory) (s t n : ℕ) → Compared m s t n (memcmp m s t n)
unfolding memcmp
memcmp_lem m s t zero = λ i l. absurd (omega arith)
memcmp_lem m s t (suc n) = elim (Bool-cases (m s == m t)) [
  | inl h ↦ rw h (further m s t n _ (ground arith) (memcmp_lem m (s + 1) (t + 1) n))
  | inr h ↦ rw h (
    0,
    omega arith,
    ap m (omega arith),
    ap m (omega arith),
    ground arith,
    λ i l. absurd (omega arith),
  )
]
