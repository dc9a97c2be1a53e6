-- ===== src/Memory/Move.antt =====
-- memmove (string.c) copies the bytes that the source range held before the call, whether or not the
-- ranges overlap.
use os_ca.Prelude.{
  ℕ, zero, suc, ◌+◌, ◌-◌, ◌≤◌, ◌≡◌, ◌∙◌, ◌&&◌, arith, if◌then◌else◌, ltb, leb, update, Bool-cases,
  inl, inr, ◌⊎◌,
}
use os_ca.Memory.{Memory, copy_down, copy_up, memmove}

-- The copy as one step: all bytes are read before any is written.
abbrev pub copied : ℕ → Memory → ℕ → ℕ → Memory
copied n m dst src a = if leb dst a && ltb a (dst + n) then m (src + (a - dst)) else m a

copy_up_lem :
    (n : ℕ) (m : Memory) (d s a : ℕ) → (d ≤ s) ⊎ (s + n ≤ d) → copy_up n m d s a ≡ copied n m d s a
unfolding copy_up
copy_up_lem zero m d s a h = ground arith
copy_up_lem (suc n) m d s a h =
    copy_up_lem n (update m d (m s)) (d + 1) (s + 1) a (ground arith) ∙ one
  where
    same_place : d + 1 ≤ a → s + 1 + (a - (d + 1)) ≡ s + (a - d)
    same_place l = omega arith

    one : copied n (update m d (m s)) (d + 1) (s + 1) a ≡ copied (suc n) m d s a
    one = elim (Bool-cases (leb (d + 1) a)) [
      | inl t ↦ rw (same_place (ground arith)) (ground arith)
      | inr f ↦ ground (arith, here)
    ]
      where
        here : a ≡ d → s + (a - d) ≡ s
        here e = omega arith

copy_down_lem :
    (n : ℕ) (m : Memory) (d s a : ℕ) → s ≤ d → copy_down n m (d + n) (s + n) a ≡ copied n m d s a
unfolding copy_down
copy_down_lem zero m d s a h = ground arith
copy_down_lem (suc n) m d s a h =
    rw (shift d, shift s) (copy_down_lem n (update m (d + n) (m (s + n))) d s a h ∙ one)
  where
    shift : (x : ℕ) → x + suc n - 1 ≡ x + n
    shift x = omega arith

    last_place : a ≡ d + n → s + (a - d) ≡ s + n
    last_place e = omega arith

    one : copied n (update m (d + n) (m (s + n))) d s a ≡ copied (suc n) m d s a
    one = ground (arith, last_place)

-- `memmove` leaves at each address of the destination range the byte that stood at the same place
-- of the source range before the call, and every other byte as it was, whether the ranges overlap
-- or not.
pub memmove_lem : (m : Memory) (dst src n a : ℕ) → memmove m dst src n a ≡ copied n m dst src a
unfolding memmove
memmove_lem m dst src n a = elim (Bool-cases (ltb src dst && ltb dst (src + n))) [
  | inl t ↦ rw t (copy_down_lem n m dst src a (ground arith))
  | inr f ↦ rw f (copy_up_lem n m dst src a (ground arith))
]

pub memmove-zero : (m : Memory) (dst src : ℕ) → memmove m dst src 0 ≡ m
unfolding memmove copy_down copy_up
memmove-zero m dst src = ground arith
