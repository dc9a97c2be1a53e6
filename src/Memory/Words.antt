-- ===== src/Memory/Words.antt =====
-- Words in the byte-addressed memory: the entries of page tables (vm.c) and of indirect blocks (fs.c).
use os_ca.Prelude.{
  ℕ, ◌+◌, ◌*◌, ◌/◌, ◌%◌, ◌^◌, ◌<◌, ◌≤◌, ◌≡◌, ◌≢◌, refl, arith, ◌⊎◌, inl, inr, Bool-cases, ltb,
}
use os_ca.Memory.{Memory, int_at, put_int}

digits_of :
    (v : ℕ)
    → v < 2 ^ 32
    → v % 2 ^ 8
        + 2 ^ 8 * (v / 2 ^ 8 % 2 ^ 8)
        + 2 ^ 16 * (v / 2 ^ 16 % 2 ^ 8)
        + 2 ^ 24 * (v / 2 ^ 24 % 2 ^ 8)
      ≡ v
digits_of v h = omega arith

module _ (b : Memory) (at v : ℕ) where
  byte_0 : put_int b at v at ≡ v % 2 ^ 8
  byte_0 = ground arith

  byte_1 : put_int b at v (at + 1) ≡ v / 2 ^ 8 % 2 ^ 8
  byte_1 = ground arith

  byte_2 : put_int b at v (at + 2) ≡ v / 2 ^ 16 % 2 ^ 8
  byte_2 = ground arith

  byte_3 : put_int b at v (at + 3) ≡ v / 2 ^ 24 % 2 ^ 8
  byte_3 = ground arith

  -- A word that has been written is read back.
  pub int_at-put_int : v < 2 ^ 32 → int_at (put_int b at v) at ≡ v
  int_at-put_int h = rw (byte_0, byte_1, byte_2, byte_3) (digits_of v h)

  pub byte_other : (j : ℕ) → (j < at) ⊎ (at + 3 < j) → put_int b at v j ≡ b j
  byte_other j o = ground arith

  pub put_int-bytes : ((i : ℕ) → b i < 256) → (i : ℕ) → put_int b at v i < 256
  put_int-bytes h i = ground (arith, h i)

-- Writing a word changes no other word.
pub int_at-put_int_apart :
    (b : Memory) (at at' v : ℕ)
    → (at + 4 ≤ at') ⊎ (at' + 4 ≤ at)
    → int_at (put_int b at v) at' ≡ int_at b at'
int_at-put_int_apart b at at' v o =
    rw
      (
        byte_other b at v at' (ground arith),
        byte_other b at v (at' + 1) (ground arith),
        byte_other b at v (at' + 2) (ground arith),
        byte_other b at v (at' + 3) (ground arith),
      )
      refl

pub int_at-put_int_other :
    (b : Memory) (i j v : ℕ) → i ≢ j → int_at (put_int b (4 * i) v) (4 * j) ≡ int_at b (4 * j)
int_at-put_int_other b i j v ne =
    int_at-put_int_apart b (4 * i) (4 * j) v
      (elim (Bool-cases (ltb i j)) [ inl t ↦ inl (ground arith) | inr t ↦ inr (ground arith) ])

-- A word of a memory is four of its bytes.
pub int_at-same :
    (b b' : Memory) (at : ℕ)
    → ((i : ℕ) → at ≤ i → i < at + 4 → b i ≡ b' i)
    → int_at b at ≡ int_at b' at
int_at-same b b' at h =
    rw
      (
        h at (omega arith) (omega arith),
        h (at + 1) (omega arith) (omega arith),
        h (at + 2) (omega arith) (omega arith),
        h (at + 3) (omega arith) (omega arith),
      )
      refl

pub int_at-zero : (b : Memory) (at : ℕ) → ((i : ℕ) → i < at + 4 → b i ≡ 0) → int_at b at ≡ 0
int_at-zero b at h =
    rw
      (
        h at (omega arith),
        h (at + 1) (omega arith),
        h (at + 2) (omega arith),
        h (at + 3) (omega arith),
      )
      refl

pub int_at-bounded : (b : Memory) (at : ℕ) → ((i : ℕ) → b i < 256) → int_at b at < 2 ^ 32
int_at-bounded b at h = omega (arith, h at, h (at + 1), h (at + 2), h (at + 3))
