-- ===== src/Pipe/Contents.antt =====
-- The bytes that a pipe (pipe.c) holds, oldest first, and what a put or an advance does to them.
use os_ca.Prelude.{
  ℕ, zero, suc, ◌%◌, ◌^◌, ◌<◌, ◌≤◌, ◌≡◌, refl, ◌≢◌, false, List, [], ◌∷◌, ◌++◌, arith, length,
  update, update_self, update_of_ne, add32, sub32, ap,
}
use os_ca.Pipe.{Pipe, pipe_size, is_full, is_empty, put, advance}

-- Both counters are 32-bit words, and at most PIPESIZE bytes are held.
pub record IsPipe (p : Pipe) : Type 0 where
  pub reads : p.nread < 2 ^ 32
  pub writes : p.nwrite < 2 ^ 32
  pub fits : sub32 p.nwrite p.nread ≤ pipe_size

-- The `n` bytes from counter `r` on.
abbrev pub slots : (ℕ → ℕ) → ℕ → ℕ → List ℕ
slots d r zero = []
slots d r (suc n) = d (r % pipe_size) ∷ slots d (add32 r 1) n

abbrev pub contents : Pipe → List ℕ
contents p = slots p.bytes p.nread (sub32 p.nwrite p.nread)

pub length-slots : (d : ℕ → ℕ) (r n : ℕ) → length (slots d r n) ≡ n
length-slots d r zero = refl
length-slots d r (suc n) = ap suc (length-slots d (add32 r 1) n)

-- A write just behind the `n` bytes appends to them.
slots-snoc :
    (d : ℕ → ℕ) (x r n w : ℕ)
    → n < pipe_size
    → r < 2 ^ 32
    → w ≡ add32 r n
    → slots (update d (w % pipe_size) x) r (suc n) ≡ slots d r n ++ x ∷ []
slots-snoc d x r zero w h hr e =
    let same : r % pipe_size ≡ w % pipe_size = omega arith in
    rw (same, update_self d (w % pipe_size) x) refl
slots-snoc d x r (suc n) w h hr e =
    let ne : w % pipe_size ≢ r % pipe_size = omega arith in
    rw (update_of_ne d x ne) (
      ap (λ (l : List ℕ). d (r % pipe_size) ∷ l)
        (slots-snoc d x (add32 r 1) n w (omega arith) (omega arith) (omega arith)))

pub put-IsPipe : {p : Pipe} (x : ℕ) → IsPipe p → is_full p ≡ false → IsPipe (put p x)
put-IsPipe x v h = ground arith

pub contents-put :
    {p : Pipe} (x : ℕ) → IsPipe p → is_full p ≡ false → contents (put p x) ≡ contents p ++ x ∷ []
contents-put {p} x v h =
    let more : sub32 (add32 p.nwrite 1) p.nread ≡ suc (sub32 p.nwrite p.nread) = ground arith in
    rw more (
      slots-snoc p.bytes x p.nread (sub32 p.nwrite p.nread) p.nwrite (ground arith) v.reads
        (ground arith))

pub advance-IsPipe : {p : Pipe} → IsPipe p → is_empty p ≡ false → IsPipe (advance p)
advance-IsPipe v h = ground arith

pub contents-advance :
    {p : Pipe}
    → IsPipe p
    → is_empty p ≡ false
    → contents p ≡ p.bytes (p.nread % pipe_size) ∷ contents (advance p)
contents-advance {p} v h =
    let more : sub32 p.nwrite p.nread ≡ suc (sub32 p.nwrite (add32 p.nread 1)) = ground arith in
    rw more refl
