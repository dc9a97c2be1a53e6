-- ===== src/Pipe/Refine.antt =====
-- pipewrite and piperead (pipe.c) against a queue of at most PIPESIZE bytes.
use Prim.Native.Nat.{min}
use mathlib.Core.List.{append_assoc, append-nil}
use os_ca.Prelude.{
  ℕ, zero, suc, ◌<◌, ◌≡◌, refl, ◌∙◌, sym, ◌%◌, ◌⊎◌, Bool, true, false, not, ◌||◌, ◌&&◌, List, [],
  ◌∷◌, ◌++◌, arith, length, Bool-cases, inl, inr, ap, sub32, if◌then◌else◌,
}
use os_ca.Pipe.{
  Pipe, pipe_size, is_full, is_empty, put, advance, WriteResult, written, refused, write_sleeps,
  pipewrite, ReadResult, bytes_read, read_refused, read_sleeps, read_copy, piperead,
}
use os_ca.Pipe.Contents.{
  IsPipe, contents, length-slots, put-IsPipe, contents-put, advance-IsPipe, contents-advance,
}

pub length-contents : (p : Pipe) → length (contents p) ≡ sub32 p.nwrite p.nread
length-contents p = length-slots p.bytes p.nread (sub32 p.nwrite p.nread)

-- A write that stopped after `done`, at a full pipe.
pub record Stopped (p p' : Pipe) (xs done rest : List ℕ) : Type 0 where
  pub valid : IsPipe p'
  pub split : xs ≡ done ++ rest
  pub appended : contents p' ≡ contents p ++ done
  pub full : length (contents p') ≡ pipe_size
  pub more : 0 < length rest
  pub same_ends : (p'.readopen ≡ p.readopen) × (p'.writeopen ≡ p.writeopen)

-- What a call of pipewrite with the bytes `xs` may return, and what it means.
abbrev pub Writes : Pipe → Bool → List ℕ → WriteResult → Type 0
Writes p killed xs (written p') = IsPipe p' × (contents p' ≡ contents p ++ xs)
Writes p killed xs (refused p') =
    (done : List ℕ) × (rest : List ℕ) × Stopped p p' xs done rest
    × ((p.readopen ≡ false) ⊎ (killed ≡ true))
Writes p killed xs (write_sleeps p' rest) =
    (done : List ℕ) × Stopped p p' xs done rest × (p.readopen ≡ true) × (killed ≡ false)

full_stop :
    (p : Pipe) (x : ℕ) (xs : List ℕ)
    → IsPipe p
    → is_full p ≡ true
    → Stopped p p (x ∷ xs) [] (x ∷ xs)
full_stop p x xs v h = record {
  valid = v;
  split = refl;
  appended = sym (append-nil (contents p));
  full = length-contents p ∙ ground arith;
  more = omega arith;
  same_ends = (refl, refl);
}

Stopped-cons :
    {p p' : Pipe} (x : ℕ) {xs done rest : List ℕ}
    → IsPipe p
    → is_full p ≡ false
    → Stopped (put p x) p' xs done rest
    → Stopped p p' (x ∷ xs) (x ∷ done) rest
Stopped-cons {p} x {xs} {done} {rest} v h s = record {
  valid = s.valid;
  split = ap (λ (l : List ℕ). x ∷ l) s.split;
  appended = s.appended ∙ rw (contents-put x v h) (append_assoc (contents p) (x ∷ []) done);
  full = s.full;
  more = s.more;
  same_ends = s.same_ends;
}

-- Under the pipe's invariant `pipewrite` appends to the pipe's bytes: all of `xs`, or, if the pipe is
-- full before the end, a first part of `xs`. In that case it returns -1 if the read end is closed or
-- the caller is killed, and otherwise sleeps with the rest of `xs`, which is not empty. The invariant
-- is kept, so that there are never more than PIPESIZE bytes.
pub pipewrite_lem :
    (xs : List ℕ) (p : Pipe) (killed : Bool) → IsPipe p → Writes p killed xs (pipewrite p killed xs)
unfolding pipewrite
pipewrite_lem [] p killed v = (v, sym (append-nil (contents p)))
pipewrite_lem (x ∷ xs) p killed v = elim (Bool-cases (is_full p)) [
  | inl t ↦ rw t (stop (full_stop p x xs v t))
  | inr f ↦
      rw f (
        go f (pipewrite (put p x) killed xs) (pipewrite_lem xs (put p x) killed (put-IsPipe x v f)))
]
  where
    stop :
        Stopped p p (x ∷ xs) [] (x ∷ xs)
        → Writes p killed
            (x ∷ xs)
            (if not p.readopen || killed then refused p else write_sleeps p (x ∷ xs))
    stop s = elim (Bool-cases (not p.readopen || killed)) [
      | inl t ↦ rw t ([], x ∷ xs, s, ground arith)
      | inr f ↦ rw f ([], s, ground arith, ground arith)
    ]

    go :
        is_full p ≡ false
        → (r : WriteResult) → Writes (put p x) killed xs r
        → Writes p killed (x ∷ xs) r
    go f (written p') (v', e) =
        (v', e ∙ rw (contents-put x v f) (append_assoc (contents p) (x ∷ []) xs))
    go f (refused p') (done, rest, s, w) = (x ∷ done, rest, Stopped-cons x v f s, w)
    go f (write_sleeps p' rest) (done, s, a, b) = (x ∷ done, Stopped-cons x v f s, a, b)

-- The copy loop takes bytes from the front.
record Took (n : ℕ) (p : Pipe) (r : Pipe × List ℕ) : Type 0 where
  valid : IsPipe r.0
  split : contents p ≡ r.1 ++ contents r.0
  count : length r.1 ≡ min n (length (contents p))

read_copy-Took : (n : ℕ) (p : Pipe) → IsPipe p → Took n p (read_copy n p)
unfolding read_copy
read_copy-Took zero p v = record { valid = v; split = refl; count = omega arith }
read_copy-Took (suc n) p v = elim (Bool-cases (is_empty p)) [
  | inl t ↦ rw t (record { valid = v; split = refl; count = ground (arith, length-contents p) })
  | inr f ↦
      let r = read_copy-Took n (advance p) (advance-IsPipe v f) in
      rw f (record {
        valid = r.valid;
        split =
            contents-advance v f ∙ ap (λ (l : List ℕ). p.bytes (p.nread % pipe_size) ∷ l) r.split;
        count = omega (arith, r.count, ap length (contents-advance v f));
      })
]

-- What a call of piperead for `n` bytes may return, and what it means.
abbrev pub Reads : Pipe → Bool → ℕ → ReadResult → Type 0
Reads p killed n (bytes_read p' xs) =
    IsPipe p'
    × (contents p ≡ xs ++ contents p')
    × (length xs ≡ min n (length (contents p)))
    × ((0 < length (contents p)) ⊎ (p.writeopen ≡ false))
Reads p killed n read_refused = (length (contents p) ≡ 0) × (p.writeopen ≡ true) × (killed ≡ true)
Reads p killed n read_sleeps = (length (contents p) ≡ 0) × (p.writeopen ≡ true) × (killed ≡ false)

-- Under the pipe's invariant `piperead` takes from the front of the pipe's bytes the `n` that the
-- caller wants, or all if there are fewer; only if the pipe is empty and its write end is open does
-- it return -1 (to a killed caller) or sleep. The invariant is kept.
pub piperead_lem :
    (n : ℕ) (p : Pipe) (killed : Bool) → IsPipe p → Reads p killed n (piperead p killed n)
unfolding piperead
piperead_lem n p killed v = go (read_copy n p) (read_copy-Took n p v)
  where
    go :
        (r : Pipe × List ℕ)
        → Took n p r
        → Reads p killed n (
            if is_empty p && p.writeopen
            then if killed then read_refused else read_sleeps
            else bytes_read r.0 r.1)
    go r t = elim (Bool-cases (is_empty p && p.writeopen)) [
      | inl h ↦ rw h (stop h killed refl)
      | inr h ↦
          rw h (t.valid, t.split, t.count, ground (arith, length-contents p, v.reads, v.writes))
    ]
      where
        stop :
            (is_empty p && p.writeopen) ≡ true
            → (b : Bool) → killed ≡ b
            → Reads p killed n (if b then read_refused else read_sleeps)
        stop h true e = (ground (arith, length-contents p, v.reads), ground arith, e)
        stop h false e = (ground (arith, length-contents p, v.reads), ground arith, e)
