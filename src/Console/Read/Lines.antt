-- ===== src/Console/Read/Lines.antt =====
-- What consoleread (console.c) hands to its caller.
use os_ca.Prelude.{
  ℕ, zero, suc, ◌-◌, ◌%◌, ◌^◌, ◌<◌, ◌≤◌, ◌≡◌, refl, ap, ◌∙◌, ◌≢◌, Bool, true, false, List, [], ◌∷◌,
  ◌++◌, arith, length, either, if◌then◌else◌, ltb, ◌==◌, add32, sub32,
}
use os_ca.Console.{Input, input_buf}
use os_ca.Console.Read.{
  ReadLine, returned, interrupted, waiting, with_byte, end_of_file, advance, consoleread,
}

-- The `n` bytes from counter `r` on.
abbrev pub ring : (ℕ → ℕ) → ℕ → ℕ → List ℕ
ring buf r zero = []
ring buf r (suc n) = buf (r % input_buf) ∷ ring buf (add32 r 1) n

-- The bytes that have been handed over and not been read.
abbrev pub pending : Input → List ℕ
pending s = ring s.buf s.r (sub32 s.w s.r)

-- Neither a newline nor an end of file.
abbrev pub AllPlain : List ℕ → Type 0
AllPlain [] = Unit
AllPlain (x ∷ xs) = (x ≢ b'\n') × (x ≢ end_of_file) × AllPlain xs

-- What a call that wants `n` more bytes makes of the pending bytes `all`: it stops when it has `n`, behind
-- a newline, at an end of file (which it leaves if it has bytes), or when no byte is left.
pub data Delivers (target : ℕ) (killed : Bool) (n : ℕ) (all : List ℕ) : ReadLine → Type 0 where
  filled :
      {s : Input} {xs : List ℕ}
      → all ≡ xs ++ pending s
      → length xs ≡ n
      → AllPlain xs
      → Delivers target killed n all (returned s xs)
  line :
      {s : Input} {xs : List ℕ} (ys : List ℕ)
      → xs ≡ ys ++ b'\n' ∷ []
      → all ≡ ys ++ b'\n' ∷ pending s
      → length ys < n
      → AllPlain ys
      → Delivers target killed n all (returned s xs)
  eof :
      {s : Input} {xs : List ℕ} (zs : List ℕ)
      → all ≡ xs ++ end_of_file ∷ zs
      → length xs < n
      → AllPlain xs
      → pending s ≡ (if ltb (n - length xs) target then end_of_file ∷ zs else zs)
      → Delivers target killed n all (returned s xs)
  stopped :
      {s : Input} {xs : List ℕ}
      → killed ≡ true
      → all ≡ xs
      → pending s ≡ []
      → length xs < n
      → AllPlain xs
      → Delivers target killed n all (interrupted s xs)
  asleep :
      {s : Input} {xs : List ℕ}
      → killed ≡ false
      → all ≡ xs
      → pending s ≡ []
      → length xs < n
      → AllPlain xs
      → Delivers target killed n all (waiting s xs)

Delivers-cons :
    {target : ℕ} {killed : Bool} {n : ℕ} {all : List ℕ} {r : ReadLine} (c : ℕ)
    → c ≢ b'\n'
    → c ≢ end_of_file
    → Delivers target killed n all r
    → Delivers target killed (suc n) (c ∷ all) (with_byte c r)
Delivers-cons c p q (filled e l a) = filled (ap (◌∷◌ c) e) (ap suc l) (p, q, a)
Delivers-cons c p q (line ys e f l a) =
    line (c ∷ ys) (ap (◌∷◌ c) e) (ap (◌∷◌ c) f) (omega arith) (p, q, a)
Delivers-cons {n} c p q (eof {xs} zs e l a f) =
    let same : suc n - suc (length xs) ≡ n - length xs = omega arith in
    eof zs (ap (◌∷◌ c) e) (omega arith) (p, q, a) (rw same f)
Delivers-cons c p q (stopped k e f l a) = stopped k (ap (◌∷◌ c) e) f (omega arith) (p, q, a)
Delivers-cons c p q (asleep k e f l a) = asleep k (ap (◌∷◌ c) e) f (omega arith) (p, q, a)

pub pending-advance :
    (s : Input)
    → s.r < 2 ^ 32
    → s.w < 2 ^ 32
    → s.r ≢ s.w
    → pending s ≡ s.buf (s.r % input_buf) ∷ pending (advance s)
pending-advance s h h' ne =
    let more : sub32 s.w s.r ≡ suc (sub32 s.w (add32 s.r 1)) = omega arith in rw more refl

pub pending-empty : (s : Input) → s.r ≡ s.w → s.w < 2 ^ 32 → pending s ≡ []
pending-empty s e h = let none_left : sub32 s.w s.r ≡ 0 = omega arith in rw none_left refl

-- A pass of `consoleread` hands over the bytes that the editor has released and that have not been read,
-- in their order and each once, up to the number that the caller wants. It returns when it has this
-- number, or behind the first newline, or before the first Ctrl-D: this one stays for the next call if
-- the caller gets bytes, and is taken by a call that gets none. With no byte left before that it returns
-- -1 to a killed caller, and sleeps otherwise.
pub consoleread_lem :
    (n : ℕ) (target : ℕ) (killed : Bool) (s : Input)
    → s.r < 2 ^ 32
    → s.w < 2 ^ 32
    → n ≤ target
    → Delivers target killed n (pending s) (consoleread target killed s n)
unfolding consoleread
consoleread_lem zero target killed s h h' l = filled refl refl tt
consoleread_lem (suc n) target killed s h h' l =
    either (Delivers target killed (suc n) (pending s)) (s.r == s.w)
      (λ e.
        let empty : pending s ≡ [] = pending-empty s (ground arith) h' in
        either (Delivers target killed (suc n) (pending s)) killed
          (λ k. stopped k empty empty (omega arith) tt)
          (λ k. asleep k empty empty (omega arith) tt))
      (λ ne.
        let first = pending-advance s h h' (ground arith) in
        let c = s.buf (s.r % input_buf) in
        either (Delivers target killed (suc n) (pending s)) (c == end_of_file)
          (λ e.
            let at_end : pending s ≡ end_of_file ∷ pending (advance s) =
              first ∙ ap (λ b. b ∷ pending (advance s)) (ground arith) in
            let whole : suc n - length {A = ℕ} [] ≡ suc n = omega arith in
            either (Delivers target killed (suc n) (pending s)) (ltb (suc n) target)
              (λ some_read.
                eof (pending (advance s)) at_end (omega arith) tt (rw whole (rw some_read at_end)))
              (λ none_read.
                eof (pending (advance s)) at_end (omega arith) tt (rw whole (rw none_read refl))))
          (λ x.
            either (Delivers target killed (suc n) (pending s)) (c == b'\n')
              (λ e.
                let is_line : c ≡ b'\n' = ground arith in
                line [] (ap (λ b. b ∷ []) is_line)
                  (first ∙ ap (λ b. b ∷ pending (advance s)) is_line) (omega arith) tt)
              (λ y. rw first (
                Delivers-cons c (ground arith) (ground arith)
                  (consoleread_lem n target killed (advance s) (omega arith) h' (omega arith))))))
