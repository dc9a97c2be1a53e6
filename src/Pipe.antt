-- ===== src/Pipe.antt =====
-- pipe.c: a ring of PIPESIZE bytes with two 32-bit counters. A part of pipewrite or piperead between
-- two sleeps, during which p->lock is held, is one call; a call that sleeps says what is left to do.
-- `killed` is the caller's `killed` flag. wakeup on the pipe's channels is not part of the result.
pub mod Contents
pub mod Refine
use os_ca.Prelude.{
  ℕ, zero, suc, ◌+◌, ◌%◌, Bool, true, false, ◌&&◌, ◌||◌, not, List, [], ◌∷◌, if◌then◌else◌, ◌==◌,
  update, add32,
}

abbrev pub pipe_size : ℕ
pipe_size = 512

pub record Pipe : Type 0 where
  pub bytes : ℕ → ℕ
  pub nread : ℕ
  pub nwrite : ℕ
  pub readopen : Bool
  pub writeopen : Bool

-- The assignments of pipealloc, over the bytes that the page held.
abbrev pub pipealloc : (ℕ → ℕ) → Pipe
pipealloc bytes = record { bytes = bytes; nread = 0; nwrite = 0; readopen = true; writeopen = true }

-- The Boolean says that the page is freed.
pub pipeclose : Pipe → Bool → Pipe × Bool
pipeclose p writable =
    let p' = if writable then record p { writeopen = false } else record p { readopen = false } in
    (p', not p'.readopen && not p'.writeopen)

abbrev pub is_full : Pipe → Bool
is_full p = p.nwrite == add32 p.nread pipe_size

abbrev pub is_empty : Pipe → Bool
is_empty p = p.nread == p.nwrite

-- `p->data[p->nwrite++ % PIPESIZE] = x`
abbrev pub put : Pipe → ℕ → Pipe
put p x = record p { bytes = update p.bytes (p.nwrite % pipe_size) x; nwrite = add32 p.nwrite 1 }

-- All bytes written, -1, or asleep with the bytes left.
pub data WriteResult : Type 0 where
  written : Pipe → WriteResult
  refused : Pipe → WriteResult
  write_sleeps : Pipe → List ℕ → WriteResult

pub pipewrite : Pipe → Bool → List ℕ → WriteResult
pipewrite p killed [] = written p
pipewrite p killed (x ∷ xs) =
    let rest = pipewrite (put p x) killed xs in
    let full = if not p.readopen || killed then refused p else write_sleeps p (x ∷ xs) in
    if is_full p then full else rest

-- The bytes read, -1, or asleep.
pub data ReadResult : Type 0 where
  bytes_read : Pipe → List ℕ → ReadResult
  read_refused : ReadResult
  read_sleeps : ReadResult

abbrev pub advance : Pipe → Pipe
advance p = record p { nread = add32 p.nread 1 }

-- The copy loop of piperead, with `n` rounds left.
pub read_copy : ℕ → Pipe → Pipe × List ℕ
read_copy zero p = (p, [])
read_copy (suc n) p =
    let (p', xs) = read_copy n (advance p) in
    if is_empty p then (p, []) else (p', p.bytes (p.nread % pipe_size) ∷ xs)

pub piperead : Pipe → Bool → ℕ → ReadResult
unfolding read_copy
piperead p killed n =
    let (p', xs) = read_copy n p in
    if is_empty p && p.writeopen
    then if killed then read_refused else read_sleeps
    else bytes_read p' xs
