-- ===== src/RunQueue/Links.antt =====
-- A list linked through `next_run` holds a sequence of processes; what the walks of enqueue and
-- dequeue (proc.c) find in it, and what a change of one link does to it.
use os_ca.Prelude.{
  ℕ, zero, suc, ◌<◌, ◌≡◌, true, false, Option, none, some, List, [], ◌∷◌, ◌++◌, arith, length,
  contains, nodup, erase, update, ◌==◌,
}
use os_ca.Kernel.{Proc, set_next}
use os_ca.RunQueue.{tail_of, find_prev}

abbrev pub Links : (ℕ → Proc) → Option ℕ → List ℕ → Type 0
Links ps start [] = start ≡ none
Links ps start (i ∷ q) = (start ≡ some i) × Links ps (ps i).next_run q

abbrev pub last : ℕ → List ℕ → ℕ
last i [] = i
last i (j ∷ q) = last j q

-- The process before `p` in the sequence that starts with `i`.
abbrev pub before : ℕ → List ℕ → ℕ → ℕ
before i [] p = i
before i (j ∷ q) p = elim (j == p) [ true ↦ i | false ↦ before j q p ]

pub contains-last : (i : ℕ) (q : List ℕ) → contains (last i q) (i ∷ q) ≡ true
contains-last i [] = ground arith
contains-last i (j ∷ q) = ground (arith, contains-last j q)

pub contains-before : (i : ℕ) (q : List ℕ) (p : ℕ) → contains (before i q p) (i ∷ q) ≡ true
contains-before i [] p = ground arith
contains-before i (j ∷ q) p = ground (arith, contains-before j q p)

module _ (ps : ℕ → Proc) where
  -- A change of a process outside the list is not seen along the list.
  pub Links-update :
      (p : ℕ) (x : Proc) (start : Option ℕ) (q : List ℕ)
      → contains p q ≡ false
      → Links ps start q
      → Links (update ps p x) start q
  Links-update p x start [] h l = l
  Links-update p x start (i ∷ q) h l = ground (arith, Links-update p x (ps i).next_run q)

  pub tail_of-last :
      (fuel i : ℕ) (q : List ℕ)
      → length q < fuel
      → Links ps (ps i).next_run q
      → tail_of fuel ps i ≡ some (last i q)
  unfolding tail_of
  tail_of-last zero i q h l = absurd (ground arith)
  tail_of-last (suc fuel) i [] h l = ground arith
  tail_of-last (suc fuel) i (j ∷ q) h l = ground (arith, tail_of-last fuel j q)

  pub Links-snoc :
      (p i : ℕ) (q : List ℕ)
      → contains p (i ∷ q) ≡ false
      → nodup (i ∷ q) ≡ true
      → (ps p).next_run ≡ none
      → Links ps (ps i).next_run q
      → let ps' = set_next ps (last i q) (some p) in Links ps' (ps' i).next_run (q ++ p ∷ [])
  Links-snoc p i [] a d n l = ground arith
  Links-snoc p i (j ∷ q) a d n l = ground (arith, Links-snoc p j q, contains-last j q)

  pub find_prev_absent :
      (fuel i p : ℕ) (q : List ℕ)
      → length q < fuel
      → contains p q ≡ false
      → Links ps (ps i).next_run q
      → find_prev fuel ps i p ≡ some none
  unfolding find_prev
  find_prev_absent zero i p q h a l = absurd (ground arith)
  find_prev_absent (suc fuel) i p [] h a l = ground arith
  find_prev_absent (suc fuel) i p (j ∷ q) h a l = ground (arith, find_prev_absent fuel j p q)

  pub find_prev_present :
      (fuel i p : ℕ) (q : List ℕ)
      → length q < fuel
      → contains p q ≡ true
      → Links ps (ps i).next_run q
      → find_prev fuel ps i p ≡ some (some (before i q p))
  unfolding find_prev
  find_prev_present zero i p q h a l = absurd (ground arith)
  find_prev_present (suc fuel) i p [] h a l = absurd (ground arith)
  find_prev_present (suc fuel) i p (j ∷ q) h a l = ground (arith, find_prev_present fuel j p q)

  -- The list after the head, once `p` is unlinked from it.
  pub Links-erase :
      (p i : ℕ) (q : List ℕ)
      → contains p q ≡ true
      → nodup (i ∷ q) ≡ true
      → Links ps (ps i).next_run q
      → let ps' = set_next ps (before i q p) (ps p).next_run in
        Links ps' (ps' i).next_run (erase p q)
  Links-erase p i [] a d l = absurd (ground arith)
  Links-erase p i (j ∷ q) a d l = ground (
    arith,
    Links-update i (record (ps i) { next_run = (ps p).next_run }) (ps j).next_run q,
    Links-erase p j q,
    contains-before j q p,
  )

-- A list is followed through `next_run` alone.
pub Links-same :
    (ps ps' : ℕ → Proc) (start : Option ℕ) (q : List ℕ)
    → ((i : ℕ) → (ps' i).next_run ≡ (ps i).next_run)
    → Links ps start q
    → Links ps' start q
Links-same ps ps' start [] h l = l
Links-same ps ps' start (i ∷ q) h l = (l.0, rw (h i) (Links-same ps ps' (ps i).next_run q h l.1))
