-- ===== src/RunQueue/Enqueue.antt =====
-- enqueue (proc.c) appends to a queue and disturbs no other.
use os_ca.Prelude.{
  ℕ, ◌<◌, ◌≡◌, refl, true, false, none, some, List, [], ◌∷◌, ◌++◌, arith, length, length-append,
  contains, contains-append, nodup-snoc, update, ◌==◌, inl, inr, length-le_of_nodup, Bool-cases,
}
use os_ca.Kernel.{Kernel, nproc, set_next}
use os_ca.RunQueue.{enqueue, detach, count_up, set_head}
use os_ca.RunQueue.Links.{Links, last, Links-update, Links-snoc, tail_of-last, contains-last}
use os_ca.RunQueue.Invariant.{Queues, SameButQueues}

-- The sequences of the queues after `p` has joined that of `c`.
abbrev pub joined : (ℕ → List ℕ) → ℕ → ℕ → ℕ → List ℕ
joined qs c p = update qs c (qs c ++ p ∷ [])

module _ {k : Kernel} {qs : ℕ → List ℕ} (v : Queues k qs) (c p : ℕ) (small : p < nproc)
    (free : (d : ℕ) → contains p (qs d) ≡ false) where
  -- There is room: `p` and the queued processes are distinct.
  length-lt : length (qs c) < nproc
  length-lt = ground (
    arith,
    length-le_of_nodup nproc (qs c ++ p ∷ []) (nodup-snoc p (qs c) (v.distinct c) (free c))
        (λ (a : ℕ) (h : contains a (qs c ++ p ∷ []) ≡ true).
          ground (arith, contains-append a (qs c) (p ∷ []), v.bounded c a)),
    length-append (qs c) (p ∷ []),
  )

  -- What `enqueue` returns.
  pub enqueue_result : (q : List ℕ) → Kernel
  enqueue_result [] = count_up (set_head (detach k p) c (some p)) c
  enqueue_result (i ∷ q) =
      count_up (record k { proc = set_next (detach k p).proc (last i q) (some p) }) c

  enqueue-eq : enqueue k c p ≡ some (enqueue_result (qs c))
  unfolding enqueue enqueue_result
  enqueue-eq = go (qs c) (v.links c) length-lt (free c)
    where
      go :
          (q : List ℕ)
          → Links k.proc (k.cpu c).runq q
          → length q < nproc
          → contains p q ≡ false
          → enqueue k c p ≡ some (enqueue_result q)
      go [] l s f = ground arith
      go (i ∷ q) l s f = ground (
        arith,
        tail_of-last (detach k p).proc nproc i q,
        Links-update k.proc p (record (k.proc p) { next_run = none }) (k.cpu c).runq (i ∷ q),
      )

  result-Links :
      (q : List ℕ)
      → qs c ≡ q
      → (d : ℕ)
      → Links (enqueue_result q).proc ((enqueue_result q).cpu d).runq (update qs c (q ++ p ∷ []) d)
  unfolding enqueue_result
  result-Links [] e d = ground (
    arith,
    free d,
    v.links d,
    Links-update k.proc p (record (k.proc p) { next_run = none }) (k.cpu d).runq (qs d),
  )
  result-Links (i ∷ q) e d = elim (Bool-cases (c == d)) [
    | inl same ↦ ground (
      arith,
      free c,
      v.links c,
      v.distinct c,
      Links-update k.proc p (record (k.proc p) { next_run = none }) (k.cpu c).runq (i ∷ q),
      Links-snoc (detach k p).proc p i q,
    )
    | inr other ↦ ground (
      arith,
      free d,
      v.links d,
      v.disjoint c d (last i q),
      contains-last i q,
      Links-update k.proc p (record (k.proc p) { next_run = none }) (k.cpu d).runq (qs d),
      Links-update (detach k p).proc (last i q)
          (record ((detach k p).proc (last i q)) { next_run = some p }) (k.cpu d).runq (qs d),
    )
  ]

  result-count :
      (q : List ℕ)
      → qs c ≡ q
      → (d : ℕ) → ((enqueue_result q).cpu d).queue_count ≡ length (update qs c (q ++ p ∷ []) d)
  unfolding enqueue_result
  result-count [] e d = ground (arith, v.count d, length-lt)
  result-count (i ∷ q) e d = ground (arith, v.count d, length-lt, length-append q (p ∷ []))

  result-Queues : Queues (enqueue_result (qs c)) (joined qs c p)
  result-Queues = record {
    links = result-Links (qs c) refl;
    count = result-count (qs c) refl;
    distinct = λ d. ground (arith, v.distinct d, nodup-snoc p (qs c), free c);
    bounded = λ d i h. ground (arith, v.bounded d i, contains-append i (qs c) (p ∷ []));
    disjoint = λ d e i h h'.
        ground (arith, v.disjoint d e i, free d, free e, contains-append i (qs c) (p ∷ []));
  }

  result-SameButQueues : SameButQueues k (enqueue_result (qs c))
  unfolding enqueue_result
  result-SameButQueues = go (qs c)
    where
      go : (q : List ℕ) → SameButQueues k (enqueue_result q)
      go [] = record {
        procs = λ i. ground arith;
        cores = λ d. ground arith;
        current = λ d. ground arith;
        rest = refl;
      }
      go (j ∷ q) = record {
        procs = λ i. ground arith;
        cores = λ d. ground arith;
        current = λ d. ground arith;
        rest = refl;
      }

-- `enqueue` of a process that is in no queue always returns: afterwards the process is the last
-- of the CPU's queue, every other queue is as before, links and counters agree with the queues
-- again, and nothing but links, heads and counters has changed.
pub enqueue_refines :
    {k : Kernel} {qs : ℕ → List ℕ}
    → Queues k qs
    → (c p : ℕ) → p < nproc
    → ((d : ℕ) → contains p (qs d) ≡ false)
    → (k' : Kernel) × (enqueue k c p ≡ some k')
      × Queues k' (update qs c (qs c ++ p ∷ []))
      × SameButQueues k k'
enqueue_refines {k} {qs} v c p small free = (
  enqueue_result v c p small free (qs c),
  enqueue-eq v c p small free,
  result-Queues v c p small free,
  result-SameButQueues v c p small free,
)
