-- ===== src/RunQueue/Dequeue.antt =====
-- dequeue (proc.c) takes one process out of a queue, wherever it stands in it.
use os_ca.Prelude.{
  ℕ, ◌≤◌, ◌≡◌, refl, true, false, none, some, List, [], ◌∷◌, arith, length, length-erase, contains,
  contains-erase_self, contains-erase, nodup-erase, erase, update, if◌then◌else◌, ◌==◌, inl, inr,
  Bool-cases,
}
use os_ca.Kernel.{Kernel, Proc, nproc, set_next}
use os_ca.RunQueue.{dequeue, count_down, set_head, unlink, ok, failed}
use os_ca.RunQueue.Links.{
  Links, before, Links-update, Links-erase, find_prev_absent, find_prev_present, contains-before,
}
use os_ca.RunQueue.Invariant.{Queues, length-le, SameButQueues}

module _ {k : Kernel} {qs : ℕ → List ℕ} (v : Queues k qs) (c p : ℕ) where
  -- What `dequeue` leaves, for a process that is in the queue.
  pub dequeue_result : List ℕ → Kernel
  dequeue_result [] = k
  dequeue_result (i ∷ q) =
      if i == p
      then (let k' = count_down (set_head k c (k.proc p).next_run) c in
          record k' { proc = set_next k'.proc p none })
      else (unlink k c p (some (before i q p))).1

  dequeue-eq : contains p (qs c) ≡ true → dequeue k c p ≡ some (ok, dequeue_result (qs c))
  unfolding dequeue dequeue_result
  dequeue-eq h = go (qs c) h (v.links c) (length-le v c)
    where
      go :
          (q : List ℕ)
          → contains p q ≡ true
          → Links k.proc (k.cpu c).runq q
          → length q ≤ nproc
          → dequeue k c p ≡ some (ok, dequeue_result q)
      go [] m l s = absurd (ground arith)
      go (i ∷ q) m l s = ground (arith, find_prev_present k.proc nproc i p q)

  -- A process that is in no place of the queue: -1, and nothing changes.
  pub dequeue_absent : contains p (qs c) ≡ false → dequeue k c p ≡ some (failed, k)
  unfolding dequeue
  dequeue_absent h = go (qs c) h (v.links c) (length-le v c)
    where
      go :
          (q : List ℕ)
          → contains p q ≡ false
          → Links k.proc (k.cpu c).runq q
          → length q ≤ nproc
          → dequeue k c p ≡ some (failed, k)
      go [] m l s = ground arith
      go (i ∷ q) m l s = ground (arith, find_prev_absent k.proc nproc i p q)

  module _ (present : contains p (qs c) ≡ true) where
    result-Links :
        (q : List ℕ)
        → qs c ≡ q
        → (d : ℕ)
        → Links (dequeue_result q).proc ((dequeue_result q).cpu d).runq (update qs c (erase p q) d)
    unfolding dequeue_result unlink
    result-Links [] e d = absurd (ground arith)
    result-Links (i ∷ q) e d = elim (Bool-cases (c == d)) [
      | inl same ↦ ground (
        arith,
        v.links c,
        v.distinct c,
        Links-update k.proc p (record (k.proc p) { next_run = none }) (k.proc p).next_run q,
        Links-erase k.proc p i q,
        Links-update relinked p (record (relinked p) { next_run = none }) (some i) (i ∷ erase p q),
        contains-erase_self p q,
        contains-before i q p,
      )
      | inr other ↦ ground (
        arith,
        v.links d,
        v.disjoint c d p,
        v.disjoint c d (before i q p),
        contains-before i q p,
        Links-update k.proc p (record (k.proc p) { next_run = none }) (k.cpu d).runq (qs d),
        Links-update k.proc (before i q p)
            (record (k.proc (before i q p)) { next_run = (k.proc p).next_run }) (k.cpu d).runq
            (qs d),
        Links-update relinked p (record (relinked p) { next_run = none }) (k.cpu d).runq (qs d),
      )
    ]
      where
        relinked : ℕ → Proc
        relinked = set_next k.proc (before i q p) (k.proc p).next_run

    result-count :
        (q : List ℕ)
        → qs c ≡ q
        → (d : ℕ) → ((dequeue_result q).cpu d).queue_count ≡ length (update qs c (erase p q) d)
    unfolding dequeue_result unlink
    result-count [] e d = absurd (ground arith)
    result-count (i ∷ q) e d = ground (arith, v.count d, length-le v c, length-erase p (i ∷ q))

    result-Queues : Queues (dequeue_result (qs c)) (update qs c (erase p (qs c)))
    result-Queues = record {
      links = result-Links (qs c) refl;
      count = result-count (qs c) refl;
      distinct = λ d. ground (arith, v.distinct d, nodup-erase p (qs c));
      bounded = λ d i h. ground (arith, v.bounded d i, contains-erase i p (qs c));
      disjoint = λ d e i h h'. ground (arith, v.disjoint d e i, contains-erase i p (qs c));
    }

  result-SameButQueues : (q : List ℕ) → SameButQueues k (dequeue_result q)
  unfolding dequeue_result unlink
  result-SameButQueues [] = record {
    procs = λ i. refl;
    cores = λ d. refl;
    current = λ d. refl;
    rest = refl;
  }
  result-SameButQueues (j ∷ q) = record {
    procs = λ i. ground arith;
    cores = λ d. ground arith;
    current = λ d. ground arith;
    rest = ground arith;
  }

  -- `dequeue` of a process that is in the queue of `c` returns 0: the process is taken out, wherever
  -- it stood, the order of the others and every other queue stay, links and counters agree with the
  -- queues again, and nothing but links, heads and counters has changed.
  pub dequeue_refines :
      contains p (qs c) ≡ true
      → (k' : Kernel) × (dequeue k c p ≡ some (ok, k'))
        × Queues k' (update qs c (erase p (qs c)))
        × SameButQueues k k'
  dequeue_refines h =
      (dequeue_result (qs c), dequeue-eq h, result-Queues h, result-SameButQueues (qs c))
