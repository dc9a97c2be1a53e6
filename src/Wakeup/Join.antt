-- ===== src/Wakeup/Join.antt =====
-- A process that has become RUNNABLE joins a queue (the calls of enqueue in proc.c).
use os_ca.Prelude.{
  ℕ, ◌<◌, ◌≡◌, refl, ◌≢◌, Bool, false, some, List, [], ◌∷◌, ◌++◌, arith, contains, contains-append,
  update, ◌==◌, Bool-cases, inl, inr,
}
use os_ca.Kernel.{Kernel, runnable, nproc, set_state}
use os_ca.RunQueue.{enqueue}
use os_ca.RunQueue.Invariant.{Queues, Queues-same, SameButQueues}
use os_ca.RunQueue.Enqueue.{enqueue_refines}
use os_ca.Schedule.Ready.{IsReady}
use os_ca.Wakeup.{yield}

-- In no queue.
abbrev pub IsFree : (ℕ → List ℕ) → ℕ → Type 0
IsFree qs p = (d : ℕ) → contains p (qs d) ≡ false

-- A process that is not RUNNABLE is in no queue.
pub IsReady-IsFree :
    {lost : ℕ → Bool} {k : Kernel} {qs : ℕ → List ℕ}
    → IsReady lost k qs
    → (p : ℕ) → (k.proc p).state ≢ runnable
    → IsFree qs p
IsReady-IsFree {lost} {k} {qs} r p h d = elim (Bool-cases (contains p (qs d))) [
  | inl t ↦ absurd (h (r.is_runnable d p t))
  | inr f ↦ f
]

-- A process outside the queues becomes RUNNABLE and is appended to the queue of `c`: the call
-- returns and the RUNNABLE processes are the queued ones again.
pub join_lem :
    {lost : ℕ → Bool} {k : Kernel} {qs : ℕ → List ℕ}
    → IsReady lost k qs
    → (c p : ℕ) → p < nproc
    → (k.proc p).state ≢ runnable
    → (k' : Kernel) × (enqueue (set_state k p runnable) c p ≡ some k')
      × IsReady lost k' (update qs c (qs c ++ p ∷ []))
      × SameButQueues (set_state k p runnable) k'
join_lem {lost} {k} {qs} r c p lt h =
    let k1 = set_state k p runnable in
    let v1 : Queues k1 qs =
      Queues-same {k = k} {k' = k1} (λ i. ground arith) (λ d. refl) (λ d. refl) r.queues in
    let free = IsReady-IsFree r p h in
    let (k', e, v, s) = enqueue_refines v1 c p lt free in
    (
      k',
      e,
      record {
        queues = v;
        is_runnable = λ d i m. ground (
          arith,
          s.procs i,
          contains-append i (qs c) (p ∷ []),
          r.is_runnable d i,
          r.is_runnable c i,
        );
        lost_runnable = λ i f. ground (arith, s.procs i, r.lost_runnable i);
        lost_free = λ d i f. ground (
          arith,
          r.lost_free d i,
          r.lost_free c i,
          r.lost_runnable i,
          contains-append i (qs c) (p ∷ []),
        );
        is_queued = λ i small e f. elim (Bool-cases (i == p)) [
          | inl same ↦ (c, ground (arith, contains-append i (qs c) (p ∷ [])))
          | inr other ↦
              let (d, m) = r.is_queued i small (ground (arith, s.procs i)) f in
              (d, ground (arith, contains-append i (qs c) (p ∷ [])))
        ];
      },
      s,
    )

-- `yield` of a process that is not RUNNABLE yet puts it at the end of its CPU's queue and keeps
-- the scheduler's invariant; but for its state, only links, heads and counters change.
pub yield_lem :
    {lost : ℕ → Bool} {k : Kernel} {qs : ℕ → List ℕ}
    → IsReady lost k qs
    → (c p : ℕ) → p < nproc
    → (k.proc p).state ≢ runnable
    → (k' : Kernel) × (yield k c p ≡ some k')
      × IsReady lost k' (update qs c (qs c ++ p ∷ []))
      × SameButQueues (set_state k p runnable) k'
unfolding yield
yield_lem r c p lt h = join_lem r c p lt h
