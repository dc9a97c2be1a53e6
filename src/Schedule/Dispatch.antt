-- ===== src/Schedule/Dispatch.antt =====
-- dispatch: what a round of scheduler() (proc.c) starts, and what it leaves in the queues.
use os_ca.Prelude.{
  ℕ, suc, ◌%◌, ◌≡◌, refl, ap, ◌∙◌, ◌≢◌, Bool, true, false, ◌&&◌, Option, none, some, List, [], ◌∷◌,
  arith, contains, contains-append, erase, update, if◌then◌else◌, ◌==◌,
}
use os_ca.Kernel.{Kernel, Proc, CoreType, core_e, core_p, is_e, nproc, running}
use os_ca.RunQueue.Invariant.{
  Queues, Queues-same, length-le, SameButQueues, SameButQueues-refl, SameButQueues-trans, body,
}
use os_ca.RunQueue.Dequeue.{dequeue_refines}
use os_ca.Balance.{load_balance}
use os_ca.Balance.Refine.{balanced, load_balance_refines}
use os_ca.Schedule.{choose, begin, take_from, trigger_balance, dispatch, is_runnable}
use os_ca.Schedule.Choice.{Chosen, IsFirst, IsOldest, Idle, choose_rr_lem, choose_fcfs_lem}

-- What a CPU of each type is to choose from its queue.
abbrev pub Selected : CoreType → (ℕ → Proc) → List ℕ → Option ℕ → Type 0
Selected core_e = Chosen IsFirst
Selected core_p = Chosen IsOldest

-- The queues after the balancing with which a round on CPU `c` begins.
abbrev pub triggered : Kernel → (ℕ → List ℕ) → ℕ → ℕ → List ℕ
triggered k qs c = if is_e (k.cpu c).core_type && (k.ticks % 5 == 0) then balanced k qs c else qs

-- `p` runs on CPU `c` with a fresh slice; but for the links, heads and counters of the queues nothing else
-- has changed.
pub record Started (k : Kernel) (c p : ℕ) (k' : Kernel) : Type 0 where
  pub current : (k'.cpu c).current ≡ some p
  pub state : (k'.proc p).state ≡ running
  pub slice : (k'.proc p).slice_ticks ≡ 0
  pub process :
      body (record (k'.proc p) { state = (k.proc p).state; slice_ticks = (k.proc p).slice_ticks })
      ≡ body (k.proc p)
  pub others : (i : ℕ) → i ≢ p → body (k'.proc i) ≡ body (k.proc i)
  pub cores : (d : ℕ) → (k'.cpu d).core_type ≡ (k.cpu d).core_type
  pub other_cpus : (d : ℕ) → d ≢ c → (k'.cpu d).current ≡ (k.cpu d).current
  pub rest : record k' { proc = k.proc; cpu = k.cpu } ≡ k

-- What a round leaves: without a process to run, nothing but the balancing has happened; with one,
-- it has left the queue and runs.
abbrev pub Dispatched : Kernel → (ℕ → List ℕ) → ℕ → Option ℕ → Kernel → Type 0
Dispatched k qs c none k' = Queues k' qs × SameButQueues k k'
Dispatched k qs c (some p) k' = Queues k' (update qs c (erase p (qs c))) × Started k c p k'

-- The same by what the code does, as the proofs use it.
abbrev pub Begun : Kernel → (ℕ → List ℕ) → ℕ → Option ℕ → Kernel → Type 0
Begun k qs c none k' = Queues k' qs × SameButQueues k k'
Begun k qs c (some p) k' = Queues k' (update qs c (erase p (qs c))) × SameButQueues (begin k c p) k'

module _ (ps ps' : ℕ → Proc) (same : (i : ℕ) → body (ps' i) ≡ body (ps i)) where
  Idle-same : (q : List ℕ) → Idle ps' q → Idle ps q
  Idle-same q h i m = ground (arith, h i, same i)

  Selected-same :
      (t : CoreType) (q : List ℕ) (o : Option ℕ) → Selected t ps' q o → Selected t ps q o
  Selected-same core_e q none h = Idle-same q h
  Selected-same core_p q none h = Idle-same q h
  Selected-same core_e q (some p) h = record {
    before = h.before;
    after = h.after;
    split = h.split;
    runs = ground (arith, h.runs, same p);
    skipped = Idle-same h.before h.skipped;
  }
  Selected-same core_p q (some p) h = record {
    before = h.before;
    after = h.after;
    split = h.split;
    runs = ground (arith, h.runs, same p);
    earlier = λ i m r. ground (arith, h.earlier i, same p, same i);
    later = λ i m r. ground (arith, h.later i, same p, same i);
  }

pub Selected-contains :
    (t : CoreType) (ps : ℕ → Proc) (q : List ℕ) (p : ℕ)
    → Selected t ps q (some p)
    → (contains p q ≡ true) × (is_runnable (ps p) ≡ true)
Selected-contains core_e ps q p h =
    (ground (arith, h.split, contains-append p h.before (p ∷ h.after)), h.runs)
Selected-contains core_p ps q p h =
    (ground (arith, h.split, contains-append p h.before (p ∷ h.after)), h.runs)

-- Starting `p` is as described, whatever the queues are.
begin-Started : {k k' : Kernel} {c p : ℕ} → SameButQueues (begin k c p) k' → Started k c p k'
begin-Started {k} {k'} {c} {p} s = record {
  current = s.current c ∙ ground arith;
  state = ap (λ (x : Proc). x.state) (s.procs p) ∙ ground arith;
  slice = ap (λ (x : Proc). x.slice_ticks) (s.procs p) ∙ ground arith;
  process =
      ap (λ (x : Proc). record x { state = (k.proc p).state; slice_ticks = (k.proc p).slice_ticks })
        (s.procs p)
      ∙ ground arith;
  others = λ i ne. s.procs i ∙ ground arith;
  cores = λ d. s.cores d ∙ ground arith;
  other_cpus = λ d ne. s.current d ∙ ground arith;
  rest = ap (λ (x : Kernel). record x { proc = k.proc; cpu = k.cpu }) s.rest;
}

begin-same :
    {k k1 : Kernel} → SameButQueues k k1 → (c p : ℕ) → SameButQueues (begin k c p) (begin k1 c p)
begin-same s c p = record {
  procs = λ i. ground (arith, s.procs i, s.procs p);
  cores = λ d. ground (arith, s.cores d, s.cores c);
  current = λ d. ground (arith, s.current d);
  rest = ground (arith, s.rest);
}

module _ {k : Kernel} {qs : ℕ → List ℕ} (v : Queues k qs) (c : ℕ) where
  choose_lem :
      (t : CoreType)
      → (k.cpu c).core_type ≡ t
      → (o : Option ℕ) × (choose k c ≡ some o) × Selected t k.proc (qs c) o
  unfolding choose
  choose_lem core_e e =
      let (o, h, r) =
        choose_rr_lem k.proc (suc nproc) (k.cpu c).runq (qs c) (ground (arith, length-le v c))
          (v.links c) in
      (o, rw e h, r)
  choose_lem core_p e =
      let (o, h, r) =
        choose_fcfs_lem k.proc (suc nproc) (k.cpu c).runq none [] (qs c)
          (ground (arith, length-le v c)) (v.links c) (λ i m. absurd (ground arith)) in
      (o, rw e h, r)

  take_from_lem :
      (t : CoreType) (o : Option ℕ)
      → Selected t k.proc (qs c) o
      → (k' : Kernel) × (take_from k c o ≡ some (o, k')) × Begun k qs c o k'
  unfolding take_from
  take_from_lem t none h = (k, refl, (v, SameButQueues-refl k))
  take_from_lem t (some p) h =
      let (k1, e1, v1, s1) = dequeue_refines v c p (Selected-contains t k.proc (qs c) p h).0 in
      (
        begin k1 c p,
        ground (arith, e1),
        (
          Queues-same {k = k1} {k' = begin k1 c p} (λ i. ground arith) (λ d. ground arith)
              (λ d. ground arith) v1,
          begin-same s1 c p,
        ),
      )

  pub trigger_balance_lem :
      (k' : Kernel) × (trigger_balance k c ≡ some k')
      × (Queues k' (triggered k qs c) × SameButQueues k k')
  unfolding trigger_balance
  trigger_balance_lem =
      go (is_e (k.cpu c).core_type && (k.ticks % 5 == 0)) refl (load_balance_refines v c)
    where
      go :
          (t : Bool)
          → (is_e (k.cpu c).core_type && (k.ticks % 5 == 0)) ≡ t
          → ((k' : Kernel) × (load_balance k c ≡ some k')
              × Queues k' (balanced k qs c)
              × SameButQueues k k')
          → (k' : Kernel) × (trigger_balance k c ≡ some k')
            × (Queues k' (triggered k qs c) × SameButQueues k k')
      go true h (k', e, q, s) = (k', rw (h, trigger_balance) e, (rw (h, triggered) q, s))
      go false h _ = (k, rw (h, trigger_balance) refl, (rw (h, triggered) v, SameButQueues-refl k))

-- The same, seen from before the balancing.
Begun-base :
    {k k1 : Kernel} (qs : ℕ → List ℕ)
    → SameButQueues k k1
    → (c : ℕ) (o : Option ℕ) (k' : Kernel) → Begun k1 qs c o k'
    → Begun k qs c o k'
Begun-base qs s c none k' (q, t) = (q, SameButQueues-trans s t)
Begun-base qs s c (some p) k' (q, t) = (q, SameButQueues-trans (begin-same s c p) t)

pub dispatch-Begun :
    {k : Kernel} {qs : ℕ → List ℕ}
    → Queues k qs
    → (c : ℕ)
    → (o : Option ℕ) × (k' : Kernel) × (dispatch k c ≡ some (o, k'))
      × Selected (k.cpu c).core_type k.proc (triggered k qs c c) o
      × Begun k (triggered k qs c) c o k'
unfolding dispatch
dispatch-Begun {k} {qs} v c =
    let (k1, e1, (v1, s1)) = trigger_balance_lem v c in
    let (o, e2, sel) = choose_lem v1 c (k.cpu c).core_type (s1.cores c) in
    let (k2, e3, r) = take_from_lem v1 c (k.cpu c).core_type o sel in
    (
      o,
      k2,
      ground (arith, e1, e2, e3),
      Selected-same k.proc k1.proc s1.procs (k.cpu c).core_type (triggered k qs c c) o sel,
      Begun-base (triggered k qs c) s1 c o k2 r,
    )

Begun-Dispatched :
    (k k' : Kernel) (qs : ℕ → List ℕ) (c : ℕ) (o : Option ℕ)
    → Begun k qs c o k'
    → Dispatched k qs c o k'
Begun-Dispatched k k' qs c none b = b
Begun-Dispatched k k' qs c (some p) (q, s) = (q, begin-Started s)

-- A round of the scheduler always reaches its switch. It has first balanced the load if `c` is an
-- E-core and the tick count a multiple of 5. An E-core then starts the first RUNNABLE process of its
-- queue, a P-core the RUNNABLE process of its queue with the least ctime, the first of several, and
-- none only if no process of the queue is RUNNABLE. The process that starts has left the queue, is
-- the current one of the CPU, is RUNNING and has slice_ticks 0; nothing else has changed.
pub dispatch_lem :
    {k : Kernel} {qs : ℕ → List ℕ}
    → Queues k qs
    → (c : ℕ)
    → (o : Option ℕ) × (k' : Kernel) × (dispatch k c ≡ some (o, k'))
      × Selected (k.cpu c).core_type k.proc (triggered k qs c c) o
      × Dispatched k (triggered k qs c) c o k'
dispatch_lem {k} {qs} v c =
    let (o, k', e, sel, b) = dispatch-Begun v c in
    (o, k', e, sel, Begun-Dispatched k k' (triggered k qs c) c o b)
