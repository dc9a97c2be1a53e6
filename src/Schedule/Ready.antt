-- ===== src/Schedule/Ready.antt =====
-- The scheduler's invariant (proc.c): the RUNNABLE processes are just those in the run queues.
use os_ca.Prelude.{
  ℕ, ◌<◌, ◌%◌, ◌≡◌, refl, ◌≢◌, Bool, true, false, ◌&&◌, Option, none, some, List, [], ◌∷◌, arith,
  contains, erase, update, ◌==◌, Bool-cases, inl, inr, contains-erase, contains-erase_self,
  contains-erase_of_ne,
}
use os_ca.Kernel.{Kernel, CoreType, core_e, core_p, runnable, nproc, is_e}
use os_ca.RunQueue.Invariant.{Queues, SameButQueues}
use os_ca.Balance.Effect.{balanced-kept, balanced-old}
use os_ca.Schedule.{dispatch, is_runnable, trigger_balance}
use os_ca.Schedule.Choice.{Idle}
use os_ca.Schedule.Dispatch.{
  Selected, Selected-contains, triggered, Begun, dispatch-Begun, trigger_balance_lem,
}

abbrev pub Queued : (ℕ → List ℕ) → ℕ → Type 0
Queued qs i = (c : ℕ) × (contains i (qs c) ≡ true)

-- Each RUNNABLE process is in a queue or among the lost ones, which are in none, and only RUNNABLE
-- processes are queued. `λ _. false` says that no process is lost.
pub record IsReady (lost : ℕ → Bool) (k : Kernel) (qs : ℕ → List ℕ) : Type 0 where
  pub queues : Queues k qs
  pub is_runnable : (c i : ℕ) → contains i (qs c) ≡ true → (k.proc i).state ≡ runnable
  pub is_queued : (i : ℕ) → i < nproc → (k.proc i).state ≡ runnable → lost i ≡ false → Queued qs i
  pub lost_runnable : (i : ℕ) → lost i ≡ true → (k.proc i).state ≡ runnable
  pub lost_free : (c i : ℕ) → lost i ≡ true → contains i (qs c) ≡ false

module _ {lost : ℕ → Bool} {k : Kernel} {qs : ℕ → List ℕ} (r : IsReady lost k qs) (c : ℕ) where
  triggered-old : (d i : ℕ) → contains i (triggered k qs c d) ≡ true → Queued qs i
  triggered-old d i h = elim (Bool-cases (is_e (k.cpu c).core_type && (k.ticks % 5 == 0))) [
    | inl t ↦ balanced-old k qs c i d (rw t at h)
    | inr f ↦ (d, rw f at h)
  ]

  triggered-kept : (d i : ℕ) → contains i (qs d) ≡ true → Queued (triggered k qs c) i
  triggered-kept d i h = elim (Bool-cases (is_e (k.cpu c).core_type && (k.ticks % 5 == 0))) [
    | inl t ↦ rw t (balanced-kept k qs c i d h)
    | inr f ↦ rw f (d, h)
  ]

  triggered-lost : (d i : ℕ) → lost i ≡ true → contains i (triggered k qs c d) ≡ false
  triggered-lost d i f = elim (Bool-cases (contains i (triggered k qs c d))) [
    | inl t ↦ let (e, m) = triggered-old d i t in absurd (ground (arith, r.lost_free e i))
    | inr n ↦ n
  ]

  -- Every process of the queue is RUNNABLE, so a queue from which none is chosen is empty.
  triggered-nil : Idle k.proc (triggered k qs c c) → triggered k qs c c ≡ []
  triggered-nil idle = go (triggered k qs c c) refl
    where
      go : (q : List ℕ) → triggered k qs c c ≡ q → q ≡ []
      go [] e = refl
      go (i ∷ q) e =
          let m : contains i (triggered k qs c c) ≡ true = rw e (ground arith) in
          let (d, h) = triggered-old c i m in absurd (ground (arith, idle i, r.is_runnable d i))

  -- The sequences of the queues after the round.
  abbrev pub left : Option ℕ → ℕ → List ℕ
  left none = triggered k qs c
  left (some p) = update (triggered k qs c) c (erase p (triggered k qs c c))

  left-IsReady :
      (o : Option ℕ) (k' : Kernel)
      → Selected (k.cpu c).core_type k.proc (triggered k qs c c) o
      → Begun k (triggered k qs c) c o k'
      → IsReady lost k' (left o)
  left-IsReady none k' _ (q, s) = record {
    queues = q;
    is_runnable =
        λ d i m. let (e, n) = triggered-old d i m in ground (arith, s.procs i, r.is_runnable e i);
    is_queued = λ i lt e f.
        let (d, m) = r.is_queued i lt (ground (arith, s.procs i)) f in triggered-kept d i m;
    lost_runnable = λ i f. ground (arith, s.procs i, r.lost_runnable i);
    lost_free = triggered-lost;
  }
  left-IsReady (some p) k' sel (q, s) = record {
    queues = q;
    is_runnable = λ d i m.
        let (e, n) = triggered-old d i (ground (arith, contains-erase i p (triggered k qs c c))) in
        ground (
          arith,
          s.procs i,
          r.is_runnable e i,
          before_it.2.0.distinct c,
          before_it.2.0.disjoint c d p,
          chosen.0,
          contains-erase_self p (triggered k qs c c),
        );
    lost_runnable =
        λ i f. ground (arith, s.procs i, r.lost_runnable i, triggered-lost c i, chosen.0);
    lost_free =
        λ d i f. ground (arith, triggered-lost d i f, triggered-lost c i f, not_in_erase i f);
    is_queued = λ i lt e f.
        let ne : i ≢ p = λ h. ground (arith, s.procs i) in
        let (d, m) = r.is_queued i lt (ground (arith, s.procs i)) f in
        let (d', m') = triggered-kept d i m in
        (d', ground (arith, contains-erase_of_ne i p (triggered k qs c c)));
  }
    where
      before_it :
          (k1 : Kernel) × (trigger_balance k c ≡ some k1)
          × (Queues k1 (triggered k qs c) × SameButQueues k k1)
      before_it = trigger_balance_lem r.queues c

      not_in_erase : (i : ℕ) → lost i ≡ true → contains i (erase p (triggered k qs c c)) ≡ false
      not_in_erase i f = elim (Bool-cases (contains i (erase p (triggered k qs c c)))) [
        | inl t ↦ ground (arith, contains-erase i p (triggered k qs c c) t, triggered-lost c i f)
        | inr n ↦ n
      ]

      chosen : (contains p (triggered k qs c c) ≡ true) × (is_runnable (k.proc p) ≡ true)
      chosen = Selected-contains (k.cpu c).core_type k.proc (triggered k qs c c) p sel

-- A round of the scheduler keeps the invariant, with the same lost processes; it never starts a
-- lost process, and it starts some process unless, after the balancing, the CPU's queue is empty.
pub dispatch-IsReady :
    {lost : ℕ → Bool} {k : Kernel} {qs : ℕ → List ℕ}
    → IsReady lost k qs
    → (c : ℕ)
    → (o : Option ℕ) × (k' : Kernel) × (qs' : ℕ → List ℕ) × (dispatch k c ≡ some (o, k'))
      × IsReady lost k' qs'
      × (o ≡ none → qs' c ≡ [])
      × ((i : ℕ) → lost i ≡ true → o ≢ some i)
dispatch-IsReady {lost} {k} {qs} r c =
    let (o, k', e, sel, d) = dispatch-Begun r.queues c in
    (
      o,
      k',
      left r c o,
      e,
      left-IsReady r c o k' sel d,
      go o sel,
      λ i f h.
          let sel' =
            Selected-contains (k.cpu c).core_type k.proc (triggered k qs c c) i (rw h at sel) in
          absurd (ground (arith, triggered-lost r c c i f, sel'.0)),
    )
  where
    go :
        (o : Option ℕ)
        → Selected (k.cpu c).core_type k.proc (triggered k qs c c) o
        → o ≡ none
        → left r c o c ≡ []
    go none sel h = triggered-nil r c (idle (k.cpu c).core_type sel)
      where
        idle :
            (t : CoreType)
            → Selected t k.proc (triggered k qs c c) none
            → Idle k.proc (triggered k qs c c)
        idle core_e h = h
        idle core_p h = h
    go (some p) sel h = absurd (ground arith)
