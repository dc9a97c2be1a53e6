-- ===== src/Process/System.antt =====
-- Every order of the changes that proc.c, trap.c and exec.c make to the process table and the CPUs once the first
-- process is there: the CPUs' scheduling rounds and what the processes do between two switches, as a
-- step relation. fork is the steps `allocs`, `copies` and `starts`, or `allocs` and `drops` (Process.Forks).
use os_ca.Prelude.{
  ℕ, ◌<◌, ◌≡◌, refl, ap, subst, some_unique, ◌≢◌, Bool, true, ◌&&◌, ◌||◌, Option, some, List, [],
  ◌∷◌, ◌++◌, arith, contains, update, Bool-cases, inl, inr, add32,
}
use os_ca.Kernel.{
  Kernel, Chan, in_state, sleeping, runnable, running, embryo, zombie, nproc, set_proc,
}
use os_ca.Cores.{get_least_loaded_e_core}
use os_ca.RunQueue.{Status}
use os_ca.RunQueue.Invariant.{Queues-same}
use os_ca.Schedule.{dispatch, switched_back}
use os_ca.Schedule.Ready.{IsReady, dispatch-IsReady}
use os_ca.Wakeup.{yield, make_runnable, fall_asleep, tidy_up, wakeup1, kill, killed_proc}
use os_ca.Wakeup.Join.{yield_lem}
use os_ca.Wakeup.Wake.{wakeup1_lem}
use os_ca.Wakeup.Kill.{Kills, IsTarget, kill_lem, kill_strands}
use os_ca.Process.{allocproc, copy_into, drop_child, exit, reap}
use os_ca.Timer.{set_slice}
use os_ca.Report.{start_measure, end_measure}
use os_ca.Process.Change.{IsReady-set, IsReady-edit, IsReady-same}
use os_ca.Process.Alloc.{allocproc_lem, make_runnable_lem}
use os_ca.Process.Exit.{exit_lem}

pub data Step (k : Kernel) : Kernel → Type 0 where
  round : (c : ℕ) {o : Option ℕ} {k' : Kernel} → dispatch k c ≡ some (o, k') → Step k k'
  back : (c : ℕ) → Step k (switched_back k c)
  yields :
      (c p : ℕ) {k' : Kernel}
      → p < nproc
      → (k.proc p).state ≡ running
      → yield k c p ≡ some k'
      → Step k k'
  sleeps : (p : ℕ) (chan : Chan) → (k.proc p).state ≡ running → Step k (fall_asleep k p chan)
  tidies : (p : ℕ) → Step k (tidy_up k p)
  wakes : (chan : Chan) {k' : Kernel} → wakeup1 k chan ≡ some k' → Step k k'
  kills : (pid : ℕ) → Step k (kill k pid).1
  allocs : (page : Option ℕ) → Step k (allocproc k page).1
  starts :
      (np : ℕ) {k' : Kernel}
      → np < nproc
      → (k.proc np).state ≡ embryo
      → make_runnable k np ≡ some k'
      → Step k k'
  exits :
      (me : ℕ) {k' : Kernel}
      → me ≢ k.initproc
      → (k.proc me).state ≡ running
      → exit k me ≡ some k'
      → Step k k'
  -- The two ways on from allocproc in fork; `starts` follows the first.
  copies : (me np dir : ℕ) → (k.proc np).state ≡ embryo → Step k (copy_into k me np dir)
  drops : (np : ℕ) → (k.proc np).state ≡ embryo → Step k (drop_child k np)
  reaps : (i : ℕ) → (k.proc i).state ≡ zombie → Step k (reap k i)
  ticks : Step k (record k { ticks = add32 k.ticks 1 })
  -- The timer counts a tick of a slice, or begins a new one.
  slices : (p n : ℕ) → Step k (set_slice k p n)
  -- trap.c marks a process that has done wrong.
  dooms : (p : ℕ) → Step k (set_proc k p (record (k.proc p) { killed = true }))
  measures : Step k (start_measure k)
  reports : Step k (end_measure k).1
  -- growproc and exec change the memory of a process.
  resizes :
      (p sz : ℕ) (dir : Option ℕ)
      → Step k (set_proc k p (record (k.proc p) { sz = sz; pgdir = dir }))

-- The processes that a kill loses: those that slept and are RUNNABLE after it.
abbrev pub kill_lost : (ℕ → Bool) → Kernel → Status × Kernel → ℕ → Bool
kill_lost lost k r i =
    lost i || (in_state (k.proc i).state sleeping && in_state (r.1.proc i).state runnable)

abbrev pub grow : {k k' : Kernel} → Step k k' → (ℕ → Bool) → ℕ → Bool
grow {k} (kills pid) lost = kill_lost lost k (kill k pid)
grow _ lost = lost

abbrev pub Kept : (ℕ → Bool) → Kernel → Type 0
Kept lost k = (qs : ℕ → List ℕ) × IsReady lost k qs

module _ {lost : ℕ → Bool} {k : Kernel} {qs : ℕ → List ℕ} (r : IsReady lost k qs) where
  kill-IsReady :
      (pid : ℕ) (x : Status × Kernel) → Kills k 0 nproc pid x → IsReady (kill_lost lost k x) x.1 qs
  kill-IsReady pid x (inl (e, n)) = rw e (record {
    queues = r.queues;
    is_runnable = r.is_runnable;
    is_queued = λ i lt h f. r.is_queued i lt h (ground arith);
    lost_runnable = λ i f. ground (arith, r.lost_runnable i);
    lost_free = λ c i f. ground (arith, r.lost_free c i);
  })
  kill-IsReady pid x (inr (m, lt, t, e)) = rw e (record {
    queues =
        Queues-same {k = k} {k' = set_proc k m (killed_proc (k.proc m))} (λ i. ground arith)
          (λ c. refl) (λ c. refl) r.queues;
    is_runnable = λ c i h. ground (arith, r.is_runnable c i);
    is_queued = λ i small h f. r.is_queued i small (ground arith) (ground arith);
    lost_runnable = λ i f. ground (arith, r.lost_runnable i);
    lost_free = λ c i f. elim (Bool-cases (contains i (qs c))) [
      | inl h ↦ ground (arith, r.is_runnable c i, r.lost_free c i)
      | inr h ↦ h
    ];
  })

-- Every step of `Step` keeps the invariant that the RUNNABLE processes are just the queued and the lost ones.
-- A kill of a process that sleeps makes it a lost one; no other step loses a process.
pub Step-IsReady :
    {lost : ℕ → Bool} {k k' : Kernel} {qs : ℕ → List ℕ}
    → IsReady lost k qs
    → (st : Step k k') → Kept (grow st lost) k'
unfolding switched_back fall_asleep tidy_up end_measure
Step-IsReady {lost} r (round c e) =
    let (o, k1, q1, e1, r1, a, b) = dispatch-IsReady r c in
    (
      q1,
      subst (λ (x : Kernel). IsReady lost x q1)
          (ap (λ (x : Option ℕ × Kernel). x.1) (some_unique e1 e)) r1,
    )
Step-IsReady {k = k} {qs = qs} r (back c) =
    (qs, IsReady-same r (switched_back k c) refl (λ d. ground arith) (λ d. ground arith))
Step-IsReady {lost} {qs = qs} r (yields c p lt h e) =
    let (k1, e1, r1, s1) = yield_lem r c p lt (λ q. ground arith) in
    (_, subst (λ (x : Kernel). IsReady lost x (update qs c (qs c ++ p ∷ []))) (some_unique e1 e) r1)
Step-IsReady {qs = qs} r (sleeps p chan h) =
    (qs, IsReady-set r p _ (λ q. ground arith) (λ q. ground arith))
Step-IsReady {qs = qs} r (tidies p) = (qs, IsReady-edit r p _ refl refl)
Step-IsReady {lost} r (wakes chan e) =
    let (k1, q1, e1, r1, x1, w1) = wakeup1_lem r chan in
    (q1, subst (λ (x : Kernel). IsReady lost x q1) (some_unique e1 e) r1)
Step-IsReady {k = k} {qs = qs} r (kills pid) =
    (qs, kill-IsReady r pid (kill k pid) (kill_lem k pid))
Step-IsReady {qs = qs} r (allocs page) = let (o, f, e, r1) = allocproc_lem r page in (qs, r1)
Step-IsReady {lost} {k = k} {qs = qs} r (starts np lt h e) =
    let (k1, e1, r1, s1) = make_runnable_lem r np lt (λ q. ground arith) in
    (
      _,
      subst
          (λ (x : Kernel).
            IsReady lost x (let c = get_least_loaded_e_core k in update qs c (qs c ++ np ∷ [])))
          (some_unique e1 e) r1,
    )
Step-IsReady {lost} r (exits me ne h e) =
    let (k1, q1, e1, r1, x1) = exit_lem r me ne h in
    (q1, subst (λ (x : Kernel). IsReady lost x q1) (some_unique e1 e) r1)
Step-IsReady {qs = qs} r (reaps i h) =
    (qs, IsReady-set r i _ (λ q. ground arith) (λ q. ground arith))
Step-IsReady {k = k} {qs = qs} r (copies me np dir h) =
    (qs, IsReady-set r np _ (λ q. ground arith) (λ q. ground arith))
Step-IsReady {qs = qs} r (drops np h) =
    (qs, IsReady-set r np _ (λ q. ground arith) (λ q. ground arith))
Step-IsReady {qs = qs} r (slices p n) = (qs, IsReady-edit r p _ refl refl)
Step-IsReady {qs = qs} r measures = (qs, IsReady-same r _ refl (λ d. refl) (λ d. refl))
Step-IsReady {k = k} {qs = qs} r reports = elim (Bool-cases k.metrics_active) [
  | inl t ↦ (qs, IsReady-same r _ (rw t refl) (λ d. rw t refl) (λ d. rw t refl))
  | inr t ↦ (qs, IsReady-same r _ (rw t refl) (λ d. rw t refl) (λ d. rw t refl))
]
Step-IsReady {qs = qs} r (dooms p) = (qs, IsReady-edit r p _ refl refl)
Step-IsReady {qs = qs} r (resizes p sz dir) = (qs, IsReady-edit r p _ refl refl)
Step-IsReady {qs = qs} r ticks = (qs, IsReady-same r _ refl (λ d. refl) (λ d. refl))

pub data Reach (k : Kernel) : Kernel → Type 0 where
  here : Reach k k
  next : {a b : Kernel} → Reach k a → Step a b → Reach k b

-- In every state that a state of the invariant reaches, the invariant holds, and the lost processes
-- are still lost.
pub Reach-IsReady :
    {lost : ℕ → Bool} {k k' : Kernel} {qs : ℕ → List ℕ}
    → IsReady lost k qs
    → Reach k k'
    → (lost' : ℕ → Bool) × Kept lost' k' × ((i : ℕ) → lost i ≡ true → lost' i ≡ true)
Reach-IsReady {lost} {qs = qs} r here = (lost, (qs, r), λ i h. h)
Reach-IsReady r (next p st) =
    let (l, (q, r1), keep) = Reach-IsReady r p in
    (grow st l, Step-IsReady r1 st, λ i h. grow-keeps st l i (keep i h))
  where
    grow-keeps :
        {a b : Kernel} (st : Step a b) (l : ℕ → Bool) (i : ℕ) → l i ≡ true → grow st l i ≡ true
    grow-keeps (kills pid) l i h = ground arith
    grow-keeps _ l i h = h

-- The consequence of the missing `enqueue` in kill: from a state of the invariant, once `kill` has
-- hit a process that sleeps, this process is RUNNABLE after any number of steps of `Step`, in any order: no step
-- runs it, ends it or reuses its entry.
pub killed_sleeper_never_runs :
    {lost : ℕ → Bool} {k k' : Kernel} {qs : ℕ → List ℕ}
    → IsReady lost k qs
    → (pid m : ℕ) → m < nproc
    → IsTarget k 0 pid m
    → (k.proc m).state ≡ sleeping
    → Reach (kill k pid).1 k'
    → (k'.proc m).state ≡ runnable
killed_sleeper_never_runs {lost} {k} {k'} {qs} r pid m lt t h p =
    let (q, r1) = Step-IsReady r (kills pid) in
    let stranded = kill_strands r pid m lt t h in
    let (l, (q2, r2), keep) = Reach-IsReady r1 p in
    r2.lost_runnable m (keep m (ground (arith, stranded.1.runs)))
