-- ===== src/Process/Exit.antt =====
-- exit and wait (proc.c): the ZOMBIE, its children, and what wait makes of it.
use os_ca.Prelude.{
  ℕ, zero, suc, ◌+◌, ◌<◌, ◌≤◌, ◌≡◌, refl, ap, ◌∙◌, ◌≢◌, ◌⊎◌, Bool, Option, some, List, arith,
  update_self, ==-of_ne, if◌then◌else◌, ◌==◌, Bool-cases, inl, inr, points_to, ltb,
}
use os_ca.Kernel.{
  Kernel, Proc, Chan, of_proc, proc_chan, in_state, zombie, running, nproc, set_state,
}
use os_ca.Schedule.Ready.{IsReady}
use os_ca.Wakeup.{wakeup1}
use os_ca.Wakeup.Wake.{wakeup1_lem, Woken}
use os_ca.Process.{wake_init, reparent_one, reparent, record_exit, exit}
use os_ca.Process.Change.{IsReady-set, IsReady-edit, IsReady-same}

-- The parent of a process once `me` has handed its children to init.
abbrev pub adopted : ℕ → ℕ → Option ℕ → Option ℕ
adopted init me parent = if points_to parent me then some init else parent

-- The processes from `lo` on and below `hi` have had their parent changed as exit does it; nothing
-- else that exit reads has changed, and what runs still runs.
pub record Reparented (me lo hi : ℕ) (k k' : Kernel) : Type 0 where
  pub inside :
      (i : ℕ) → lo ≤ i → i < hi → (k'.proc i).parent ≡ adopted k.initproc me (k.proc i).parent
  pub outside : (i : ℕ) → (i < lo) ⊎ (hi ≤ i) → (k'.proc i).parent ≡ (k.proc i).parent
  pub still_runs : (i : ℕ) → (k.proc i).state ≡ running → (k'.proc i).state ≡ running
  pub same_etime : (i : ℕ) → (k'.proc i).etime ≡ (k.proc i).etime
  pub same_pid : (i : ℕ) → (k'.proc i).pid ≡ (k.proc i).pid
  pub same_init : k'.initproc ≡ k.initproc

-- A wakeup changes nothing of a process but its state, and that only if it sleeps.
pub record Same (k k' : Kernel) : Type 0 where
  pub parents : (i : ℕ) → (k'.proc i).parent ≡ (k.proc i).parent
  pub runs : (i : ℕ) → (k.proc i).state ≡ running → (k'.proc i).state ≡ running
  pub etimes : (i : ℕ) → (k'.proc i).etime ≡ (k.proc i).etime
  pub pids : (i : ℕ) → (k'.proc i).pid ≡ (k.proc i).pid
  pub init : k'.initproc ≡ k.initproc

Woken-Same : {chan : Chan} {k k' : Kernel} → Woken chan 0 nproc k k' → Same k k'
Woken-Same {chan} {k} {k'} w = record {
  parents = λ i. elim (Bool-cases (ltb i nproc)) [
    | inl h ↦ ground (arith, w.inside i)
    | inr h ↦ ground (arith, w.above i)
  ];
  runs = λ i r. elim (Bool-cases (ltb i nproc)) [
    | inl h ↦ ground (arith, w.inside i)
    | inr h ↦ ground (arith, w.above i)
  ];
  etimes = λ i. elim (Bool-cases (ltb i nproc)) [
    | inl h ↦ ground (arith, w.inside i)
    | inr h ↦ ground (arith, w.above i)
  ];
  pids = λ i. elim (Bool-cases (ltb i nproc)) [
    | inl h ↦ ground (arith, w.inside i)
    | inr h ↦ ground (arith, w.above i)
  ];
  init = ground (arith, w.rest);
}

Same-refl : (k : Kernel) → Same k k
Same-refl k = record {
  parents = λ i. refl;
  runs = λ i r. r;
  etimes = λ i. refl;
  pids = λ i. refl;
  init = refl;
}

wake_init_lem :
    {lost : ℕ → Bool} {k : Kernel} {qs : ℕ → List ℕ}
    → IsReady lost k qs
    → (i : ℕ)
    → (k' : Kernel) × (qs' : ℕ → List ℕ) × (wake_init k i ≡ some k')
      × IsReady lost k' qs'
      × Same k k'
unfolding wake_init
wake_init_lem {lost} {k} {qs} r i = elim (Bool-cases (in_state (k.proc i).state zombie)) [
  | inl t ↦
      let (k', qs', e, r', x, w) = wakeup1_lem r (of_proc k.initproc) in
      (k', qs', rw t e, r', Woken-Same w)
  | inr f ↦ (k, qs, rw f refl, r, Same-refl k)
]

-- The outcome of a part of exit's loop.
abbrev Reparents : (ℕ → Bool) → ℕ → ℕ → ℕ → Kernel → Option Kernel → Type 0
Reparents lost me lo hi k o =
    (k' : Kernel) × (qs' : ℕ → List ℕ) × (o ≡ some k')
    × IsReady lost k' qs'
    × Reparented me lo hi k k'

reparent_one_lem :
    {lost : ℕ → Bool} {k : Kernel} {qs : ℕ → List ℕ}
    → IsReady lost k qs
    → (me i : ℕ) → Reparents lost me i (i + 1) k (reparent_one k me i)
unfolding reparent_one
reparent_one_lem {lost} {k} {qs} r me i = elim (Bool-cases (points_to (k.proc i).parent me)) [
  | inl t ↦
      let x = record (k.proc i) { parent = some k.initproc } in
      let (k', qs', e, r', s) = wake_init_lem (IsReady-edit r i x refl refl) i in
      (
        k',
        qs',
        rw t e,
        r',
        record {
          inside = λ j l u. let e : j ≡ i = omega arith in rw e (ground (arith, s.parents i));
          outside = λ j o. ground (arith, s.parents j);
          still_runs = λ j h. ground (arith, s.runs j);
          same_etime = λ j. ground (arith, s.etimes j);
          same_pid = λ j. ground (arith, s.pids j);
          same_init = s.init;
        },
      )
  | inr f ↦ (
    k,
    qs,
    rw f refl,
    r,
    record {
      inside = λ j l u. let e : j ≡ i = omega arith in rw (e, f) refl;
      outside = λ j o. refl;
      still_runs = λ j h. h;
      same_etime = λ j. refl;
      same_pid = λ j. refl;
      same_init = refl;
    },
  )
]

Reparented-next :
    (me i j : ℕ) {a b c : Kernel}
    → i + 1 ≤ j
    → Reparented me i (i + 1) a b
    → Reparented me (i + 1) j b c
    → Reparented me i j a c
Reparented-next me i j p s t = record {
  inside = λ m l u. elim (Bool-cases (m == i)) [
    | inl h ↦ ground (arith, s.inside m, t.outside m)
    | inr h ↦ ground (arith, s.outside m, t.inside m, s.same_init)
  ];
  outside = λ m o. ground (arith, s.outside m, t.outside m);
  still_runs = λ m h. t.still_runs m (s.still_runs m h);
  same_etime = λ m. t.same_etime m ∙ s.same_etime m;
  same_pid = λ m. t.same_pid m ∙ s.same_pid m;
  same_init = t.same_init ∙ s.same_init;
}

reparent_lem :
    (n i j me : ℕ) (lost : ℕ → Bool) (k : Kernel) (qs : ℕ → List ℕ)
    → i + n ≡ j
    → IsReady lost k qs
    → Reparents lost me i j k (reparent n i me k)
unfolding reparent
reparent_lem zero i j me lost k qs e r = (
  k,
  qs,
  refl,
  r,
  record {
    inside = λ m l u. absurd (omega arith);
    outside = λ m o. refl;
    still_runs = λ m h. h;
    same_etime = λ m. refl;
    same_pid = λ m. refl;
    same_init = refl;
  },
)
reparent_lem (suc n) i j me lost k qs e r =
    let (k1, q1, e1, r1, s1) = reparent_one_lem r me i in
    let (k2, q2, e2, r2, s2) = reparent_lem n (i + 1) j me lost k1 q1 (omega arith) r1 in
    (k2, q2, ground (arith, e1, e2), r2, Reparented-next me i j (omega arith) s1 s2)

-- What exit leaves: the process is a ZOMBIE that remembers the tick, and every child of it in the
-- table is init's; no other process has a new parent, and no pid has changed.
pub record Exited (me : ℕ) (k k' : Kernel) : Type 0 where
  pub state : (k'.proc me).state ≡ zombie
  pub etime : (k'.proc me).etime ≡ k.ticks
  pub parents : (i : ℕ) → i < nproc → (k'.proc i).parent ≡ adopted k.initproc me (k.proc i).parent
  pub pids : (i : ℕ) → (k'.proc i).pid ≡ (k.proc i).pid

exit-eq :
    (k k1 k2 : Kernel) (me : ℕ)
    → me ≢ k.initproc
    → wakeup1 (record_exit k me) (proc_chan ((record_exit k me).proc me).parent) ≡ some k1
    → reparent nproc 0 me k1 ≡ some k2
    → exit k me ≡ some (set_state k2 me zombie)
unfolding exit
exit-eq k k1 k2 me ne h1 h2 = rw (==-of_ne ne, h1, h2) refl

Exited-of :
    (k k1 k2 : Kernel) (me : ℕ)
    → Same (record_exit k me) k1
    → Reparented me 0 nproc k1 k2
    → Exited me k (set_state k2 me zombie)
Exited-of k k1 k2 me s t = record {
  state = ground arith;
  etime =
      ap (λ (p : Proc). p.etime) (update_self k2.proc me _)
      ∙ t.same_etime me
      ∙ s.etimes me
      ∙ ap (λ (p : Proc). p.etime) (update_self k.proc me _);
  parents = λ i lt.
      parent_kept k2 i ∙ t.inside i (omega arith) lt ∙ rw (s.init, s.parents i) (parents0 i);
  pids = λ i. pid_kept k2 i ∙ t.same_pid i ∙ s.pids i ∙ pids0 i;
}
  where
    parent_kept : (x : Kernel) (i : ℕ) → ((set_state x me zombie).proc i).parent ≡ (x.proc i).parent
    parent_kept x i = ground arith

    pid_kept : (x : Kernel) (i : ℕ) → ((set_state x me zombie).proc i).pid ≡ (x.proc i).pid
    pid_kept x i = ground arith

    same_parent : (i : ℕ) → ((record_exit k me).proc i).parent ≡ (k.proc i).parent
    same_parent i = ground arith

    parents0 :
        (i : ℕ)
        → adopted k.initproc me ((record_exit k me).proc i).parent
          ≡ adopted k.initproc me (k.proc i).parent
    parents0 i = ap (adopted k.initproc me) (same_parent i)

    pids0 : (i : ℕ) → ((record_exit k me).proc i).pid ≡ (k.proc i).pid
    pids0 i = ground arith

-- `exit` of a running process other than init reaches its switch, keeps the scheduler's invariant,
-- and leaves a ZOMBIE whose children are init's.
pub exit_lem :
    {lost : ℕ → Bool} {k : Kernel} {qs : ℕ → List ℕ}
    → IsReady lost k qs
    → (me : ℕ) → me ≢ k.initproc
    → (k.proc me).state ≡ running
    → (k' : Kernel) × (qs' : ℕ → List ℕ) × (exit k me ≡ some k')
      × IsReady lost k' qs'
      × Exited me k k'
exit_lem {lost} {k} {qs} r me ne h =
    let r0 : IsReady lost (record_exit k me) qs =
      IsReady-same (IsReady-edit r me (record (k.proc me) { etime = k.ticks }) refl refl)
        (record_exit k me) refl (λ c. refl) (λ c. refl) in
    let k0 = record_exit k me in
    let (k1, q1, e1, r1, x1, w1) = wakeup1_lem r0 (proc_chan (k0.proc me).parent) in
    let s1 = Woken-Same w1 in
    let (k2, q2, e2, r2, s2) = reparent_lem nproc 0 nproc me lost k1 q1 (omega arith) r1 in
    let runs : (k2.proc me).state ≡ running = s2.still_runs me (s1.runs me (ground arith)) in
    (
      set_state k2 me zombie,
      q2,
      exit-eq k k1 k2 me ne e1 e2,
      IsReady-set r2 me (record (k2.proc me) { state = zombie }) (λ q. ground arith)
          (λ q. ground arith),
      Exited-of k k1 k2 me s1 s2,
    )
