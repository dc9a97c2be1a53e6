-- ===== src/Timer/Slice.antt =====
-- How long a process keeps its CPU (trap.c).
use os_ca.Prelude.{
  ℕ, zero, suc, ◌+◌, ◌-◌, ◌^◌, ◌<◌, ◌≤◌, ◌≡◌, refl, ap, ◌∙◌, Bool, true, false, Option, none, some,
  List, [], ◌∷◌, ◌++◌, arith, ◌==◌, add32, sle32, update, Bool-cases, inl, inr, subst,
}
use os_ca.Kernel.{Kernel, Proc, Chan, address, CoreType, core_e, core_p, running, runnable, nproc}
use os_ca.RunQueue.Invariant.{body}
use os_ca.Schedule.Ready.{IsReady}
use os_ca.Wakeup.Join.{yield_lem}
use os_ca.Wakeup.Wake.{Woken, wakeup1_lem}
use os_ca.Process.Change.{IsReady-edit, IsReady-same}
use os_ca.Timer.{
  rr_quantum_ticks, advance_clock, running_on, set_slice, count_tick, dying, Turn, stays, yields,
  give_up, preempt, return_from_timer, timer, interrupts,
}

-- CPU `c` runs `p`, which has used `n` ticks of its slice and is not to die, and the queues are in order.
pub record Runs (lost : ℕ → Bool) (k : Kernel) (qs : ℕ → List ℕ) (c p n : ℕ) (t : CoreType)
    : Type 0 where
  pub ready : IsReady lost k qs
  pub current : (k.cpu c).current ≡ some p
  pub state : (k.proc p).state ≡ running
  pub alive : (k.proc p).killed ≡ false
  pub slice : (k.proc p).slice_ticks ≡ n
  pub core : (k.cpu c).core_type ≡ t
  pub small : p < nproc

module _ {lost : ℕ → Bool} {k : Kernel} {qs : ℕ → List ℕ} {c p n : ℕ} {t : CoreType}
    (r : Runs lost k qs c p n t) where
  woken-Runs :
      (chan : Chan) (k' : Kernel) (qs' : ℕ → List ℕ)
      → IsReady lost k' qs'
      → Woken chan 0 nproc k k'
      → Runs lost k' qs' c p n t
  woken-Runs chan k' qs' e w =
      let same : body (k'.proc p) ≡ body (k.proc p) =
        w.inside p (omega arith) r.small ∙ rw r.state refl in
      record {
        ready = e;
        current = w.current c ∙ r.current;
        state = ap (λ (x : Proc). x.state) same ∙ r.state;
        alive = ap (λ (x : Proc). x.killed) same ∙ r.alive;
        slice = ap (λ (x : Proc). x.slice_ticks) same ∙ r.slice;
        core = w.cores c ∙ r.core;
        small = r.small;
      }

  ticked-Runs : Runs lost (record k { ticks = add32 k.ticks 1 }) qs c p n t
  ticked-Runs = record {
    ready = IsReady-same r.ready _ refl (λ d. refl) (λ d. refl);
    current = r.current;
    state = r.state;
    alive = r.alive;
    slice = r.slice;
    core = r.core;
    small = r.small;
  }

module _ {lost : ℕ → Bool} {k : Kernel} {qs : ℕ → List ℕ} {c p n : ℕ} {t : CoreType}
    (r : Runs lost k qs c p n t) where
  clock-Runs :
      (chan : ℕ)
      → (k' : Kernel) × (qs' : ℕ → List ℕ) × (advance_clock k c chan ≡ some k')
        × Runs lost k' qs' c p n t
  unfolding advance_clock
  clock-Runs chan = elim (Bool-cases (c == 0)) [
    | inl z ↦
        let (k', qs', e, i, x, w) = wakeup1_lem (ticked-Runs r).ready (address chan) in
        (k', qs', rw z e, woken-Runs (ticked-Runs r) (address chan) k' qs' i w)
    | inr z ↦ (k, qs, rw z refl, r)
  ]

  running_on-some : running_on k c ≡ some p
  unfolding running_on
  running_on-some = rw (r.current, r.state) refl

  counted : count_tick k c ≡ set_slice k p (add32 (k.proc p).slice_ticks 1)
  unfolding count_tick
  counted = rw (running_on-some, count_tick) refl

  count-Runs : n < 2 ^ 31 → Runs lost (count_tick k c) qs c p (n + 1) t
  count-Runs h = rw counted (record {
    ready = IsReady-edit r.ready p _ refl refl;
    current = r.current;
    state = ground (arith, r.state);
    alive = ground (arith, r.alive);
    slice = ground (arith, r.slice);
    core = r.core;
    small = r.small;
  })

-- The process still has its CPU, with one more tick of its slice used.
abbrev pub Stays : (ℕ → Bool) → ℕ → ℕ → ℕ → CoreType → Option Turn → Type 0
Stays lost c p n t o =
    (k' : Kernel) × (qs' : ℕ → List ℕ) × (o ≡ some (stays k')) × Runs lost k' qs' c p n t

-- The process is RUNNABLE, at the end of its CPU's queue, with `n` as its slice_ticks.
abbrev pub Yields : (ℕ → Bool) → ℕ → ℕ → ℕ → Option Turn → Type 0
Yields lost c p n o =
    (k' : Kernel) × (qs' : ℕ → List ℕ) × (before : List ℕ) × (o ≡ some (yields k'))
    × IsReady lost k' qs'
    × (qs' c ≡ before ++ p ∷ [])
    × ((k'.proc p).state ≡ runnable)
    × ((k'.proc p).slice_ticks ≡ n)

module _ {lost : ℕ → Bool} {k : Kernel} {qs : ℕ → List ℕ} {c p n : ℕ} {t : CoreType}
    (r : Runs lost k qs c p n t) where
  give_up-Yields : Yields lost c p n (give_up k c p)
  give_up-Yields =
      let (k', e, i, s) = yield_lem r.ready c p r.small (ground (arith, r.state)) in
      (
        k',
        update qs c (qs c ++ p ∷ []),
        qs c,
        rw e refl,
        i,
        ground arith,
        ap (λ (x : Proc). x.state) (s.procs p) ∙ ground arith,
        ap (λ (x : Proc). x.slice_ticks) (s.procs p) ∙ ground (arith, r.slice),
      )

  dying-none : (user : Bool) → dying k c user ≡ none
  unfolding dying
  dying-none user = rw (r.current, r.alive) refl

  reset-Runs : Runs lost (set_slice k p 0) qs c p 0 t
  reset-Runs = record {
    ready = IsReady-edit r.ready p _ refl refl;
    current = r.current;
    state = ground (arith, r.state);
    alive = ground (arith, r.alive);
    slice = ground arith;
    core = r.core;
    small = r.small;
  }

module _ {lost : ℕ → Bool} {k : Kernel} {qs : ℕ → List ℕ} {c p n : ℕ} {t : CoreType}
    (r : Runs lost k qs c p n t) (chan : ℕ) (user : Bool) where
  timer-preempt :
      n < 2 ^ 31
      → (k2 : Kernel) × (qs2 : ℕ → List ℕ) × (timer k c chan user ≡ preempt k2 c (some p))
        × Runs lost k2 qs2 c p (n + 1) t
  unfolding timer return_from_timer
  timer-preempt h =
      let (k1, qs1, e, r1) = clock-Runs r chan in
      let r2 = count-Runs r1 h in
      (count_tick k1 c, qs1, rw (e, dying-none r2 user, running_on-some r2) refl, r2)

module _ {lost : ℕ → Bool} {k : Kernel} {qs : ℕ → List ℕ} {c p n : ℕ} (chan : ℕ) (user : Bool) where
  timer-Stays :
      Runs lost k qs c p n core_e
      → n + 1 < rr_quantum_ticks
      → Stays lost c p (n + 1) core_e (timer k c chan user)
  unfolding preempt
  timer-Stays r h =
      let (k2, qs2, e, r2) = timer-preempt r chan user (omega arith) in
      (k2, qs2, e ∙ ground (arith, r2.core, r2.slice), r2)

  -- A process on an E-core whose slice ends with this tick yields, with a new slice.
  timer-Yields_e :
      Runs lost k qs c p n core_e
      → rr_quantum_ticks ≤ n + 1
      → n < 2 ^ 31 - 1
      → Yields lost c p 0 (timer k c chan user)
  unfolding preempt
  timer-Yields_e r h l =
      let (k2, qs2, e, r2) = timer-preempt r chan user (omega arith) in
      let over : sle32 rr_quantum_ticks (k2.proc p).slice_ticks ≡ true = ground (arith, r2.slice) in
      let goes : timer k c chan user ≡ give_up (set_slice k2 p 0) c p =
        e ∙ rw (r2.core, over) refl in
      rw goes (give_up-Yields (reset-Runs r2))

  -- Each timer interrupt of a P-core that runs a process makes this process RUNNABLE again, behind all
  -- others in the queue of its CPU, however many ticks it has run: there is no time slice. The tick has
  -- been counted, and the scheduler's invariant holds. The process must not be a killed one in user code.
  pub timer-Yields_p :
      Runs lost k qs c p n core_p → n < 2 ^ 31 → Yields lost c p (n + 1) (timer k c chan user)
  unfolding preempt
  timer-Yields_p r l =
      let (k2, qs2, e, r2) = timer-preempt r chan user l in
      let goes : timer k c chan user ≡ give_up k2 c p = e ∙ rw r2.core refl in
      rw goes (give_up-Yields r2)

interrupts-Stays :
    (m : ℕ) {lost : ℕ → Bool} {k : Kernel} {qs : ℕ → List ℕ} {c p n : ℕ} (chan : ℕ) (user : Bool)
    → Runs lost k qs c p n core_e
    → n + m < rr_quantum_ticks
    → Stays lost c p (n + m) core_e (interrupts m k c chan user)
unfolding interrupts
interrupts-Stays zero {lost} {k} {qs} {c} {p} {n} chan user r h =
    let e : n ≡ n + 0 = omega arith in (k, qs, refl, subst (λ i. Runs lost k qs c p i core_e) e r)
interrupts-Stays (suc m) {lost} {c} {p} {n} chan user r h =
    let (k1, qs1, e, r1) = timer-Stays chan user r (omega arith) in
    let (k2, qs2, e2, r2) = interrupts-Stays m chan user r1 (omega arith) in
    let same : n + 1 + m ≡ n + suc m = omega arith in
    (k2, qs2, rw e e2, subst (λ i. Runs lost k2 qs2 c p i core_e) same r2)

interrupts-Yields :
    (m : ℕ) {lost : ℕ → Bool} {k : Kernel} {qs : ℕ → List ℕ} {c p n : ℕ} (chan : ℕ) (user : Bool)
    → Runs lost k qs c p n core_e
    → n + suc m ≡ rr_quantum_ticks
    → Yields lost c p 0 (interrupts (suc m) k c chan user)
unfolding interrupts
interrupts-Yields zero chan user r h =
    let (k', qs', before, e, a, b, d, f) = timer-Yields_e chan user r (omega arith) (omega arith) in
    (k', qs', before, rw e refl, a, b, d, f)
interrupts-Yields (suc m) chan user r h =
    let (k1, qs1, e, r1) = timer-Stays chan user r (omega arith) in
    let (k', qs', before, e2, a, b, d, f) = interrupts-Yields m chan user r1 (omega arith) in
    (k', qs', before, rw e e2, a, b, d, f)

-- A process that an E-core has just begun to run keeps the CPU over the next two timer interrupts, each
-- of which counts one tick, and leaves it at the third, RR_QUANTUM_TICKS: it is then RUNNABLE, behind all
-- others in the queue of its CPU and with a new slice, and the scheduler's invariant holds. The process
-- is not killed, and between the interrupts no step is taken, by it or on another CPU.
pub time_slice :
    {lost : ℕ → Bool} {k : Kernel} {qs : ℕ → List ℕ} {c p : ℕ} (chan : ℕ) (user : Bool)
    → Runs lost k qs c p 0 core_e
    → ((m : ℕ) → m < rr_quantum_ticks → Stays lost c p m core_e (interrupts m k c chan user))
      × Yields lost c p 0 (interrupts rr_quantum_ticks k c chan user)
time_slice {lost} {k} {c} {p} chan user r = (
  λ m h.
      let same : 0 + m ≡ m = omega arith in
      subst (λ i. Stays lost c p i core_e (interrupts m k c chan user)) same
        (interrupts-Stays m chan user r (omega arith)),
  interrupts-Yields 2 chan user r refl,
)
