-- ===== src/Schedule.antt =====
-- One round of scheduler() of proc.c, up to the switch to the process (`dispatch`) and after it
-- (`switched_back`), under ptable.lock. The segment registers and stacks that switchuvm, swtch and
-- switchkvm change are not part of the state.
pub mod Choice
pub mod Dispatch
pub mod Ready
use os_ca.Prelude.{
  ℕ, zero, suc, ◌%◌, Bool, true, false, ◌&&◌, Option, none, some, if◌then◌else◌, ◌>>=◌, ltb, ◌==◌,
}
use os_ca.Kernel.{
  Kernel, Proc, in_state, runnable, running, is_e, nproc, set_proc, set_cpu, CoreType, core_e,
  core_p,
}
use os_ca.RunQueue.{dequeue, Status, ok, failed}
use os_ca.Balance.{load_balance}

abbrev pub is_runnable : Proc → Bool
is_runnable p = in_state p.state runnable

-- The loop of an E-core: the first RUNNABLE process.
pub choose_rr : ℕ → (ℕ → Proc) → Option ℕ → Option (Option ℕ)
choose_rr zero ps curr = none
choose_rr (suc fuel) ps none = some none
choose_rr (suc fuel) ps (some i) =
    let rest = choose_rr fuel ps (ps i).next_run in
    if is_runnable (ps i) then some (some i) else rest

-- `oldest == 0 || curr->ctime < oldest->ctime`
abbrev pub is_older : (ℕ → Proc) → ℕ → Option ℕ → Bool
is_older ps i none = true
is_older ps i (some oldest) = ltb (ps i).ctime (ps oldest).ctime

-- The loop of a P-core: the RUNNABLE process that was created first.
pub choose_fcfs : ℕ → (ℕ → Proc) → Option ℕ → Option ℕ → Option (Option ℕ)
choose_fcfs zero ps curr oldest = none
choose_fcfs (suc fuel) ps none oldest = some oldest
choose_fcfs (suc fuel) ps (some i) oldest =
    choose_fcfs fuel ps (ps i).next_run
      (if is_runnable (ps i) && is_older ps i oldest then some i else oldest)

pub choose : Kernel → ℕ → Option (Option ℕ)
choose k c =
    if is_e (k.cpu c).core_type
    then choose_rr (suc nproc) k.proc (k.cpu c).runq
    else choose_fcfs (suc nproc) k.proc (k.cpu c).runq none

-- `c->proc = p; p->slice_ticks = 0; p->state = RUNNING`
abbrev pub begin : Kernel → ℕ → ℕ → Kernel
begin k c p =
    let k' = set_cpu k c (record (k.cpu c) { current = some p }) in
    set_proc k' p (record (k.proc p) { slice_ticks = 0; state = running })

-- The two tests of `p != 0` after the choice.
pub take_from : Kernel → ℕ → Option ℕ → Option (Option ℕ × Kernel)
take_from k c none = some (none, k)
take_from k c (some p) = do
  (status, k') ← dequeue k c p
  elim status [ ok ↦ some (some p, begin k' c p) | failed ↦ some (none, k') ]

pub trigger_balance : Kernel → ℕ → Option Kernel
trigger_balance k c =
    if is_e (k.cpu c).core_type && (k.ticks % 5 == 0) then load_balance k c else some k

-- The process that is to run, if there is one.
pub dispatch : Kernel → ℕ → Option (Option ℕ × Kernel)
unfolding trigger_balance take_from
dispatch k c = do k' ← trigger_balance k c; p ← choose k' c; take_from k' c p

-- `c->proc = 0`
unfoldable pub switched_back : Kernel → ℕ → Kernel
switched_back k c = set_cpu k c (record (k.cpu c) { current = none })
