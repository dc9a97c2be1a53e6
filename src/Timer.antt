-- ===== src/Timer.antt =====
-- The timer interrupt in trap.c: the clock, and the time slice after which a process gives up its CPU.
-- `c` is the CPU that takes the interrupt, `chan` the address of `ticks`, and `user` says whether user code
-- was running. The part before a switch is one step, which no other CPU interrupts.
pub mod Slice
use os_ca.Prelude.{
  ℕ, zero, suc, ◌+◌, Bool, true, false, ◌&&◌, Option, none, some, if◌then◌else◌, ◌>>=◌, ◌==◌, add32,
  sle32,
}
use os_ca.Kernel.{Kernel, Chan, address, in_state, running, is_e, set_proc}
use os_ca.Wakeup.{yield, wakeup1}
use os_ca.Process.{exit}

abbrev pub rr_quantum_ticks : ℕ
rr_quantum_ticks = 3

-- What CPU 0 does for the clock.
pub advance_clock : Kernel → ℕ → ℕ → Option Kernel
advance_clock k c chan =
    if c == 0 then wakeup1 (record k { ticks = add32 k.ticks 1 }) (address chan) else some k

-- `p && p->state == RUNNING`, with `p = myproc()`
pub running_on : Kernel → ℕ → Option ℕ
running_on k c = do
  p ← (k.cpu c).current
  if in_state (k.proc p).state running then some p else none

abbrev pub set_slice : Kernel → ℕ → ℕ → Kernel
set_slice k p n = set_proc k p (record (k.proc p) { slice_ticks = n })

-- `p->slice_ticks++`
pub count_tick : Kernel → ℕ → Kernel
count_tick k c = elim (running_on k c) [
  | none ↦ k
  | some p ↦ set_slice k p (add32 (k.proc p).slice_ticks 1)
]

-- `myproc() && myproc()->killed && (tf->cs&3) == DPL_USER`
pub dying : Kernel → ℕ → Bool → Option ℕ
dying k c user = do p ← (k.cpu c).current; if (k.proc p).killed && user then some p else none

-- The process goes on, gives up its CPU, or exits.
pub data Turn : Type 0 where
  stays : Kernel → Turn
  yields : Kernel → Turn
  exits : Kernel → Turn

abbrev pub give_up : Kernel → ℕ → ℕ → Option Turn
give_up k c p = do k' ← yield k c p; some (yields k')

-- The end of a time slice.
pub preempt : Kernel → ℕ → Option ℕ → Option Turn
preempt k c none = some (stays k)
preempt k c (some p) =
    if is_e (k.cpu c).core_type
    then if sle32 rr_quantum_ticks (k.proc p).slice_ticks
      then give_up (set_slice k p 0) c p
      else some (stays k)
    else give_up k c p

-- What follows the switch on the cause of the trap.
pub return_from_timer : Kernel → ℕ → Option ℕ → Option Turn
unfolding preempt running_on
return_from_timer k c none = preempt k c (running_on k c)
return_from_timer k c (some p) = do k' ← exit k p; some (exits k')

pub timer : Kernel → ℕ → ℕ → Bool → Option Turn
unfolding advance_clock count_tick dying return_from_timer
timer k c chan user = do
  k1 ← advance_clock k c chan
  let k2 = count_tick k1 c
  return_from_timer k2 c (dying k2 c user)

-- `n` interrupts in a row, up to the one at which the process leaves the CPU.
pub interrupts : ℕ → Kernel → ℕ → ℕ → Bool → Option Turn
unfolding timer
interrupts zero k c chan user = some (stays k)
interrupts (suc n) k c chan user = timer k c chan user >>= (λ t. elim t [
  | stays k' ↦ interrupts n k' c chan user
  | yields k' ↦ some (yields k')
  | exits k' ↦ some (exits k')
])
