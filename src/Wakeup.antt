-- ===== src/Wakeup.antt =====
-- yield, sleep, wakeup1, wakeup and kill of proc.c, under ptable.lock. The switch to the scheduler
-- that sched() makes splits yield and sleep: `yield` and `fall_asleep` are the parts before it,
-- `tidy_up` is the part of sleep after it.
pub mod Join
pub mod Wake
pub mod Kill
use os_ca.Prelude.{
  ℕ, zero, suc, ◌+◌, Bool, true, false, ◌&&◌, Option, none, some, if◌then◌else◌, ◌>>=◌, ◌==◌,
}
use os_ca.Kernel.{
  Kernel, Proc, Chan, null, same_chan, in_state, sleeping, runnable, nproc, set_proc, set_state,
}
use os_ca.RunQueue.{enqueue, Status, ok, failed}
use os_ca.Cores.{get_least_loaded_e_core}

-- `c` is `mycpu()` and `p` is `myproc()`.
pub yield : Kernel → ℕ → ℕ → Option Kernel
yield k c p = enqueue (set_state k p runnable) c p

unfoldable pub fall_asleep : Kernel → ℕ → Chan → Kernel
fall_asleep k p chan = set_proc k p (record (k.proc p) { chan = chan; state = sleeping })

unfoldable pub tidy_up : Kernel → ℕ → Kernel
tidy_up k p = set_proc k p (record (k.proc p) { chan = null })

-- `p->state == SLEEPING && p->chan == chan`
abbrev pub waits_on : Proc → Chan → Bool
waits_on p chan = in_state p.state sleeping && same_chan p.chan chan

-- `p->state = RUNNABLE; enqueue(get_least_loaded_e_core(), p)`
unfoldable pub make_runnable : Kernel → ℕ → Option Kernel
make_runnable k i = let k' = set_state k i runnable in enqueue k' (get_least_loaded_e_core k') i

pub wake_one : Kernel → Chan → ℕ → Option Kernel
unfolding make_runnable
wake_one k chan i = if waits_on (k.proc i) chan then make_runnable k i else some k

-- The loop of `wakeup1`, with `n` rounds left from process `i` on.
pub wake_from : ℕ → ℕ → Chan → Kernel → Option Kernel
unfolding wake_one
wake_from zero i chan k = some k
wake_from (suc n) i chan k = do k' ← wake_one k chan i; wake_from n (i + 1) chan k'

pub wakeup1 : Kernel → Chan → Option Kernel
unfolding wake_from
wakeup1 k chan = wake_from nproc 0 chan k

-- `p->killed = 1; if(p->state == SLEEPING) p->state = RUNNABLE;`
abbrev pub killed_proc : Proc → Proc
killed_proc p = record p {
  killed = true;
  state = if in_state p.state sleeping then runnable else p.state;
}

pub kill_from : ℕ → ℕ → ℕ → Kernel → Status × Kernel
kill_from zero i pid k = (failed, k)
kill_from (suc n) i pid k =
    let rest = kill_from n (i + 1) pid k in
    if (k.proc i).pid == pid then (ok, set_proc k i (killed_proc (k.proc i))) else rest

pub kill : Kernel → ℕ → Status × Kernel
unfolding kill_from
kill k pid = kill_from nproc 0 pid k
