-- ===== src/Balance.antt =====
-- load_balance of proc.c: an E-core hands one process to the lightest P-core.
pub mod Refine
pub mod Effect
use os_ca.Prelude.{
  ℕ, zero, suc, Bool, true, false, ◌&&◌, Option, none, some, if◌then◌else◌, ◌>>=◌, slt32, sle32,
  add32,
}
use os_ca.Kernel.{Kernel, Proc, in_state, runnable, is_e, nproc}
use os_ca.RunQueue.{enqueue, dequeue}
use os_ca.Cores.{get_lightest_p_core}

-- `curr->state == RUNNABLE && curr->pid > 2`
pub is_movable : Proc → Bool
is_movable p = in_state p.state runnable && slt32 2 p.pid

-- The `while (curr != 0)` loop; the outer `none` means that the fuel ran out.
pub find_victim : ℕ → (ℕ → Proc) → Option ℕ → Option (Option ℕ)
unfolding is_movable
find_victim zero ps curr = none
find_victim (suc fuel) ps none = some none
find_victim (suc fuel) ps (some i) =
    let rest = find_victim fuel ps (ps i).next_run in
    if is_movable (ps i) then some (some i) else rest

-- `if (victim) { dequeue(e_core, victim); enqueue(lightest_p_core, victim); }`
pub move : Kernel → ℕ → ℕ → Option ℕ → Option Kernel
move k e p none = some k
move k e p (some victim) = do (status, k') ← dequeue k e victim; enqueue k' p victim

pub balance_onto : Kernel → ℕ → Option ℕ → Option Kernel
unfolding move
balance_onto k e none = some k
balance_onto k e (some p) =
    if sle32 (add32 (k.cpu p).queue_count 3) (k.cpu e).queue_count
    then (do victim ← find_victim (suc nproc) k.proc (k.cpu e).runq; move k e p victim)
    else some k

-- `e` is `mycpu()`.
pub load_balance : Kernel → ℕ → Option Kernel
unfolding balance_onto
load_balance k e =
    if is_e (k.cpu e).core_type then balance_onto k e (get_lightest_p_core k) else some k
