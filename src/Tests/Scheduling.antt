-- ===== src/Tests/Scheduling.antt =====
-- The scheduler's theorems on the small machine, and runs of its code.
use os_ca.Prelude.{add32, ℕ, ◌≡◌, refl, Option, some, List, [], ◌∷◌, ◌++◌, arith, update}
use os_ca.Kernel.{Kernel, of_proc, runnable, nproc}
use os_ca.RunQueue.{enqueue, dequeue, ok}
use os_ca.RunQueue.Invariant.{Queues, SameButQueues}
use os_ca.RunQueue.Enqueue.{enqueue_refines}
use os_ca.RunQueue.Dequeue.{dequeue_refines}
use os_ca.Balance.{load_balance}
use os_ca.Balance.Refine.{balanced, load_balance_refines}
use os_ca.Schedule.{dispatch}
use os_ca.Schedule.Dispatch.{dispatch_lem, Selected, Dispatched, triggered}
use os_ca.Schedule.Ready.{IsReady}
use os_ca.Wakeup.{wakeup1, kill}
use os_ca.Wakeup.Wake.{wakeup1_lem, Extends, Woken}
use os_ca.Wakeup.Kill.{IsTarget}
use os_ca.Process.{allocproc, fork, exit, find_unused}
use os_ca.Process.Alloc.{fork_lem, Forked}
use os_ca.Process.Exit.{exit_lem, Exited}
use os_ca.Schedule.{switched_back}
use os_ca.Process.System.{
  ticks, kills, back, allocs, next, kill_lost, Kept, Step-IsReady, here, killed_sleeper_never_runs,
}
use os_ca.Tests.Machine.{machine, queues, machine-Queues, none_lost, machine-IsReady}

enqueue_refines_example :
    (k' : Kernel) × (enqueue machine 1 5 ≡ some k')
    × Queues k' (update queues 1 ([] ++ 5 ∷ []))
    × SameButQueues machine k'
enqueue_refines_example = enqueue_refines machine-Queues 1 5 (omega arith) (λ d. ground arith)

dequeue_refines_example :
    (k' : Kernel) × (dequeue machine 0 3 ≡ some (ok, k'))
    × Queues k' (update queues 0 (2 ∷ 4 ∷ []))
    × SameButQueues machine k'
dequeue_refines_example = dequeue_refines machine-Queues 0 3 refl

load_balance_refines_example :
    (k' : Kernel) × (load_balance machine 0 ≡ some k')
    × Queues k' (balanced machine queues 0)
    × SameButQueues machine k'
load_balance_refines_example = load_balance_refines machine-Queues 0

dispatch_lem_example :
    (o : Option ℕ) × (k' : Kernel) × (dispatch machine 0 ≡ some (o, k'))
    × Selected (machine.cpu 0).core_type machine.proc (triggered machine queues 0 0) o
    × Dispatched machine (triggered machine queues 0) 0 o k'
dispatch_lem_example = dispatch_lem machine-Queues 0

wakeup1_lem_example :
    (k' : Kernel) × (qs' : ℕ → List ℕ) × (wakeup1 machine (of_proc 5) ≡ some k')
    × IsReady none_lost k' qs'
    × Extends queues qs'
    × Woken (of_proc 5) 0 nproc machine k'
wakeup1_lem_example = wakeup1_lem machine-IsReady (of_proc 5)

sleeper : IsTarget machine 0 12 6
sleeper = (omega arith, refl, λ l a b. ground arith)

-- After the kill, a CPU is back in its scheduler, a fork gets its entry, and a tick passes.
abbrev later_on : Kernel
later_on =
    let k = (allocproc (switched_back (kill machine 12).1 0) (some 99)).1 in
    record k { ticks = add32 k.ticks 1 }

killed_sleeper_never_runs_example : (later_on.proc 6).state ≡ runnable
killed_sleeper_never_runs_example =
    killed_sleeper_never_runs machine-IsReady 12 6 (omega arith) sleeper refl
      (next (next (next here (back 0)) (allocs (some 99))) ticks)

fork_lem_example :
    (k' : Kernel) × (qs' : ℕ → List ℕ) × (fork machine 5 (some 99) (some 98) ≡ some (some 13, k'))
    × IsReady none_lost k' qs'
    × Forked machine queues 5 0 99 98 k' qs'
unfolding find_unused
fork_lem_example = fork_lem machine-IsReady 5 0 99 98 refl

exit_lem_example :
    (k' : Kernel) × (qs' : ℕ → List ℕ) × (exit machine 5 ≡ some k')
    × IsReady none_lost k' qs'
    × Exited 5 machine k'
exit_lem_example = exit_lem machine-IsReady 5 (omega arith) refl

Step-IsReady_example : Kept (kill_lost none_lost machine (kill machine 12)) (kill machine 12).1
Step-IsReady_example = Step-IsReady machine-IsReady (kills 12)
