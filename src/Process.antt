-- ===== src/Process.antt =====
-- allocproc, fork, exit and wait of proc.c on the process table and the run queues. The pages that
-- kalloc and copyuvm return are arguments (`none` where they return 0); open files, the current
-- directory, the name and the saved registers are not part of the state.
-- A `none` of `exit` and of what it calls is a panic or a walk that does not end.
pub mod Change
pub mod Alloc
pub mod Exit
pub mod System
pub mod Forks
pub mod Wait
use os_ca.Prelude.{
  ℕ, zero, suc, ◌+◌, Bool, true, false, ◌&&◌, Option, none, some, if◌then◌else◌, ◌>>=◌, ◌==◌, add32,
  points_to,
}
use os_ca.Kernel.{
  Kernel, Proc, Chan, of_proc, proc_chan, in_state, ProcState, unused, embryo, zombie, runnable,
  nproc, set_proc, set_state,
}
use os_ca.Wakeup.{make_runnable, wakeup1, fall_asleep}

-- The search for an UNUSED entry, with `n` rounds left from process `i` on.
unfoldable pub find_unused : ℕ → ℕ → Kernel → Option ℕ
find_unused zero i k = none
find_unused (suc n) i k =
    let rest = find_unused n (i + 1) k in if in_state (k.proc i).state unused then some i else rest

-- The assignments under the label `found`.
abbrev pub embryo_proc : Kernel → ℕ → Proc
embryo_proc k p = record (k.proc p) {
  state = embryo;
  pid = k.nextpid;
  ctime = k.ticks;
  slice_ticks = 0;
  next_run = none;
  etime = 0;
}

abbrev pub found : Kernel → ℕ → Kernel
found k p = record (set_proc k p (embryo_proc k p)) { nextpid = add32 k.nextpid 1 }

-- `page` is what kalloc returns for the kernel stack.
abbrev pub give_stack : Kernel → ℕ → Option ℕ → Option ℕ × Kernel
give_stack k p none = (none, set_proc k p (record (k.proc p) { kstack = none; state = unused }))
give_stack k p (some page) = (some p, set_proc k p (record (k.proc p) { kstack = some page }))

pub allocproc : Kernel → Option ℕ → Option ℕ × Kernel
unfolding find_unused
allocproc k page = elim (find_unused nproc 0 k) [
  | none ↦ (none, k)
  | some p ↦ give_stack (found k p) p page
]

-- `np->pgdir = 0; kfree(np->kstack); np->kstack = 0; np->state = UNUSED;`
abbrev pub drop_child : Kernel → ℕ → Kernel
drop_child k np = set_proc k np (record (k.proc np) { pgdir = none; kstack = none; state = unused })

-- The assignments of fork to the child before it is made RUNNABLE.
abbrev pub copy_into : Kernel → ℕ → ℕ → ℕ → Kernel
copy_into k me np dir =
    set_proc k np (record (k.proc np) { pgdir = some dir; sz = (k.proc me).sz; parent = some me })

-- The rest of fork once `np` is allocated; `dir` is what copyuvm returns. The result is the child's
-- pid, or `none` for -1.
pub fork_into : Kernel → ℕ → ℕ → Option ℕ → Option (Option ℕ × Kernel)
fork_into k me np none = some (none, drop_child k np)
fork_into k me np (some dir) = do
  k' ← make_runnable (copy_into k me np dir) np
  some (some (k.proc np).pid, k')

-- `if((np = allocproc()) == 0) return -1;` and what follows.
pub fork_after : ℕ → Option ℕ → Option ℕ × Kernel → Option (Option ℕ × Kernel)
unfolding fork_into
fork_after me dir (none, k) = some (none, k)
fork_after me dir (some np, k) = fork_into k me np dir

pub fork : Kernel → ℕ → Option ℕ → Option ℕ → Option (Option ℕ × Kernel)
unfolding allocproc fork_after
fork k me page dir = fork_after me dir (allocproc k page)

-- `if(p->state == ZOMBIE) wakeup1(initproc);`
pub wake_init : Kernel → ℕ → Option Kernel
wake_init k i = if in_state (k.proc i).state zombie then wakeup1 k (of_proc k.initproc) else some k

-- The body of exit's loop over the table.
pub reparent_one : Kernel → ℕ → ℕ → Option Kernel
unfolding wake_init
reparent_one k me i =
    if points_to (k.proc i).parent me
    then wake_init (set_proc k i (record (k.proc i) { parent = some k.initproc })) i
    else some k

pub reparent : ℕ → ℕ → ℕ → Kernel → Option Kernel
unfolding reparent_one
reparent zero i me k = some k
reparent (suc n) i me k = do k' ← reparent_one k me i; reparent n (i + 1) me k'

-- `curproc->etime = ticks; if(metrics_active) metrics_proc_completed++;`
abbrev pub record_exit : Kernel → ℕ → Kernel
record_exit k me =
    let k' = set_proc k me (record (k.proc me) { etime = k.ticks }) in
    record k' {
      metrics_proc_completed =
          if k.metrics_active then add32 k.metrics_proc_completed 1 else k.metrics_proc_completed;
    }

-- exit up to its call of sched.
pub exit : Kernel → ℕ → Option Kernel
unfolding reparent
exit k me = if me == k.initproc then none else (do
  let k0 = record_exit k me
  k1 ← wakeup1 k0 (proc_chan (k0.proc me).parent)
  k2 ← reparent nproc 0 me k1
  some (set_state k2 me zombie))

-- One scan of the table by `wait`.
pub data Scan : Type 0 where
  found_zombie : ℕ → Scan
  found_none : (havekids : Bool) → Scan

pub scan : ℕ → ℕ → ℕ → Kernel → Bool → Scan
scan zero i me k havekids = found_none havekids
scan (suc n) i me k havekids =
    let is_child = points_to (k.proc i).parent me in
    let rest = scan n (i + 1) me k (if is_child then true else havekids) in
    if is_child && in_state (k.proc i).state zombie then found_zombie i else rest

-- The assignments that free a ZOMBIE's entry; kfree and freevm get its stack and page table.
abbrev pub reap : Kernel → ℕ → Kernel
reap k i =
    set_proc k i
      (record (k.proc i) { kstack = none; pid = 0; parent = none; killed = false; state = unused })

-- A pass of the `for(;;)` of `wait`: it returns a pid or -1, or sleeps.
pub data WaitResult : Type 0 where
  reaped : ℕ → Kernel → WaitResult
  no_child : WaitResult
  asleep : Kernel → WaitResult

pub wait_after : Kernel → ℕ → Scan → WaitResult
wait_after k me (found_zombie i) = reaped (k.proc i).pid (reap k i)
wait_after k me (found_none false) = no_child
wait_after k me (found_none true) =
    if (k.proc me).killed then no_child else asleep (fall_asleep k me (of_proc me))

pub wait : Kernel → ℕ → WaitResult
unfolding scan wait_after
wait k me = wait_after k me (scan nproc 0 me k false)
