-- ===== src/Tests/Machine.antt =====
-- A small machine: CPU 0 is an E-core with three queued processes, CPU 1 a P-core with none; process
-- 5 runs on CPU 1, process 6 sleeps on it, and every other entry of the table is UNUSED.
use os_ca.Prelude.{
  ℕ, Bool, true, false, Option, none, some, List, [], ◌∷◌, arith, update, ◌==◌, if◌then◌else◌,
}
use os_ca.Kernel.{Kernel, Proc, unused, sleeping, runnable, running, null, of_proc, core_e, core_p}
use os_ca.RunQueue.Invariant.{Queues}
use os_ca.Schedule.Ready.{IsReady}

abbrev pub no_proc : Proc
no_proc = record {
  sz = 0;
  pgdir = none;
  kstack = none;
  state = unused;
  pid = 0;
  parent = none;
  chan = null;
  killed = false;
  ctime = 0;
  slice_ticks = 0;
  etime = 0;
  next_run = none;
}

abbrev ready : ℕ → ℕ → Option ℕ → Proc
ready pid ctime next = record no_proc {
  state = runnable;
  pid = pid;
  ctime = ctime;
  next_run = next;
}

abbrev pub procs : ℕ → Proc
procs =
    update
      (update
        (update (update (update (λ _. no_proc) 2 (ready 1 10 (some 3))) 3 (ready 8 30 (some 4))) 4
          (ready 9 20 none))
        5 (record no_proc { state = running; pid = 11; parent = some 2; ctime = 40 }))
      6 (record no_proc { state = sleeping; pid = 12; parent = some 5; chan = of_proc 5 })

abbrev pub machine : Kernel
machine = record {
  proc = procs;
  cpu = λ c.
      if c == 0
      then record { current = none; core_type = core_e; runq = some 2; queue_count = 3 }
      else record { current = none; core_type = core_p; runq = none; queue_count = 0 };
  ncpu = 2;
  ticks = 15;
  nextpid = 13;
  initproc = 2;
  metrics_active = true;
  metrics_start_tick = 0;
  metrics_proc_completed = 0;
}

abbrev pub queues : ℕ → List ℕ
queues c = if c == 0 then 2 ∷ 3 ∷ 4 ∷ [] else []

pub machine-Queues : Queues machine queues
machine-Queues = record {
  links = λ c. ground arith;
  count = λ c. ground arith;
  distinct = λ c. ground arith;
  bounded = λ c i h. ground arith;
  disjoint = λ c d i h h'. ground arith;
}

abbrev pub none_lost : ℕ → Bool
none_lost _ = false

pub machine-IsReady : IsReady none_lost machine queues
machine-IsReady = record {
  queues = machine-Queues;
  is_runnable = λ c i h. ground arith;
  is_queued = λ i lt h f. (0, ground arith);
  lost_runnable = λ i h. absurd (ground arith);
  lost_free = λ c i h. absurd (ground arith);
}
