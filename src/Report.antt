-- ===== src/Report.antt =====
-- What proc.c reports of the process table: collect_process_family, and the measure of the throughput.
-- The bounds of the caller's arrays are not negative.
pub mod Family
pub mod Measure
use os_ca.Prelude.{
  ℕ, zero, suc, ◌+◌, ◌/◌, Bool, true, false, ◌&&◌, not, Option, none, some, if◌then◌else◌, ◌==◌,
  ltb, points_to, update, sub32, mul32,
}
use os_ca.Kernel.{Kernel, Proc, in_state, unused, nproc}

abbrev pub is_live : Kernel → ℕ → Bool
is_live k i = not (in_state (k.proc i).state unused)

-- The search for the process, from entry `i` on.
pub find_target : ℕ → ℕ → ℕ → Kernel → Option ℕ
find_target zero i pid k = none
find_target (suc n) i pid k =
    let rest = find_target n (i + 1) pid k in
    if is_live k i && ((k.proc i).pid == pid) then some i else rest

-- The loop that lists the pids of some entries in the array `out`, which has place for `max`; `n` is
-- the number of entries found so far.
pub list_pids : (ℕ → Bool) → ℕ → ℕ → Kernel → ℕ → (ℕ → ℕ) → ℕ → (ℕ → ℕ) × ℕ
list_pids wanted zero i k max out n = (out, n)
list_pids wanted (suc rounds) i k max out n =
    let found = is_live k i && wanted i in
    let out' = if found && ltb n max then update out n (k.proc i).pid else out in
    list_pids wanted rounds (i + 1) k max out' (if found then n + 1 else n)

-- `p->parent == target`
abbrev pub is_child_of : Kernel → ℕ → ℕ → Bool
is_child_of k target i = points_to (k.proc i).parent target

-- `p->parent == target->parent && p->pid != target->pid`
abbrev pub is_sibling_of : Kernel → ℕ → ℕ → ℕ → Bool
is_sibling_of k target parent i =
    points_to (k.proc i).parent parent && not ((k.proc i).pid == (k.proc target).pid)

-- `none` stands for a parent's pid of -1.
pub record FamilyReport : Type 0 where
  pub ppid : Option ℕ
  pub child_pids : ℕ → ℕ
  pub num_child : ℕ
  pub sib_pids : ℕ → ℕ
  pub num_sib : ℕ

-- `if(target->parent)` and its loop.
pub list_siblings : Kernel → ℕ → Option ℕ → ℕ → (ℕ → ℕ) → (ℕ → ℕ) × ℕ
unfolding list_pids
list_siblings k target none max out = (out, 0)
list_siblings k target (some parent) max out =
    list_pids (is_sibling_of k target parent) nproc 0 k max out 0

abbrev pub parent_pid : Kernel → Option ℕ → Option ℕ
parent_pid k none = none
parent_pid k (some parent) = some (k.proc parent).pid

abbrev pub at_most : ℕ → ℕ → ℕ
at_most max n = if ltb n max then n else max

-- What follows once the target is found; `children` and `siblings` are the arrays before the call.
pub report_on : Kernel → ℕ → ℕ → (ℕ → ℕ) → ℕ → (ℕ → ℕ) → FamilyReport
unfolding list_siblings
report_on k target max_child children max_sib siblings =
    let (child_pids, nc) = list_pids (is_child_of k target) nproc 0 k max_child children 0 in
    let (sib_pids, ns) = list_siblings k target (k.proc target).parent max_sib siblings in
    record {
      ppid = parent_pid k (k.proc target).parent;
      child_pids = child_pids;
      num_child = at_most max_child nc;
      sib_pids = sib_pids;
      num_sib = at_most max_sib ns;
    }

-- `none` is -1.
pub collect_process_family : Kernel → ℕ → ℕ → (ℕ → ℕ) → ℕ → (ℕ → ℕ) → Option FamilyReport
unfolding find_target report_on
collect_process_family k pid max_child children max_sib siblings =
    elim (find_target nproc 0 pid k) [
      | none ↦ none
      | some target ↦ some (report_on k target max_child children max_sib siblings)
    ]

abbrev pub start_measure : Kernel → Kernel
start_measure k = record k {
  metrics_active = true;
  metrics_start_tick = k.ticks;
  metrics_proc_completed = 0;
}

-- What end_measure prints.
pub record Metrics : Type 0 where
  pub duration : ℕ
  pub completed : ℕ
  pub throughput : ℕ

abbrev pub metrics : ℕ → ℕ → Metrics
metrics duration count = record {
  duration = duration;
  completed = count;
  throughput = if duration == 0 then 0 else mul32 count 1000 / duration;
}

-- `none` is -1. The quotient is of unsigned words, since `duration` is unsigned.
unfoldable pub end_measure : Kernel → Option Metrics × Kernel
end_measure k =
    if k.metrics_active
    then (
      some (metrics (sub32 k.ticks k.metrics_start_tick) k.metrics_proc_completed),
      record k { metrics_active = false },
    )
    else (none, k)
