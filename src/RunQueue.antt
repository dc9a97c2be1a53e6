-- ===== src/RunQueue.antt =====
-- enqueue and dequeue of proc.c: the run queue of a CPU is a list linked through `next_run`.
-- A walk along the links takes fuel, and `none` means that it ran out: NPROC rounds pass every
-- process once, so a list of distinct processes never needs more.
pub mod Links
pub mod Invariant
pub mod Enqueue
pub mod Dequeue
use os_ca.Prelude.{
  ℕ, zero, suc, Bool, true, false, Option, none, some, ◌==◌, if◌then◌else◌, points_to, ◌>>=◌, add32,
  sub32,
}
use os_ca.Kernel.{Kernel, Proc, nproc, set_proc, set_cpu, set_next}

-- `while (curr->next_run != 0) curr = curr->next_run;`
pub tail_of : ℕ → (ℕ → Proc) → ℕ → Option ℕ
tail_of zero ps curr = none
tail_of (suc fuel) ps curr = elim (ps curr).next_run [
  | none ↦ some curr
  | some next ↦ tail_of fuel ps next
]

-- The first assignments of `enqueue`, before the queue is looked at.
abbrev pub detach : Kernel → ℕ → Kernel
detach k p = record k { proc = set_next k.proc p none }

-- `c->queue_count++`
abbrev pub count_up : Kernel → ℕ → Kernel
count_up k c = set_cpu k c (record (k.cpu c) { queue_count = add32 (k.cpu c).queue_count 1 })

abbrev pub count_down : Kernel → ℕ → Kernel
count_down k c = set_cpu k c (record (k.cpu c) { queue_count = sub32 (k.cpu c).queue_count 1 })

abbrev pub set_head : Kernel → ℕ → Option ℕ → Kernel
set_head k c h = set_cpu k c (record (k.cpu c) { runq = h })

-- The `if` of `enqueue`.
pub append_link : Kernel → ℕ → ℕ → Option ℕ → Option Kernel
append_link k c p none = some (set_head k c (some p))
append_link k c p (some head) = do
  last ← tail_of nproc k.proc head
  some (record k { proc = set_next k.proc last (some p) })

pub enqueue : Kernel → ℕ → ℕ → Option Kernel
unfolding append_link
enqueue k c p = do k' ← append_link (detach k p) c p (k.cpu c).runq; some (count_up k' c)

-- The loop of `dequeue`: the process whose `next_run` is `p`, if the walk meets one.
pub find_prev : ℕ → (ℕ → Proc) → ℕ → ℕ → Option (Option ℕ)
find_prev zero ps curr p = none
find_prev (suc fuel) ps curr p = elim (ps curr).next_run [
  | none ↦ some none
  | some next ↦ elim (next == p) [ true ↦ some (some curr) | false ↦ find_prev fuel ps next p ]
]

-- The result of `dequeue`: 0 and -1.
pub data Status : Type 0 where
  ok failed : Status

pub unlink : Kernel → ℕ → ℕ → Option ℕ → Status × Kernel
unlink k c p none = (failed, k)
unlink k c p (some prev) =
    let k' = count_down (record k { proc = set_next k.proc prev (k.proc p).next_run }) c in
    (ok, record k' { proc = set_next k'.proc p none })

pub dequeue_from : Kernel → ℕ → ℕ → Option ℕ → Option (Status × Kernel)
unfolding unlink
dequeue_from k c p none = some (failed, k)
dequeue_from k c p (some head) =
    let k' = count_down (set_head k c (k.proc p).next_run) c in
    if head == p
    then some (ok, record k' { proc = set_next k'.proc p none })
    else (do prev ← find_prev nproc k.proc head p; some (unlink k c p prev))

pub dequeue : Kernel → ℕ → ℕ → Option (Status × Kernel)
unfolding dequeue_from
dequeue k c p = dequeue_from k c p (k.cpu c).runq
