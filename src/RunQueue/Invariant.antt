-- ===== src/RunQueue/Invariant.antt =====
-- The run queues of all CPUs (proc.c, proc.h): which processes each one holds, and that the links,
-- the counters and the processes agree with it.
use os_ca.Prelude.{
  ℕ, ◌<◌, ◌≤◌, ◌≡◌, refl, ◌∙◌, true, none, List, arith, length, contains, nodup, length-le_of_nodup,
}
use os_ca.Kernel.{Kernel, Proc, nproc}
use os_ca.RunQueue.Links.{Links, Links-same}

-- `qs c` is the queue of CPU `c`, its head first.
pub record Queues (k : Kernel) (qs : ℕ → List ℕ) : Type 0 where
  pub links : (c : ℕ) → Links k.proc (k.cpu c).runq (qs c)
  pub count : (c : ℕ) → (k.cpu c).queue_count ≡ length (qs c)
  pub distinct : (c : ℕ) → nodup (qs c) ≡ true
  pub bounded : (c i : ℕ) → contains i (qs c) ≡ true → i < nproc
  pub disjoint : (c d i : ℕ) → contains i (qs c) ≡ true → contains i (qs d) ≡ true → c ≡ d

-- A queue never holds more than NPROC processes.
pub length-le : {k : Kernel} {qs : ℕ → List ℕ} → Queues k qs → (c : ℕ) → length (qs c) ≤ nproc
length-le {qs} v c = length-le_of_nodup nproc (qs c) (v.distinct c) (v.bounded c)

-- A process without its link.
abbrev pub body : Proc → Proc
body p = record p { next_run = none }

-- Two states with the same tables but for the links and the queues' heads and counters.
pub record SameButQueues (k k' : Kernel) : Type 0 where
  pub procs : (i : ℕ) → body (k'.proc i) ≡ body (k.proc i)
  pub cores : (c : ℕ) → (k'.cpu c).core_type ≡ (k.cpu c).core_type
  pub current : (c : ℕ) → (k'.cpu c).current ≡ (k.cpu c).current
  pub rest : record k' { proc = k.proc; cpu = k.cpu } ≡ k

pub SameButQueues-refl : (k : Kernel) → SameButQueues k k
SameButQueues-refl k = record {
  procs = λ i. refl;
  cores = λ c. refl;
  current = λ c. refl;
  rest = refl;
}

pub SameButQueues-trans :
    {a b c : Kernel} → SameButQueues a b → SameButQueues b c → SameButQueues a c
SameButQueues-trans s t = record {
  procs = λ i. t.procs i ∙ s.procs i;
  cores = λ c. t.cores c ∙ s.cores c;
  current = λ c. t.current c ∙ s.current c;
  rest = ground (arith, s.rest, t.rest);
}

-- The queues are read off the links, heads and counters alone.
pub Queues-same :
    {k k' : Kernel} {qs : ℕ → List ℕ}
    → ((i : ℕ) → (k'.proc i).next_run ≡ (k.proc i).next_run)
    → ((c : ℕ) → (k'.cpu c).runq ≡ (k.cpu c).runq)
    → ((c : ℕ) → (k'.cpu c).queue_count ≡ (k.cpu c).queue_count)
    → Queues k qs
    → Queues k' qs
Queues-same {k} {k'} {qs} n h m v = record {
  links = λ c. rw (h c) (Links-same k.proc k'.proc (k.cpu c).runq (qs c) n (v.links c));
  count = λ c. m c ∙ v.count c;
  distinct = v.distinct;
  bounded = v.bounded;
  disjoint = v.disjoint;
}
