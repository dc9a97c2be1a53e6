-- ===== src/Process/Change.antt =====
-- Changes of the process table (proc.c) that leave the scheduler's invariant alone.
use os_ca.Prelude.{ℕ, ◌≡◌, refl, ◌≢◌, Bool, List, arith}
use os_ca.Kernel.{Kernel, Proc, runnable, set_proc}
use os_ca.RunQueue.Links.{Links-update}
use os_ca.RunQueue.Invariant.{Queues-same}
use os_ca.Schedule.Ready.{IsReady}
use os_ca.Wakeup.Join.{IsReady-IsFree}

module _ {lost : ℕ → Bool} {k : Kernel} {qs : ℕ → List ℕ} (r : IsReady lost k qs) where
  -- A process that neither was nor becomes RUNNABLE.
  pub IsReady-set :
      (i : ℕ) (x : Proc)
      → (k.proc i).state ≢ runnable
      → x.state ≢ runnable
      → IsReady lost (set_proc k i x) qs
  IsReady-set i x was is = record {
    queues = record {
      links = λ c.
          Links-update k.proc i x (k.cpu c).runq (qs c) (IsReady-IsFree r i was c)
            (r.queues.links c);
      count = r.queues.count;
      distinct = r.queues.distinct;
      bounded = r.queues.bounded;
      disjoint = r.queues.disjoint;
    };
    is_runnable = λ c j m. ground (arith, r.is_runnable c j, IsReady-IsFree r i was c);
    is_queued = λ j lt e f. r.is_queued j lt (ground arith) f;
    lost_runnable = λ j f. ground (arith, r.lost_runnable j);
    lost_free = r.lost_free;
  }

  -- A change that keeps the state and the link of a process.
  pub IsReady-edit :
      (i : ℕ) (x : Proc)
      → x.state ≡ (k.proc i).state
      → x.next_run ≡ (k.proc i).next_run
      → IsReady lost (set_proc k i x) qs
  IsReady-edit i x s n = record {
    queues =
        Queues-same {k = k} {k' = set_proc k i x} (λ j. ground arith) (λ c. refl) (λ c. refl)
          r.queues;
    is_runnable = λ c j m. ground (arith, r.is_runnable c j);
    is_queued = λ j lt e f. r.is_queued j lt (ground arith) f;
    lost_runnable = λ j f. ground (arith, r.lost_runnable j);
    lost_free = r.lost_free;
  }

  -- A change outside the process table that keeps heads and counters.
  pub IsReady-same :
      (k' : Kernel)
      → k'.proc ≡ k.proc
      → ((c : ℕ) → (k'.cpu c).runq ≡ (k.cpu c).runq)
      → ((c : ℕ) → (k'.cpu c).queue_count ≡ (k.cpu c).queue_count)
      → IsReady lost k' qs
  IsReady-same k' p h n = record {
    queues = Queues-same {k = k} {k' = k'} (λ i. rw p) h n r.queues;
    is_runnable = λ c j m. rw p (r.is_runnable c j m);
    is_queued = λ j lt e f. r.is_queued j lt (rw p at e) f;
    lost_runnable = λ j f. rw p (r.lost_runnable j f);
    lost_free = r.lost_free;
  }
