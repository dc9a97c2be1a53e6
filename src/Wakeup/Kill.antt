-- ===== src/Wakeup/Kill.antt =====
-- kill (proc.c): what it does to the process, and that a sleeping process is left in no queue.
use os_ca.Prelude.{
  ℕ, zero, suc, ◌+◌, ◌<◌, ◌≤◌, ◌≡◌, refl, ◌≢◌, Bool, false, List, arith, ◌==◌, Bool-cases, ◌⊎◌, inl,
  inr,
}
use os_ca.Kernel.{Kernel, sleeping, runnable, nproc, set_proc}
use os_ca.RunQueue.{Status, ok, failed}
use os_ca.RunQueue.Invariant.{Queues, Queues-same}
use os_ca.Schedule.Ready.{IsReady}
use os_ca.Wakeup.{kill, kill_from, killed_proc}
use os_ca.Wakeup.Join.{IsFree, IsReady-IsFree}

-- `m` is the first process from `lo` on that has the pid.
abbrev pub IsTarget : Kernel → ℕ → ℕ → ℕ → Type 0
IsTarget k lo pid m =
    (lo ≤ m) × ((k.proc m).pid ≡ pid) × ((l : ℕ) → lo ≤ l → l < m → (k.proc l).pid ≢ pid)

-- The outcome of a search for `pid` from process `lo` on and below `hi`.
abbrev pub Kills : Kernel → ℕ → ℕ → ℕ → Status × Kernel → Type 0
Kills k lo hi pid r =
    ((r ≡ (failed, k)) × ((m : ℕ) → lo ≤ m → m < hi → (k.proc m).pid ≢ pid))
    ⊎ ((m : ℕ) × (m < hi) × IsTarget k lo pid m × (r ≡ (ok, set_proc k m (killed_proc (k.proc m)))))

kill_from_lem : (n i j pid : ℕ) (k : Kernel) → i + n ≡ j → Kills k i j pid (kill_from n i pid k)
unfolding kill_from
kill_from_lem zero i j pid k e = inl (refl, λ m a b. absurd (omega arith))
kill_from_lem (suc n) i j pid k e = elim (Bool-cases ((k.proc i).pid == pid)) [
  | inl t ↦
      inr (i, omega arith, (omega arith, ground arith, λ l a b. absurd (omega arith)), rw t refl)
  | inr f ↦ rw f (go f (kill_from n (i + 1) pid k) (kill_from_lem n (i + 1) j pid k (omega arith)))
]
  where
    not_first :
        (k.proc i).pid == pid ≡ false
        → (m : ℕ) → i ≤ m
        → ((i + 1 ≤ m → (k.proc m).pid ≢ pid))
        → (k.proc m).pid ≢ pid
    not_first f m a h q = elim (Bool-cases (m == i)) [
      | inl same ↦ ground arith
      | inr other ↦ h (ground arith) q
    ]

    go :
        (k.proc i).pid == pid ≡ false
        → (r : Status × Kernel) → Kills k (i + 1) j pid r
        → Kills k i j pid r
    go f r (inl (h, none_so)) = inl (h, λ m a b. not_first f m a (λ l. none_so m l b))
    go f r (inr (m, lt, (a, b, first), h)) =
        inr (m, lt, (omega arith, b, λ l c d. not_first f l c (λ u. first l u d)), h)

-- `kill` returns -1 and changes nothing just if no process of the table has the pid. Otherwise it
-- returns 0, and the first process with the pid is marked killed and, if it slept, is RUNNABLE;
-- nothing else changes.
pub kill_lem : (k : Kernel) (pid : ℕ) → Kills k 0 nproc pid (kill k pid)
unfolding kill
kill_lem k pid = kill_from_lem nproc 0 nproc pid k (omega arith)

-- RUNNABLE, and in no run queue.
pub record IsStranded (k : Kernel) (qs : ℕ → List ℕ) (i : ℕ) : Type 0 where
  pub queues : Queues k qs
  pub runs : (k.proc i).state ≡ runnable
  pub free : IsFree qs i

-- A bug: `kill` of a process that sleeps makes it RUNNABLE without `enqueue`. From any state of the
-- scheduler's invariant, the first process with the pid is afterwards RUNNABLE and in no queue.
pub kill_strands :
    {lost : ℕ → Bool} {k : Kernel} {qs : ℕ → List ℕ}
    → IsReady lost k qs
    → (pid m : ℕ) → m < nproc
    → IsTarget k 0 pid m
    → (k.proc m).state ≡ sleeping
    → ((kill k pid).0 ≡ ok) × IsStranded (kill k pid).1 qs m
kill_strands {k} {qs} r pid m lt (lo, has, first) h = go (kill k pid) (kill_lem k pid)
  where
    go : (x : Status × Kernel) → Kills k 0 nproc pid x → (x.0 ≡ ok) × IsStranded x.1 qs m
    go x (inl (e, none_so)) = absurd (none_so m lo lt has)
    go x (inr (j, small, (a, b, before_it), e)) =
        let same : j ≡ m = ground (arith, first j, before_it m) in
        let k' = set_proc k j (killed_proc (k.proc j)) in
        (
          ground arith,
          record {
            queues = rw e (
                Queues-same {k = k} {k' = k'} (λ i. ground arith) (λ c. refl) (λ c. refl) r.queues);
            runs = ground arith;
            free = IsReady-IsFree r m (λ q. ground arith);
          },
        )
