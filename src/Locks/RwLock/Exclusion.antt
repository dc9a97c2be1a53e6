-- ===== src/Locks/RwLock/Exclusion.antt =====
-- What a thread that uses a lock of rwlock.c can rely on.
use os_ca.Prelude.{ℕ, ◌<◌, ◌≤◌, ◌≡◌, ◌≢◌, ◌⊎◌, none, arith, inl, inr}
use os_ca.Kernel.{nproc}
use os_ca.Locks.Threads.{count-le, count-pos}
use os_ca.Locks.RwLock.{RwLock, rwlock_release_read, rwlock_release_write}
use os_ca.Locks.RwLock.System.{
  Pc, reading, writing, is_reading, is_writing, pid_of, Reach, IsProperRun,
}
use os_ca.Locks.RwLock.Invariant.{Reach-Inv}

-- In every state that threads with distinct pids reach by calls of rwlock.c, in any order and with wakeups for
-- other reasons, a thread that holds the lock to write is the only one that holds it. This is under two
-- conditions on the run, which the code does not check: a thread releases to read only what it holds to
-- read, and does not take to read what it holds to read.
pub writer_alone :
    {n : ℕ} {rw : RwLock} {pc : ℕ → Pc} (i j : ℕ)
    → n ≤ nproc
    → (r : Reach n rw pc) → IsProperRun r
    → i < n
    → j < n
    → pc i ≡ writing
    → (pc j ≡ writing) ⊎ (pc j ≡ reading)
    → (pc j ≡ writing) × (i ≡ j)
writer_alone {n} {rw} {pc} i j small r p l m h h' =
    let v = Reach-Inv small r p in
    elim h' [
      | inl t ↦ (t, ground (arith, v.owner i l h, v.owner j m t))
      | inr t ↦ ground (
        arith,
        v.readers,
        v.writers,
        v.excluded,
        count-pos is_writing n pc i,
        count-pos is_reading n pc j,
      )
    ]

-- In every state of such a run the release by a thread that holds the lock does not panic, whether it holds it
-- to read or to write.
pub release_succeeds :
    {n : ℕ} {rw : RwLock} {pc : ℕ → Pc} (i : ℕ)
    → n ≤ nproc
    → (r : Reach n rw pc) → IsProperRun r
    → i < n
    → (pc i ≡ reading → rwlock_release_read rw ≢ none)
      × (pc i ≡ writing → rwlock_release_write rw (pid_of i) ≢ none)
unfolding rwlock_release_read rwlock_release_write
release_succeeds {n} {rw} {pc} i small r p l =
    let v = Reach-Inv small r p in
    (
      λ h h'. ground (arith, v.readers, count-pos is_reading n pc i, count-le is_reading n pc),
      λ h h'. ground (arith, v.writers, v.owner i l h, count-pos is_writing n pc i),
    )
