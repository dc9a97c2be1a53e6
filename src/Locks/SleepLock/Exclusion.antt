-- ===== src/Locks/SleepLock/Exclusion.antt =====
-- What a thread that uses a lock of sleeplock.c can rely on.
use os_ca.Prelude.{ℕ, ◌<◌, ◌≡◌, ◌≢◌, true, none, arith}
use os_ca.Locks.Threads.{count, count-pos}
use os_ca.Locks.SleepLock.{SleepLock, releasesleep, holdingsleep}
use os_ca.Locks.SleepLock.System.{Place, asleep, holding, is_holding, owner_pid, Reach, Reach-Inv}

-- In every state that threads with distinct pids reach by calls of sleeplock.c, in any order and with
-- wakeups for other reasons, two threads that hold the lock are the same one, and a thread is asleep
-- in acquiresleep only while some thread holds the lock.
pub one_holder :
    {n : ℕ} {lk : SleepLock} {at : ℕ → Place} (i j : ℕ)
    → Reach n lk at
    → i < n
    → j < n
    → (at i ≡ holding → at j ≡ holding → i ≡ j) × (at i ≡ asleep → count is_holding n at ≡ 1)
one_holder {n} {lk} {at} i j r l m =
    let v = Reach-Inv r in
    (
      λ h h'. ground (arith, v.owner i l h, v.owner j m h'),
      λ h. ground (arith, v.holders, v.waits i l h),
    )

-- In every such state the call of holdingsleep by a thread that holds the lock returns true, and its
-- call of releasesleep does not panic.
pub holder_releases :
    {n : ℕ} {lk : SleepLock} {at : ℕ → Place} (i : ℕ)
    → Reach n lk at
    → i < n
    → at i ≡ holding
    → (holdingsleep lk (owner_pid i) ≡ true) × (releasesleep lk (owner_pid i) ≢ none)
unfolding holdingsleep releasesleep
holder_releases {n} {lk} {at} i r l h =
    let v = Reach-Inv r in
    (
      ground (arith, v.owner i l h, v.holders, count-pos is_holding n at i),
      λ e. ground (arith, v.owner i l h, v.holders, count-pos is_holding n at i),
    )
