-- ===== src/Locks/SleepLock.antt =====
-- sleeplock.c. A call of acquiresleep that cannot enter sleeps on the lock and tries again when it is
-- woken; `none` of releasesleep is a panic. A release wakes every sleeper.
pub mod System
pub mod Exclusion
use os_ca.Prelude.{ℕ, Bool, true, false, ◌&&◌, ◌||◌, not, Option, none, some, if◌then◌else◌, ◌==◌}

pub record SleepLock : Type 0 where
  pub locked : Bool
  pub pid : ℕ

abbrev pub initsleeplock : SleepLock
initsleeplock = record { locked = false; pid = 0 }

-- A pass of the loop of acquiresleep: `none` sleeps.
unfoldable pub acquiresleep : SleepLock → ℕ → Option SleepLock
acquiresleep lk pid = if lk.locked then none else some (record { locked = true; pid = pid })

pub releasesleep : SleepLock → ℕ → Option SleepLock
releasesleep lk pid =
    if not lk.locked || not (lk.pid == pid) then none else some (record { locked = false; pid = 0 })

pub holdingsleep : SleepLock → ℕ → Bool
holdingsleep lk pid = lk.locked && (lk.pid == pid)
