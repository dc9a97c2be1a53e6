-- ===== src/Locks/RwLock.antt =====
-- rwlock.c. A call of acquire that cannot enter sleeps on the lock and tries again when it is woken.
-- The counters are 32-bit patterns; `none` is a panic.
pub mod System
pub mod Invariant
pub mod Exclusion
use os_ca.Prelude.{
  ℕ, Bool, true, false, ◌||◌, not, Option, none, some, if◌then◌else◌, ◌==◌, add32, sub32, slt32,
}

pub record RwLock : Type 0 where
  pub read_count : ℕ
  pub writer : Bool
  pub writer_pid : ℕ

abbrev pub rwlock_init : RwLock
rwlock_init = record { read_count = 0; writer = false; writer_pid = 0 }

-- A pass of the loop of rwlock_acquire_read: `none` sleeps.
unfoldable pub rwlock_acquire_read : RwLock → Option RwLock
rwlock_acquire_read rw =
    if rw.writer then none else some (record rw { read_count = add32 rw.read_count 1 })

-- The Boolean says whether the sleepers are woken.
pub rwlock_release_read : RwLock → Option (RwLock × Bool)
rwlock_release_read rw =
    if slt32 rw.read_count 1
    then none
    else some (record rw { read_count = sub32 rw.read_count 1 }, sub32 rw.read_count 1 == 0)

unfoldable pub rwlock_acquire_write : RwLock → ℕ → Option RwLock
rwlock_acquire_write rw pid =
    if rw.writer || slt32 0 rw.read_count
    then none
    else some (record rw { writer = true; writer_pid = pid })

pub rwlock_release_write : RwLock → ℕ → Option (RwLock × Bool)
rwlock_release_write rw pid =
    if not rw.writer || not (rw.writer_pid == pid)
    then none
    else some (record rw { writer = false; writer_pid = 0 }, true)
