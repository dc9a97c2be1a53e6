-- ===== src/Locks/RwLock/System.antt =====
-- Any number of threads, up to NPROC, that call rwlock.c for one lock in any order, whether they hold it or not.
use os_ca.Prelude.{ℕ, ◌+◌, ◌<◌, ◌≡◌, ◌≢◌, Bool, true, false, none, some, update, if◌then◌else◌}
use os_ca.Locks.RwLock.{
  RwLock, rwlock_init, rwlock_acquire_read, rwlock_release_read, rwlock_acquire_write,
  rwlock_release_write,
}

-- Where a thread stands: it wants to enter, sleeps in its call, or is between acquire and release.
pub data Pc : Type 0 where
  idle : Pc
  reads_next writes_next : Pc
  read_asleep write_asleep : Pc
  reading writing : Pc

abbrev pub is_reading : Pc → Bool
is_reading reading = true
is_reading _ = false

abbrev pub is_writing : Pc → Bool
is_writing writing = true
is_writing _ = false

-- wakeup(rw): each sleeper runs its loop again.
abbrev pub awake : Pc → Pc
awake read_asleep = reads_next
awake write_asleep = writes_next
awake p = p

abbrev pub wake_all : Bool → (ℕ → Pc) → ℕ → Pc
wake_all woken pc i = if woken then awake (pc i) else pc i

-- The pid of thread `i` is `i + 1`: pids are positive and distinct.
abbrev pub pid_of : ℕ → ℕ
pid_of i = i + 1

-- One step of one of `n` threads. `stirs_reader` and `stirs_writer`
-- wake one sleeper for another reason, such as kill.
pub data Step (n : ℕ) (rw : RwLock) (pc : ℕ → Pc) : RwLock → (ℕ → Pc) → Type 0 where
  wants_read : (i : ℕ) → i < n → pc i ≡ idle → Step n rw pc rw (update pc i reads_next)
  wants_write : (i : ℕ) → i < n → pc i ≡ idle → Step n rw pc rw (update pc i writes_next)
  enters_read :
      (i : ℕ) {rw' : RwLock}
      → i < n
      → pc i ≡ reads_next
      → rwlock_acquire_read rw ≡ some rw'
      → Step n rw pc rw' (update pc i reading)
  sleeps_read :
      (i : ℕ)
      → i < n
      → pc i ≡ reads_next
      → rwlock_acquire_read rw ≡ none
      → Step n rw pc rw (update pc i read_asleep)
  enters_write :
      (i : ℕ) {rw' : RwLock}
      → i < n
      → pc i ≡ writes_next
      → rwlock_acquire_write rw (pid_of i) ≡ some rw'
      → Step n rw pc rw' (update pc i writing)
  sleeps_write :
      (i : ℕ)
      → i < n
      → pc i ≡ writes_next
      → rwlock_acquire_write rw (pid_of i) ≡ none
      → Step n rw pc rw (update pc i write_asleep)
  leaves_read :
      (i : ℕ) {rw' : RwLock} {woken : Bool}
      → i < n
      → pc i ≡ reading
      → rwlock_release_read rw ≡ some (rw', woken)
      → Step n rw pc rw' (wake_all woken (update pc i idle))
  leaves_write :
      (i : ℕ) {rw' : RwLock} {woken : Bool}
      → i < n
      → pc i ≡ writing
      → rwlock_release_write rw (pid_of i) ≡ some (rw', woken)
      → Step n rw pc rw' (wake_all woken (update pc i idle))
  -- A thread that reads takes the lock to read once more.
  reads_again :
      (i : ℕ) {rw' : RwLock}
      → i < n
      → pc i ≡ reading
      → rwlock_acquire_read rw ≡ some rw'
      → Step n rw pc rw' pc
  -- Releases by a thread that does not hold the lock this way. That of a reader is not checked by the code.
  strays_read :
      (i : ℕ) {rw' : RwLock} {woken : Bool}
      → i < n
      → pc i ≢ reading
      → rwlock_release_read rw ≡ some (rw', woken)
      → Step n rw pc rw' (wake_all woken pc)
  strays_write :
      (i : ℕ) {rw' : RwLock} {woken : Bool}
      → i < n
      → pc i ≢ writing
      → rwlock_release_write rw (pid_of i) ≡ some (rw', woken)
      → Step n rw pc rw' (wake_all woken pc)
  stirs_reader : (i : ℕ) → i < n → pc i ≡ read_asleep → Step n rw pc rw (update pc i reads_next)
  stirs_writer : (i : ℕ) → i < n → pc i ≡ write_asleep → Step n rw pc rw (update pc i writes_next)

pub data Reach (n : ℕ) : RwLock → (ℕ → Pc) → Type 0 where
  start : Reach n rwlock_init (λ _. idle)
  later :
      {rw rw' : RwLock} {pc pc' : ℕ → Pc} → Reach n rw pc → Step n rw pc rw' pc' → Reach n rw' pc'

-- No thread reads twice, or releases to read what it does not hold to read.
unfoldable pub IsProper :
    {n : ℕ} {rw rw' : RwLock} {pc pc' : ℕ → Pc} → Step n rw pc rw' pc' → Type 0
IsProper (reads_again i l e h) = ⊥
IsProper (strays_read i l e h) = ⊥
IsProper _ = Unit

unfoldable pub IsProperRun : {n : ℕ} {rw : RwLock} {pc : ℕ → Pc} → Reach n rw pc → Type 0
unfolding IsProper
IsProperRun start = Unit
IsProperRun (later r s) = IsProperRun r × IsProper s
