-- ===== src/Tests/Sleeping.antt =====
-- The theorems on sleep locks, the priority lock, the file table and the reports, on small inputs.
use os_ca.Prelude.{ℕ, ◌≡◌, refl, true, false, some, [], ◌∷◌, arith, update, ◌==◌, if◌then◌else◌}
use os_ca.Locks.Interrupts.{IntrState}
use os_ca.Locks.Threads.{count}
use os_ca.Locks.SleepLock.{SleepLock, acquiresleep}
use os_ca.Locks.SleepLock.System.{
  Place, outside, trying, asleep, holding, is_holding, Reach, start, later, wants, enters, sleeps,
}
use os_ca.Locks.SleepLock.Exclusion.{one_holder}
use os_ca.Locks.PriorityLock.{Plock, plock_release}
use os_ca.Locks.PriorityLock.Handover.{Releases, plock_release_lem}
use os_ca.Files.{File, FileTable, fd_none, fd_pipe, filedup}
use os_ca.Files.Counts.{IsCounted, Held, shares, Step-IsCounted}

-- Two sections are open, and interrupts were on before.
abbrev nested : IntrState
nested = record { ncli = 2; intena = true; flag = false }

-- Thread 0 holds the lock and thread 1 sleeps.
abbrev taken : SleepLock
taken = record { locked = true; pid = 1 }

abbrev places : ℕ → Place
places = update (update (update (update (λ _. outside) 0 trying) 0 holding) 1 trying) 1 asleep

taken-Reach : Reach 2 taken places
unfolding acquiresleep
taken-Reach =
    later
      (later (later (later start (wants 0 (omega arith) refl)) (enters 0 (omega arith) refl refl))
        (wants 1 (omega arith) refl))
      (sleeps 1 (omega arith) refl refl)

one_holder_example :
    (places 1 ≡ holding → places 0 ≡ holding → ◌≡◌ {A = ℕ} 1 0)
    × (places 1 ≡ asleep → count is_holding 2 places ≡ 1)
one_holder_example = one_holder 1 0 taken-Reach (omega arith) (omega arith)

-- Process 3 holds the lock; of those that wait two have the highest priority.
abbrev contended : Plock
contended = record {
  locked = true;
  nodes =
      record { proc = 4; priority = 1 }
      ∷ record { proc = 5; priority = 7 }
      ∷ record { proc = 6; priority = 7 }
      ∷ [];
  owner = some 3;
}

plock_release_lem_example : Releases contended (plock_release contended 3)
plock_release_lem_example = plock_release_lem contended 3 refl

-- File 2 is the read end of a pipe and has one reference.
abbrev no_file : File
no_file = record {
  kind = fd_none;
  ref = 0;
  readable = false;
  writable = false;
  pipe = 0;
  inode = 0;
  off = 0;
}

abbrev files : FileTable
files = update (λ _. no_file) 2 (record no_file { kind = fd_pipe; ref = 1; readable = true })

abbrev held_files : Held
held_files f = if f == 2 then 1 else 0

files-IsCounted : IsCounted files held_files
unfolding IsCounted
files-IsCounted f = ground arith

Step-IsCounted_example :
    IsCounted (update files 2 (record (files 2) { ref = 2 })) (update held_files 2 2)
unfolding filedup
Step-IsCounted_example = Step-IsCounted files-IsCounted (shares 2 (omega arith) (omega arith) refl)
