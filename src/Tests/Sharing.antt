-- ===== src/Tests/Sharing.antt =====
-- The theorems on the readers-writer lock and on wait and kill, on small inputs.
use os_ca.Prelude.{ℕ, ◌≡◌, refl, true, false, some, inl, arith, update}
use os_ca.Kernel.{Kernel, zombie}
use os_ca.Process.{wait}
use os_ca.Process.Wait.{WaitFits, wait_lem}
use os_ca.Locks.RwLock.{RwLock, rwlock_acquire_read, rwlock_acquire_write}
use os_ca.Locks.RwLock.System.{
  Pc, idle, reads_next, writes_next, read_asleep, writing, Reach, start, later, wants_read,
  wants_write, enters_write, sleeps_read, enters_read, reading, IsProper, IsProperRun,
}
use os_ca.Locks.RwLock.Exclusion.{writer_alone}
use os_ca.Tests.Machine.{machine, no_proc}

-- Process 6, a child of process 5, has exited.
abbrev exited : Kernel
exited = record machine {
  proc = update machine.proc 6 (record no_proc { state = zombie; pid = 12; parent = some 5 });
}

wait_lem_example : WaitFits exited 5 (wait exited 5)
wait_lem_example = wait_lem exited 5

-- Thread 1 writes and thread 0, which wants to read, sleeps.
abbrev held : RwLock
held = record { read_count = 0; writer = true; writer_pid = 2 }

abbrev threads : ℕ → Pc
threads =
    update (update (update (update (λ _. idle) 1 writes_next) 1 writing) 0 reads_next) 0 read_asleep

held-Reach : Reach 2 held threads
unfolding rwlock_acquire_read rwlock_acquire_write
held-Reach =
    later
      (later
        (later (later start (wants_write 1 (omega arith) refl))
          (enters_write 1 (omega arith) refl refl))
        (wants_read 0 (omega arith) refl))
      (sleeps_read 0 (omega arith) refl refl)

held-IsProperRun : IsProperRun held-Reach
unfolding IsProperRun IsProper held-Reach
held-IsProperRun = ((((tt, tt), tt), tt), tt)

-- Thread 0 reads, thread 1 is about to write, and thread 2 does nothing.
abbrev shared : RwLock
shared = record { read_count = 1; writer = false; writer_pid = 0 }

abbrev waiting : ℕ → Pc
waiting = update (update (update (λ _. idle) 0 reads_next) 0 reading) 1 writes_next

shared-Reach : Reach 3 shared waiting
unfolding rwlock_acquire_read
shared-Reach =
    later
      (later (later start (wants_read 0 (omega arith) refl))
        (enters_read 0 (omega arith) refl refl))
      (wants_write 1 (omega arith) refl)

writer_alone_example : (threads 1 ≡ writing) × (◌≡◌ {A = ℕ} 1 1)
writer_alone_example =
    writer_alone 1 1 (omega arith) held-Reach held-IsProperRun (omega arith) (omega arith) refl
      (inl refl)
