-- ===== src/Locks/RwLock/Invariant.antt =====
-- What every state of a lock of rwlock.c and its threads satisfies.
use os_ca.Prelude.{
  ℕ, ◌+◌, ◌<◌, ◌≤◌, ◌≡◌, ◌≢◌, subst, refl, sym, ◌⊎◌, Bool, true, false, some, arith, update,
  if◌then◌else◌, ◌==◌, Bool-cases, inl, inr,
}
use os_ca.Kernel.{nproc}
use os_ca.Locks.Threads.{
  count, count-update, count-none, count-same, count-le, count-pos, count-some,
}
use os_ca.Locks.RwLock.{
  RwLock, rwlock_acquire_read, rwlock_release_read, rwlock_acquire_write, rwlock_release_write,
}
use os_ca.Locks.RwLock.System.{
  Pc, idle, reads_next, writes_next, read_asleep, write_asleep, reading, writing, is_reading,
  is_writing, wake_all, pid_of, Step, wants_read, wants_write, enters_read, sleeps_read,
  enters_write, sleeps_write, leaves_read, leaves_write, reads_again, strays_read, strays_write,
  IsProper, IsProperRun, stirs_reader, stirs_writer, Reach, start, later,
}

pub record Inv (n : ℕ) (rw : RwLock) (pc : ℕ → Pc) : Type 0 where
  pub readers : rw.read_count ≡ count is_reading n pc
  pub writers : count is_writing n pc ≡ (if rw.writer then 1 else 0)
  pub excluded : rw.writer ≡ true → rw.read_count ≡ 0
  pub owner : (i : ℕ) → i < n → pc i ≡ writing → rw.writer_pid ≡ pid_of i
  pub read_waits : (i : ℕ) → i < n → pc i ≡ read_asleep → rw.writer ≡ true
  pub write_waits : (i : ℕ) → i < n → pc i ≡ write_asleep → (rw.writer ≡ true) ⊎ (0 < rw.read_count)

awake-counts :
    (woken : Bool) (n : ℕ) (pc : ℕ → Pc)
    → (count is_reading n (wake_all woken pc) ≡ count is_reading n pc)
      × (count is_writing n (wake_all woken pc) ≡ count is_writing n pc)
awake-counts woken n pc = (
  count-same is_reading n (wake_all woken pc) pc (λ i. ground arith),
  count-same is_writing n (wake_all woken pc) pc (λ i. ground arith),
)

moves :
    {n : ℕ} {rw : RwLock} {pc : ℕ → Pc} (i : ℕ) (q : Pc)
    → i < n
    → is_reading (pc i) ≡ false
    → is_writing (pc i) ≡ false
    → is_reading q ≡ false
    → is_writing q ≡ false
    → (q ≡ read_asleep → rw.writer ≡ true)
    → (q ≡ write_asleep → (rw.writer ≡ true) ⊎ (0 < rw.read_count))
    → Inv n rw pc
    → Inv n rw (update pc i q)
moves {n} {rw} {pc} i q l r w r' w' a b v = record {
  readers = ground (arith, v.readers, count-update is_reading n pc i q);
  writers = ground (arith, v.writers, count-update is_writing n pc i q);
  excluded = v.excluded;
  owner = λ j m h. ground (arith, v.owner j);
  read_waits = λ j m h. elim (Bool-cases (j == i)) [
    | inl t ↦ a (ground arith)
    | inr t ↦ v.read_waits j m (ground arith)
  ];
  write_waits = λ j m h. elim (Bool-cases (j == i)) [
    | inl t ↦ b (ground arith)
    | inr t ↦ v.write_waits j m (ground arith)
  ];
}

-- What the calls do to the counters, for fewer readers than there are processes.
read_entered :
    (rw : RwLock) {rw' : RwLock}
    → rwlock_acquire_read rw ≡ some rw'
    → rw.read_count ≤ nproc
    → (rw.writer ≡ false) × (rw'.writer ≡ false) × (rw'.read_count ≡ rw.read_count + 1)
unfolding rwlock_acquire_read
read_entered rw h s = ground arith

read_left :
    (rw : RwLock) {rw' : RwLock} {woken : Bool}
    → rwlock_release_read rw ≡ some (rw', woken)
    → 1 ≤ rw.read_count
    → rw.read_count ≤ nproc
    → (rw'.writer ≡ rw.writer)
      × (rw'.writer_pid ≡ rw.writer_pid)
      × (rw'.read_count + 1 ≡ rw.read_count)
      × (woken ≡ (rw'.read_count == 0))
unfolding rwlock_release_read
read_left rw h p s = ground arith

write_entered :
    (rw : RwLock) {rw' : RwLock} (pid : ℕ)
    → rwlock_acquire_write rw pid ≡ some rw'
    → rw.read_count ≤ nproc
    → (rw.writer ≡ false)
      × (rw'.writer ≡ true)
      × (rw.read_count ≡ 0)
      × (rw'.read_count ≡ 0)
      × (rw'.writer_pid ≡ pid)
unfolding rwlock_acquire_write
write_entered rw pid h s = ground arith

write_left :
    (rw : RwLock) {rw' : RwLock} {woken : Bool} (pid : ℕ)
    → rwlock_release_write rw pid ≡ some (rw', woken)
    → (rw.writer ≡ true) × (rw'.writer ≡ false) × (rw'.read_count ≡ rw.read_count) × (woken ≡ true)
unfolding rwlock_release_write
write_left rw pid h = ground arith

write_owner :
    (rw : RwLock) {rw' : RwLock} {woken : Bool} (pid : ℕ)
    → rwlock_release_write rw pid ≡ some (rw', woken)
    → rw.writer_pid ≡ pid
unfolding rwlock_release_write
write_owner rw pid h = ground arith

enters_read-Inv :
    {n : ℕ} {rw rw' : RwLock} {pc : ℕ → Pc} (i : ℕ)
    → n ≤ nproc
    → i < n
    → pc i ≡ reads_next
    → rwlock_acquire_read rw ≡ some rw'
    → Inv n rw pc
    → Inv n rw' (update pc i reading)
enters_read-Inv {n} {rw} {rw'} {pc} i small l e h v =
    let q = read_entered rw h (ground (arith, v.readers, count-le is_reading n pc)) in
    record {
      readers = ground (arith, v.readers, count-update is_reading n pc i reading, q);
      writers = ground (arith, v.writers, count-update is_writing n pc i reading, q);
      excluded = ground (arith, q);
      owner = λ j m o. ground (arith, count-pos is_writing n pc j, v.writers, q);
      read_waits = λ j m o. ground (arith, v.read_waits j, q);
      write_waits = λ j m o. inr (ground (arith, q));
    }

enters_write-Inv :
    {n : ℕ} {rw rw' : RwLock} {pc : ℕ → Pc} (i : ℕ)
    → n ≤ nproc
    → i < n
    → pc i ≡ writes_next
    → rwlock_acquire_write rw (pid_of i) ≡ some rw'
    → Inv n rw pc
    → Inv n rw' (update pc i writing)
enters_write-Inv {n} {rw} {rw'} {pc} i small l e h v =
    let q = write_entered rw (pid_of i) h (ground (arith, v.readers, count-le is_reading n pc)) in
    record {
      readers = ground (arith, v.readers, count-update is_reading n pc i writing, q);
      writers = ground (arith, v.writers, count-update is_writing n pc i writing, q);
      excluded = ground (arith, q);
      owner = λ j m o. ground (arith, count-pos is_writing n pc j, v.writers, q);
      read_waits = λ j m o. ground (arith, q);
      write_waits = λ j m o. inl (ground (arith, q));
    }

leaves_read-Inv :
    {n : ℕ} {rw rw' : RwLock} {pc : ℕ → Pc} (i : ℕ) {woken : Bool}
    → n ≤ nproc
    → i < n
    → pc i ≡ reading
    → rwlock_release_read rw ≡ some (rw', woken)
    → Inv n rw pc
    → Inv n rw' (wake_all woken (update pc i idle))
leaves_read-Inv {n} {rw} {rw'} {pc} i {woken} small l e h v =
    let p : 1 ≤ rw.read_count = ground (arith, v.readers, count-pos is_reading n pc i) in
    let q = read_left rw h p (ground (arith, v.readers, count-le is_reading n pc)) in
    let c = awake-counts woken n (update pc i idle) in
    record {
      readers = ground (arith, v.readers, count-update is_reading n pc i idle, q, c);
      writers = ground (arith, v.writers, count-update is_writing n pc i idle, q, c);
      excluded = ground (arith, v.excluded, q);
      owner = λ j m o. ground (arith, v.owner j, q);
      read_waits = λ j m o. ground (arith, v.read_waits j, q);
      write_waits = λ j m o. ground (arith, v.write_waits j, q);
    }

leaves_write-Inv :
    {n : ℕ} {rw rw' : RwLock} {pc : ℕ → Pc} (i : ℕ) {woken : Bool}
    → n ≤ nproc
    → i < n
    → pc i ≡ writing
    → rwlock_release_write rw (pid_of i) ≡ some (rw', woken)
    → Inv n rw pc
    → Inv n rw' (wake_all woken (update pc i idle))
leaves_write-Inv {n} {rw} {rw'} {pc} i {woken} small l e h v =
    let q = write_left rw (pid_of i) h in
    let c = awake-counts woken n (update pc i idle) in
    record {
      readers = ground (arith, v.readers, count-update is_reading n pc i idle, q, c);
      writers = ground (arith, v.writers, count-update is_writing n pc i idle, q, c);
      excluded = ground (arith, v.excluded, q);
      owner = λ j m o. ground (
        arith,
        count-pos is_writing n (wake_all woken (update pc i idle)) j m,
        v.writers,
        count-update is_writing n pc i idle,
        q,
        c,
      );
      read_waits = λ j m o. ground (arith, q);
      write_waits = λ j m o. ground (arith, q);
    }

-- Only the thread that writes passes the test for the owner.
not_owner :
    {n : ℕ} {rw rw' : RwLock} {pc : ℕ → Pc} {woken : Bool} (i : ℕ)
    → pc i ≢ writing
    → rwlock_release_write rw (pid_of i) ≡ some (rw', woken)
    → Inv n rw pc
    → ⊥
not_owner {n} {rw} {rw'} {pc} i ne h v =
    let q = write_left rw (pid_of i) h in
    let (j, l, e) = count-some is_writing n pc (ground (arith, v.writers, q)) in
    let holds : pc j ≡ writing = is_writing_lem (pc j) e in
    let same : j ≡ i = omega (arith, v.owner j l holds, write_owner rw (pid_of i) h) in
    ne (subst (λ k. pc k ≡ writing) same holds)
  where
    is_writing_lem : (q : Pc) → is_writing q ≡ true → q ≡ writing
    is_writing_lem q e = ground (arith, e)

Step-Inv :
    {n : ℕ} {rw rw' : RwLock} {pc pc' : ℕ → Pc}
    → n ≤ nproc
    → (s : Step n rw pc rw' pc') → IsProper s
    → Inv n rw pc
    → Inv n rw' pc'
unfolding rwlock_acquire_read rwlock_acquire_write IsProper
Step-Inv {n} {rw} {rw'} {pc} small (wants_read i l e) p v =
    moves i reads_next l (ground arith) (ground arith) refl refl (λ q. ground arith)
      (λ q. ground arith) v
Step-Inv {n} {rw} {rw'} {pc} small (wants_write i l e) p v =
    moves i writes_next l (ground arith) (ground arith) refl refl (λ q. ground arith)
      (λ q. ground arith) v
Step-Inv {n} {rw} {rw'} {pc} small (enters_read i l e h) p v = enters_read-Inv i small l e h v
Step-Inv {n} {rw} {rw'} {pc} small (sleeps_read i l e h) p v =
    moves i read_asleep l (ground arith) (ground arith) refl refl (λ q. ground arith)
      (λ q. ground arith) v
Step-Inv {n} {rw} {rw'} {pc} small (enters_write i l e h) p v = enters_write-Inv i small l e h v
Step-Inv {n} {rw} {rw'} {pc} small (sleeps_write i l e h) p v =
    moves i write_asleep l (ground arith) (ground arith) refl refl (λ q. ground arith)
      (λ q. elim (Bool-cases rw.writer) [
        | inl t ↦ inl t
        | inr t ↦ inr (ground (arith, v.readers, count-le is_reading n pc))
      ])
      v
Step-Inv {n} {rw} {rw'} {pc} small (leaves_read i l e h) p v = leaves_read-Inv i small l e h v
Step-Inv {n} {rw} {rw'} {pc} small (leaves_write i l e h) p v = leaves_write-Inv i small l e h v
Step-Inv {n} {rw} {rw'} {pc} small (stirs_reader i l e) p v =
    moves i reads_next l (ground arith) (ground arith) refl refl (λ q. ground arith)
      (λ q. ground arith) v
Step-Inv {n} {rw} {rw'} {pc} small (stirs_writer i l e) p v =
    moves i writes_next l (ground arith) (ground arith) refl refl (λ q. ground arith)
      (λ q. ground arith) v
Step-Inv small (reads_again i l e h) p v = absurd p
Step-Inv small (strays_read i l e h) p v = absurd p
Step-Inv {n} {rw} {rw'} {pc} small (strays_write i l e h) p v = absurd (not_owner i e h v)

pub Reach-Inv :
    {n : ℕ} {rw : RwLock} {pc : ℕ → Pc}
    → n ≤ nproc
    → (r : Reach n rw pc) → IsProperRun r
    → Inv n rw pc
unfolding IsProperRun
Reach-Inv {n} small start p = record {
  readers = sym (count-none is_reading n (λ i. idle) (λ i. refl));
  writers = count-none is_writing n (λ i. idle) (λ i. refl);
  excluded = λ h. refl;
  owner = λ i m h. ground arith;
  read_waits = λ i m h. ground arith;
  write_waits = λ i m h. ground arith;
}
Reach-Inv small (later r s) p = Step-Inv small s p.1 (Reach-Inv small r p.0)
