-- ===== src/Locks/SleepLock/System.antt =====
-- Any number of threads that use one lock of sleeplock.c in any order, and their invariant.
use os_ca.Prelude.{
  ℕ, ◌+◌, ◌<◌, ◌≡◌, refl, ap, Bool, true, false, none, some, arith, update, if◌then◌else◌, ◌==◌,
  Bool-cases, inl, inr,
}
use os_ca.Locks.Threads.{count, count-update, count-none, count-same, count-pos}
use os_ca.Locks.SleepLock.{SleepLock, initsleeplock, acquiresleep, releasesleep}

-- Where a thread stands: outside, about to try, asleep in acquiresleep, or between acquire and release.
pub data Place : Type 0 where
  outside trying asleep holding : Place

abbrev pub is_holding : Place → Bool
is_holding holding = true
is_holding _ = false

-- wakeup(lk): each sleeper runs its loop again.
abbrev pub rouse : (ℕ → Place) → ℕ → Place
rouse at i = elim (at i) [ asleep ↦ trying | p ↦ p ]

-- The pid of thread `i` is `i + 1`: pids are positive and distinct.
abbrev pub owner_pid : ℕ → ℕ
owner_pid i = i + 1

-- One step of one of `n` threads; `stirs` wakes one sleeper for another reason, such as kill.
pub data Step (n : ℕ) (lk : SleepLock) (at : ℕ → Place) : SleepLock → (ℕ → Place) → Type 0 where
  wants : (i : ℕ) → i < n → at i ≡ outside → Step n lk at lk (update at i trying)
  enters :
      (i : ℕ) {lk' : SleepLock}
      → i < n
      → at i ≡ trying
      → acquiresleep lk (owner_pid i) ≡ some lk'
      → Step n lk at lk' (update at i holding)
  sleeps :
      (i : ℕ)
      → i < n
      → at i ≡ trying
      → acquiresleep lk (owner_pid i) ≡ none
      → Step n lk at lk (update at i asleep)
  leaves :
      (i : ℕ) {lk' : SleepLock}
      → i < n
      → at i ≡ holding
      → releasesleep lk (owner_pid i) ≡ some lk'
      → Step n lk at lk' (rouse (update at i outside))
  stirs : (i : ℕ) → i < n → at i ≡ asleep → Step n lk at lk (update at i trying)

pub data Reach (n : ℕ) : SleepLock → (ℕ → Place) → Type 0 where
  start : Reach n initsleeplock (λ _. outside)
  later :
      {lk lk' : SleepLock} {at at' : ℕ → Place}
      → Reach n lk at
      → Step n lk at lk' at'
      → Reach n lk' at'

pub record Inv (n : ℕ) (lk : SleepLock) (at : ℕ → Place) : Type 0 where
  pub holders : count is_holding n at ≡ (if lk.locked then 1 else 0)
  pub owner : (i : ℕ) → i < n → at i ≡ holding → lk.pid ≡ owner_pid i
  pub waits : (i : ℕ) → i < n → at i ≡ asleep → lk.locked ≡ true

rouse-count : (n : ℕ) (at : ℕ → Place) → count is_holding n (rouse at) ≡ count is_holding n at
rouse-count n at = count-same is_holding n (rouse at) at (λ i. ground arith)

-- A thread that does not hold the lock moves to a place where it does not hold it.
moves :
    {n : ℕ} {lk : SleepLock} {at : ℕ → Place} (i : ℕ) (q : Place)
    → i < n
    → is_holding (at i) ≡ false
    → is_holding q ≡ false
    → (q ≡ asleep → lk.locked ≡ true)
    → Inv n lk at
    → Inv n lk (update at i q)
moves {n} {lk} {at} i q l h h' s v = record {
  holders = ground (arith, v.holders, count-update is_holding n at i q);
  owner = λ j m o. ground (arith, v.owner j);
  waits = λ j m o. elim (Bool-cases (j == i)) [
    | inl t ↦ s (ground arith)
    | inr t ↦ v.waits j m (ground arith)
  ];
}

Step-Inv :
    {n : ℕ} {lk lk' : SleepLock} {at at' : ℕ → Place}
    → Step n lk at lk' at'
    → Inv n lk at
    → Inv n lk' at'
unfolding acquiresleep releasesleep
Step-Inv (wants i l e) v = moves i trying l (ground arith) refl (λ q. ground arith) v
Step-Inv {n} {lk} {lk'} {at} (enters i l e h) v = record {
  holders = ground (arith, h, v.holders, count-update is_holding n at i holding);
  owner = λ j m o. ground (arith, h, v.holders, count-pos is_holding n at j);
  waits = λ j m o. ground (arith, h);
}
Step-Inv (sleeps i l e h) v = moves i asleep l (ground arith) refl (λ q. ground (arith, h)) v
Step-Inv {n} {lk} {lk'} {at} (leaves i l e h) v =
    let at' = rouse (update at i outside) in
    let c = rouse-count n (update at i outside) in
    let none_holds : count is_holding n at' ≡ 0 =
      ground (arith, h, v.holders, count-update is_holding n at i outside, c) in
    record {
      holders = ground (arith, h, none_holds);
      owner = λ j m o.
          absurd (omega (arith, none_holds, count-pos is_holding n at' j m (ap is_holding o)));
      waits = λ j m o. ground arith;
    }
Step-Inv (stirs i l e) v = moves i trying l (ground arith) refl (λ q. ground arith) v

pub Reach-Inv : {n : ℕ} {lk : SleepLock} {at : ℕ → Place} → Reach n lk at → Inv n lk at
Reach-Inv {n} start = record {
  holders = count-none is_holding n (λ i. outside) (λ i. refl);
  owner = λ i m h. ground arith;
  waits = λ i m h. ground arith;
}
Reach-Inv (later r s) = Step-Inv s (Reach-Inv r)
