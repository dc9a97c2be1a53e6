-- ===== src/Process/Alloc.antt =====
-- allocproc and fork (proc.c): which entry they take, and what they leave.
use os_ca.Prelude.{
  ℕ, zero, suc, ◌+◌, ◌<◌, ◌≤◌, ◌≡◌, refl, ap, ◌∙◌, ◌≢◌, Bool, false, Option, none, some, List, [],
  ◌∷◌, ◌++◌, arith, update, ◌==◌, Bool-cases, inl, inr, add32,
}
use os_ca.Kernel.{Kernel, in_state, unused, runnable, nproc, set_state}
use os_ca.Cores.{get_least_loaded_e_core}
use os_ca.Cores.Choice.{get_least_loaded_e_core-same}
use os_ca.RunQueue.Invariant.{body, SameButQueues}
use os_ca.Schedule.Ready.{IsReady}
use os_ca.Wakeup.{make_runnable}
use os_ca.Wakeup.Join.{join_lem}
use os_ca.Process.{
  find_unused, embryo_proc, found, give_stack, allocproc, copy_into, fork_into, fork_after, fork,
}
use os_ca.Process.Change.{IsReady-set, IsReady-same}

-- The first UNUSED entry from `lo` on and below `hi`, if there is one.
abbrev pub FirstUnused : Kernel → ℕ → ℕ → Option ℕ → Type 0
FirstUnused k lo hi none = (i : ℕ) → lo ≤ i → i < hi → (k.proc i).state ≢ unused
FirstUnused k lo hi (some p) =
    (lo ≤ p)
    × (p < hi)
    × ((k.proc p).state ≡ unused)
    × ((i : ℕ) → lo ≤ i → i < p → (k.proc i).state ≢ unused)

pub find_unused_lem : (n i j : ℕ) (k : Kernel) → i + n ≡ j → FirstUnused k i j (find_unused n i k)
unfolding find_unused
find_unused_lem zero i j k e = λ m a b. absurd (omega arith)
find_unused_lem (suc n) i j k e = elim (Bool-cases (in_state (k.proc i).state unused)) [
  | inl t ↦ rw t (omega arith, omega arith, ground arith, λ m a b. absurd (omega arith))
  | inr f ↦ rw f (go f (find_unused n (i + 1) k) (find_unused_lem n (i + 1) j k (omega arith)))
]
  where
    not_first :
        in_state (k.proc i).state unused ≡ false
        → (m : ℕ) → i ≤ m
        → (i + 1 ≤ m → (k.proc m).state ≢ unused)
        → (k.proc m).state ≢ unused
    not_first f m a h q = elim (Bool-cases (m == i)) [
      | inl same ↦ ground arith
      | inr other ↦ h (ground arith) q
    ]

    go :
        in_state (k.proc i).state unused ≡ false
        → (o : Option ℕ) → FirstUnused k (i + 1) j o
        → FirstUnused k i j o
    go f none h = λ m a b. not_first f m a (λ l. h m l b)
    go f (some p) (a, b, c, d) = (omega arith, b, c, λ m l u. not_first f m l (λ x. d m x u))

-- What allocproc returns and leaves, for the entry that the search found and the page.
abbrev pub allocated : Kernel → Option ℕ → Option ℕ → Option ℕ × Kernel
allocated k none page = (none, k)
allocated k (some p) page = give_stack (found k p) p page

found-IsReady :
    {lost : ℕ → Bool} {k : Kernel} {qs : ℕ → List ℕ}
    → IsReady lost k qs
    → (p : ℕ) → (k.proc p).state ≡ unused
    → IsReady lost (found k p) qs
found-IsReady {lost} {k} {qs} r p h =
    IsReady-same (IsReady-set r p (embryo_proc k p) (λ q. ground arith) (λ q. ground arith))
      (found k p) refl (λ c. refl) (λ c. refl)

-- `allocproc` returns 0 and changes nothing if no entry of the table is UNUSED. Otherwise the first
-- UNUSED entry gets the next pid and the current tick as its creation time; with a page for the
-- stack it is returned as EMBRYO, without one it is UNUSED again and 0 is returned. The scheduler's
-- invariant is kept.
pub allocproc_lem :
    {lost : ℕ → Bool} {k : Kernel} {qs : ℕ → List ℕ}
    → IsReady lost k qs
    → (page : Option ℕ)
    → (o : Option ℕ) × FirstUnused k 0 nproc o
      × (allocproc k page ≡ allocated k o page)
      × IsReady lost (allocproc k page).1 qs
unfolding allocproc
allocproc_lem {lost} {k} {qs} r page =
    go (find_unused nproc 0 k) refl (find_unused_lem nproc 0 nproc k (omega arith))
  where
    stack :
        (p : ℕ)
        → (k.proc p).state ≡ unused
        → (o : Option ℕ) → IsReady lost (give_stack (found k p) p o).1 qs
    stack p h none = IsReady-set (found-IsReady r p h) p _ (λ q. ground arith) (λ q. ground arith)
    stack p h (some page) =
        IsReady-set (found-IsReady r p h) p _ (λ q. ground arith) (λ q. ground arith)

    go :
        (o : Option ℕ)
        → find_unused nproc 0 k ≡ o
        → FirstUnused k 0 nproc o
        → (o : Option ℕ) × FirstUnused k 0 nproc o
          × (allocproc k page ≡ allocated k o page)
          × IsReady lost (allocproc k page).1 qs
    go none e f = (none, f, rw (e, allocproc) refl, rw (e, allocproc) r)
    go (some p) e f = (some p, f, rw (e, allocproc) refl, rw (e, allocproc) (stack p f.2 page))

allocproc-eq :
    (k : Kernel) (page o : Option ℕ)
    → find_unused nproc 0 k ≡ o
    → allocproc k page ≡ allocated k o page
unfolding allocproc
allocproc-eq k page none h = rw (h, allocproc) refl
allocproc-eq k page (some p) h = rw (h, allocproc) refl

fork-eq :
    (k k1 : Kernel) (me np : ℕ) (page dir : Option ℕ)
    → allocproc k page ≡ (some np, k1)
    → fork k me page dir ≡ fork_into k1 me np dir
unfolding fork
fork-eq k k1 me np page dir h = ap (fork_after me dir) h

fork_into-eq :
    (k : Kernel) (me np dir : ℕ) {k' : Kernel}
    → make_runnable (copy_into k me np dir) np ≡ some k'
    → fork_into k me np (some dir) ≡ some (some (k.proc np).pid, k')
unfolding fork_into
fork_into-eq k me np dir h = rw (h, fork_into) refl

pub make_runnable_lem :
    {lost : ℕ → Bool} {k : Kernel} {qs : ℕ → List ℕ}
    → IsReady lost k qs
    → (p : ℕ) → p < nproc
    → (k.proc p).state ≢ runnable
    → (k' : Kernel) × (make_runnable k p ≡ some k')
      × (let c = get_least_loaded_e_core k in IsReady lost k' (update qs c (qs c ++ p ∷ [])))
      × SameButQueues (set_state k p runnable) k'
unfolding make_runnable
make_runnable_lem {lost} {k} {qs} r p lt h =
    rw (← get_least_loaded_e_core-same k (set_state k p runnable) refl refl)
      (join_lem r (get_least_loaded_e_core (set_state k p runnable)) p lt h)

-- The child that a successful fork by `me` leaves at entry `np`: it has its own pid, stack and page
-- table, the parent's size, the current tick as creation time, and is the last of the queue of the
-- least loaded E-core.
pub record Forked (k : Kernel) (qs : ℕ → List ℕ) (me np page dir : ℕ) (k' : Kernel)
    (qs' : ℕ → List ℕ) : Type 0 where
  pub parent : (k'.proc np).parent ≡ some me
  pub pid : (k'.proc np).pid ≡ k.nextpid
  pub state : (k'.proc np).state ≡ runnable
  pub ctime : (k'.proc np).ctime ≡ k.ticks
  pub kstack : (k'.proc np).kstack ≡ some page
  pub pgdir : (k'.proc np).pgdir ≡ some dir
  pub sz : (k'.proc np).sz ≡ (k.proc me).sz
  pub others : (i : ℕ) → i ≢ np → body (k'.proc i) ≡ body (k.proc i)
  pub next_pid : k'.nextpid ≡ add32 k.nextpid 1
  pub queue : let c = get_least_loaded_e_core k in qs' ≡ update qs c (qs c ++ np ∷ [])

-- With an UNUSED entry `np`, a page for the stack and a page table, `fork` returns the next pid and
-- leaves the child, and the scheduler's invariant is kept.
pub fork_lem :
    {lost : ℕ → Bool} {k : Kernel} {qs : ℕ → List ℕ}
    → IsReady lost k qs
    → (me np page dir : ℕ) → find_unused nproc 0 k ≡ some np
    → (k' : Kernel) × (qs' : ℕ → List ℕ) × (fork k me (some page) (some dir)
        ≡ some (some k.nextpid, k'))
      × IsReady lost k' qs'
      × Forked k qs me np page dir k' qs'
fork_lem {lost} {k} {qs} r me np page dir h =
    let f : FirstUnused k 0 nproc (some np) =
      rw h at (find_unused_lem nproc 0 nproc k (omega arith)) in
    let k1 = (give_stack (found k np) np (some page)).1 in
    let r1 : IsReady lost k1 qs =
      IsReady-set (found-IsReady r np f.2) np _ (λ q. ground arith) (λ q. ground arith) in
    let k2 = copy_into k1 me np dir in
    let r2 : IsReady lost k2 qs = IsReady-set r1 np _ (λ q. ground arith) (λ q. ground arith) in
    let (k3, e, r3, s) = make_runnable_lem r2 np f.1 (λ q. ground arith) in
    (
      k3,
      _,
      fork-eq k k1 me np (some page) (some dir) (allocproc-eq k (some page) (some np) h)
          ∙ fork_into-eq k1 me np dir e
          ∙ ap (λ pid. some (some pid, k3)) (ground arith),
      r3,
      record {
        parent = ground (arith, s.procs np);
        pid = ground (arith, s.procs np);
        state = ground (arith, s.procs np);
        ctime = ground (arith, s.procs np);
        kstack = ground (arith, s.procs np);
        pgdir = ground (arith, s.procs np);
        sz = ground (arith, s.procs np);
        others = λ i ne. ground (arith, s.procs i);
        next_pid = ground (arith, s.rest);
        queue = rw (get_least_loaded_e_core-same k k2 refl refl) refl;
      },
    )
