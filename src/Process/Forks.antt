-- ===== src/Process/Forks.antt =====
-- fork (proc.c) as steps of the system, with any steps of others between them.
use os_ca.Prelude.{ℕ, ◌<◌, ◌≡◌, refl, ap, subst, some_unique, Option, none, some, arith, ◌>>=◌}
use os_ca.Kernel.{Kernel, embryo, nproc}
use os_ca.Wakeup.{make_runnable}
use os_ca.Process.{
  find_unused, found, give_stack, allocproc, copy_into, fork_into, fork_after, fork,
}
use os_ca.Process.Alloc.{FirstUnused, find_unused_lem}
use os_ca.Process.System.{Reach, here, next, allocs, copies, drops, starts}

-- An entry that allocproc returns is an EMBRYO of the table.
abbrev IsNew : Option ℕ × Kernel → Type 0
IsNew (none, k) = Unit
IsNew (some np, k) = (np < nproc) × ((k.proc np).state ≡ embryo)

allocproc-IsNew : (k : Kernel) (page : Option ℕ) → IsNew (allocproc k page)
unfolding allocproc
allocproc-IsNew k page = go (find_unused nproc 0 k) (find_unused_lem nproc 0 nproc k (omega arith))
  where
    stack : (p : ℕ) → p < nproc → (page : Option ℕ) → IsNew (give_stack (found k p) p page)
    stack p l none = tt
    stack p l (some page) = (l, ground arith)

    go :
        (o : Option ℕ)
        → FirstUnused k 0 nproc o
        → IsNew (elim o [ none ↦ (none, k) | some p ↦ give_stack (found k p) p page ])
    go none f = tt
    go (some p) f = stack p f.1 page

fork_into-Reach :
    {k k1 k' : Kernel} (me np : ℕ) (dir o : Option ℕ)
    → Reach k k1
    → np < nproc
    → (k1.proc np).state ≡ embryo
    → fork_into k1 me np dir ≡ some (o, k')
    → Reach k k'
unfolding fork_into
fork_into-Reach {k} {k1} {k'} me np none o r l h e =
    subst (λ x. Reach k x) (ap (λ (x : Option ℕ × Kernel). x.1) (some_unique refl e))
      (next r (drops np h))
fork_into-Reach {k} {k1} {k'} me np (some dir) o r l h e =
    go (make_runnable (copy_into k1 me np dir) np) refl e
  where
    go :
        (m : Option Kernel)
        → make_runnable (copy_into k1 me np dir) np ≡ m
        → ◌>>=◌ {B = Option ℕ × Kernel} m (λ k2. some (some (k1.proc np).pid, k2)) ≡ some (o, k')
        → Reach k k'
    go none q e = absurd (ground arith)
    go (some k2) q e =
        subst (λ x. Reach k x) (ap (λ (x : Option ℕ × Kernel). x.1) (some_unique refl e))
          (next (next r (copies me np dir h)) (starts np l (ground (arith, h)) q))

-- What fork leaves when it returns is reached by steps of the system: no change that it makes is left out there.
pub fork-Reach :
    {k k' : Kernel} (me : ℕ) (page dir o : Option ℕ)
    → fork k me page dir ≡ some (o, k')
    → Reach k k'
unfolding fork fork_after
fork-Reach {k} {k'} me page dir o e =
    go (allocproc k page) (allocproc-IsNew k page) (next here (allocs page)) e
  where
    go :
        (r : Option ℕ × Kernel)
        → IsNew r
        → Reach k r.1
        → fork_after me dir r ≡ some (o, k')
        → Reach k k'
    go (none, k1) i r e =
        subst (λ x. Reach k x) (ap (λ (x : Option ℕ × Kernel). x.1) (some_unique refl e)) r
    go (some np, k1) (l, h) r e = fork_into-Reach me np dir o r l h e
