-- ===== src/Balance/Refine.antt =====
-- load_balance (proc.c) on the sequences that the run queues hold.
use os_ca.Prelude.{
  ℕ, zero, suc, ◌+◌, ◌<◌, ◌≡◌, refl, Bool, true, false, Option, none, some, List, [], ◌∷◌, ◌++◌,
  arith, length, contains, erase, update, if◌then◌else◌, leb, contains-erase_self, sle32, add32,
}
use os_ca.Kernel.{Kernel, Proc, nproc, is_e}
use os_ca.RunQueue.Links.{Links}
use os_ca.RunQueue.Invariant.{
  Queues, length-le, SameButQueues, SameButQueues-trans, SameButQueues-refl,
}
use os_ca.RunQueue.Enqueue.{enqueue_refines}
use os_ca.RunQueue.Dequeue.{dequeue_refines}
use os_ca.Cores.{get_lightest_p_core}
use os_ca.Balance.{is_movable, find_victim, move, balance_onto, load_balance}

-- The first process of a queue that may be moved.
abbrev pub first_movable : (ℕ → Proc) → List ℕ → Option ℕ
first_movable ps [] = none
first_movable ps (i ∷ q) = if is_movable (ps i) then some i else first_movable ps q

find_victim-eq :
    (ps : ℕ → Proc) (fuel : ℕ) (start : Option ℕ) (q : List ℕ)
    → length q < fuel
    → Links ps start q
    → find_victim fuel ps start ≡ some (first_movable ps q)
unfolding find_victim
find_victim-eq ps zero start q h l = absurd (ground arith)
find_victim-eq ps (suc fuel) start [] h l = ground arith
find_victim-eq ps (suc fuel) start (i ∷ q) h l =
    ground (arith, find_victim-eq ps fuel (ps i).next_run q)

pub first_movable-contains :
    (ps : ℕ → Proc) (q : List ℕ) (v : ℕ)
    → first_movable ps q ≡ some v
    → (contains v q ≡ true) × (is_movable (ps v) ≡ true)
first_movable-contains ps [] v h = absurd (ground arith)
first_movable-contains ps (i ∷ q) v h = ground (arith, first_movable-contains ps q v)

-- The queues after `v` has gone from that of `e` to the end of that of `p`.
abbrev pub moved : (ℕ → List ℕ) → ℕ → ℕ → ℕ → ℕ → List ℕ
moved qs e p v = let rest = update qs e (erase v (qs e)) in update rest p (rest p ++ v ∷ [])

-- What the queues are to be after a round of balancing on CPU `e`.
abbrev pub balanced_onto : Kernel → (ℕ → List ℕ) → ℕ → ℕ → Option ℕ → ℕ → List ℕ
balanced_onto k qs e p none = qs
balanced_onto k qs e p (some v) = moved qs e p v

abbrev pub balanced_with : Kernel → (ℕ → List ℕ) → ℕ → Option ℕ → ℕ → List ℕ
balanced_with k qs e none = qs
balanced_with k qs e (some p) =
    if leb (length (qs p) + 3) (length (qs e))
    then balanced_onto k qs e p (first_movable k.proc (qs e))
    else qs

abbrev pub balanced : Kernel → (ℕ → List ℕ) → ℕ → ℕ → List ℕ
balanced k qs e =
    if is_e (k.cpu e).core_type then balanced_with k qs e (get_lightest_p_core k) else qs

-- A step that returns, with the queues `qs'` after it.
abbrev pub Leaves : Kernel → Option Kernel → (ℕ → List ℕ) → Type 0
Leaves k r qs' = (k' : Kernel) × (r ≡ some k') × (Queues k' qs' × SameButQueues k k')

module _ {k : Kernel} {qs : ℕ → List ℕ} (v : Queues k qs) (e : ℕ) where
  move_refines :
      (p : ℕ) (o : Option ℕ)
      → first_movable k.proc (qs e) ≡ o
      → Leaves k (move k e p o) (balanced_onto k qs e p o)
  unfolding move
  move_refines p none h = (k, refl, (v, SameButQueues-refl k))
  move_refines p (some i) h =
      let m = first_movable-contains k.proc (qs e) i h in
      let (k1, e1, v1, s1) = dequeue_refines v e i m.0 in
      let (k2, e2, v2, s2) =
        enqueue_refines v1 p i (v.bounded e i m.0)
          (λ d. ground (arith, v.disjoint e d i, contains-erase_self i (qs e), v.distinct e)) in
      (k2, ground arith, (v2, SameButQueues-trans s1 s2))

  balance_onto_refines : (o : Option ℕ) → Leaves k (balance_onto k e o) (balanced_with k qs e o)
  unfolding balance_onto
  balance_onto_refines none = (k, refl, (v, SameButQueues-refl k))
  balance_onto_refines (some p) =
      go (leb (length (qs p) + 3) (length (qs e)))
        (ground (arith, v.count p, v.count e, length-le v p, length-le v e))
    where
      go :
          (t : Bool)
          → sle32 (add32 (k.cpu p).queue_count 3) (k.cpu e).queue_count ≡ t
          → Leaves k
              (balance_onto k e (some p))
              (if t then balanced_onto k qs e p (first_movable k.proc (qs e)) else qs)
      go true h =
          let (k', eq, rest) = move_refines p (first_movable k.proc (qs e)) refl in
          (
            k',
            ground (
              arith,
              h,
              find_victim-eq k.proc (suc nproc) (k.cpu e).runq (qs e)
                  (ground (arith, length-le v e)) (v.links e),
              eq,
            ),
            rest,
          )
      go false h = (k, rw (h, balance_onto) refl, (v, SameButQueues-refl k))

-- Where the links, counters and queues agree, `load_balance` on CPU `e` always returns, they agree
-- again afterwards, and only links, heads and counters have changed. The queues are then those of
-- the specification `balanced`: if `e` is an E-core, the lightest P-core `p` exists, its queue is
-- shorter by three or more, and the queue of `e` holds a movable process, the first such process has
-- gone from the queue of `e` to the end of that of `p`; in every other case no queue has changed.
pub load_balance_refines :
    {k : Kernel} {qs : ℕ → List ℕ}
    → Queues k qs
    → (e : ℕ)
    → (k' : Kernel) × (load_balance k e ≡ some k')
      × Queues k' (balanced k qs e)
      × SameButQueues k k'
unfolding load_balance
load_balance_refines {k} {qs} v e =
    go (is_e (k.cpu e).core_type) refl (balance_onto_refines v e (get_lightest_p_core k))
  where
    go :
        (t : Bool)
        → is_e (k.cpu e).core_type ≡ t
        → Leaves k
            (balance_onto k e (get_lightest_p_core k))
            (balanced_with k qs e (get_lightest_p_core k))
        → (k' : Kernel) × (load_balance k e ≡ some k')
          × Queues k' (balanced k qs e)
          × SameButQueues k k'
    go true h (k', eq, (q, s)) = (k', rw (h, load_balance) eq, rw (h, balanced) q, s)
    go false h _ = (k, rw (h, load_balance) refl, rw (h, balanced) v, SameButQueues-refl k)
