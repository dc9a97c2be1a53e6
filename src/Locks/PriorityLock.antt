-- ===== src/Locks/PriorityLock.antt =====
-- The priority lock of spinlock.c. Each call runs under the lock's spinlock. A thread that waits is a
-- node of a list, the last to come first; a priority is a 32-bit pattern of an int.
pub mod Handover
use os_ca.Prelude.{
  ℕ, zero, suc, ◌+◌, Bool, true, false, Option, none, some, List, [], ◌∷◌, if◌then◌else◌, points_to,
  slt32,
}

pub record PlockNode : Type 0 where
  pub proc : ℕ
  pub priority : ℕ

pub record Plock : Type 0 where
  pub locked : Bool
  pub nodes : List PlockNode
  pub owner : Option ℕ

abbrev pub plock_init : Plock
plock_init = record { locked = false; nodes = []; owner = none }

-- What a call returns at once: it holds the lock, or sleeps.
pub data Entry : Type 0 where
  entered : Plock → Entry
  queued : Plock → Entry

-- `has_page` says whether kalloc has a page for the node; `none` is the panic without one.
pub plock_acquire : Plock → ℕ → ℕ → Bool → Option Entry
plock_acquire pl p priority has_page =
    if pl.locked
    then if has_page
      then some (queued (record pl { nodes = record { proc = p; priority = priority } ∷ pl.nodes }))
      else none
    else some (entered (record pl { locked = true; owner = some p }))

-- The loop of plock_release from the `i`-th node on: the place of the highest node so far and the node.
pub highest : List PlockNode → ℕ → ℕ → PlockNode → ℕ × PlockNode
highest [] i place best = (place, best)
highest (x ∷ xs) i place best =
    let better = slt32 best.priority x.priority in
    highest xs (i + 1) (if better then i else place) (if better then x else best)

-- `*highest_prev = highest->next`
pub remove_at : ℕ → List PlockNode → List PlockNode
remove_at n [] = []
remove_at zero (x ∷ xs) = xs
remove_at (suc n) (x ∷ xs) = x ∷ remove_at n xs

-- The release once the caller is known to be the owner, with the process that is woken.
pub hand_over : Plock → List PlockNode → Plock × Option ℕ
unfolding highest remove_at
hand_over pl [] = (record pl { locked = false; owner = none }, none)
hand_over pl (x ∷ xs) =
    let (place, best) = highest (x ∷ xs) 0 0 x in
    (record pl { nodes = remove_at place (x ∷ xs); owner = some best.proc }, some best.proc)

-- `none` is the panic of a caller that is not the owner.
pub plock_release : Plock → ℕ → Option (Plock × Option ℕ)
unfolding hand_over
plock_release pl p = if points_to pl.owner p then some (hand_over pl pl.nodes) else none
