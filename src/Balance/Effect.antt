-- ===== src/Balance/Effect.antt =====
-- What a round of load_balance (proc.c) means for single processes and for the loads.
use os_ca.Prelude.{
  ℕ, ◌+◌, ◌<◌, ◌≤◌, ◌≡◌, refl, ◌⊎◌, Bool, true, false, Option, none, some, List, [], ◌∷◌, arith,
  length, contains, erase, update, if◌then◌else◌, leb, contains-append, contains-erase_of_ne,
  length-append, length-erase, inl, inr, Bool-cases, ◌==◌, slt32,
}
use os_ca.Kernel.{Kernel, is_e, in_state, runnable}
use os_ca.Cores.{get_lightest_p_core, is_p}
use os_ca.Cores.Choice.{get_lightest_p_core-is_p}
use os_ca.RunQueue.Invariant.{Queues, length-le}
use os_ca.Balance.{is_movable, load_balance}
use os_ca.Balance.Refine.{
  first_movable, first_movable-contains, moved, balanced, balanced_with, balanced_onto,
  load_balance_refines,
}

module _ (k : Kernel) (qs : ℕ → List ℕ) (e i : ℕ) where
  -- A process that may not be moved.
  onto_pinned :
      (p c : ℕ) (o : Option ℕ)
      → is_movable (k.proc i) ≡ false
      → first_movable k.proc (qs e) ≡ o
      → contains i (balanced_onto k qs e p o c) ≡ contains i (qs c)
  onto_pinned p c none h f = refl
  onto_pinned p c (some v) h f = ground (
    arith,
    first_movable-contains k.proc (qs e) v,
    contains-erase_of_ne i v (qs e),
    contains-append i (update qs e (erase v (qs e)) p) (v ∷ []),
  )

  with_pinned :
      (c : ℕ) (o : Option ℕ)
      → is_movable (k.proc i) ≡ false
      → contains i (balanced_with k qs e o c) ≡ contains i (qs c)
  with_pinned c none h = refl
  with_pinned c (some p) h = ground (arith, onto_pinned p c (first_movable k.proc (qs e)) h refl)

  balanced-pinned :
      (c : ℕ) → is_movable (k.proc i) ≡ false → contains i (balanced k qs e c) ≡ contains i (qs c)
  balanced-pinned c h = ground (arith, with_pinned c (get_lightest_p_core k))

  -- Queued before, queued after.
  onto_kept :
      (p c : ℕ) (o : Option ℕ)
      → contains i (qs c) ≡ true
      → (d : ℕ) × (contains i (balanced_onto k qs e p o d) ≡ true)
  onto_kept p c none h = (c, h)
  onto_kept p c (some v) h = elim (Bool-cases (i == v)) [
    | inl same ↦ (p, ground (arith, contains-append i (update qs e (erase v (qs e)) p) (v ∷ [])))
    | inr other ↦ (
      c,
      ground (
        arith,
        contains-erase_of_ne i v (qs e),
        contains-append i (update qs e (erase v (qs e)) p) (v ∷ []),
      ),
    )
  ]

  pub balanced-kept :
      (c : ℕ) → contains i (qs c) ≡ true → (d : ℕ) × (contains i (balanced k qs e d) ≡ true)
  balanced-kept c h = go (is_e (k.cpu e).core_type) refl (get_lightest_p_core k) refl
    where
      with_kept : (o : Option ℕ) → (d : ℕ) × (contains i (balanced_with k qs e o d) ≡ true)
      with_kept none = (c, h)
      with_kept (some p) = elim (Bool-cases (leb (length (qs p) + 3) (length (qs e)))) [
        | inl t ↦ rw t (onto_kept p c (first_movable k.proc (qs e)) h)
        | inr f ↦ (c, rw f h)
      ]

      go :
          (t : Bool)
          → is_e (k.cpu e).core_type ≡ t
          → (o : Option ℕ) → get_lightest_p_core k ≡ o
          → (d : ℕ) × (contains i (balanced k qs e d) ≡ true)
      go true a o b = rw (a, b) (with_kept o)
      go false a o b = rw a (c, h)

  -- Queued after, queued before.
  onto_old :
      (p c : ℕ) (o : Option ℕ)
      → first_movable k.proc (qs e) ≡ o
      → contains i (balanced_onto k qs e p o c) ≡ true
      → (d : ℕ) × (contains i (qs d) ≡ true)
  onto_old p c none f h = (c, h)
  onto_old p c (some v) f h = elim (Bool-cases (i == v)) [
    | inl same ↦ (e, ground (arith, first_movable-contains k.proc (qs e) v))
    | inr other ↦ (
      c,
      ground (
        arith,
        contains-erase_of_ne i v (qs e),
        contains-append i (update qs e (erase v (qs e)) p) (v ∷ []),
      ),
    )
  ]

  pub balanced-old :
      (c : ℕ) → contains i (balanced k qs e c) ≡ true → (d : ℕ) × (contains i (qs d) ≡ true)
  balanced-old c h = go (is_e (k.cpu e).core_type) refl (get_lightest_p_core k) refl
    where
      with_old :
          (o : Option ℕ)
          → contains i (balanced_with k qs e o c) ≡ true
          → (d : ℕ) × (contains i (qs d) ≡ true)
      with_old none m = (c, m)
      with_old (some p) m = elim (Bool-cases (leb (length (qs p) + 3) (length (qs e)))) [
        | inl t ↦ onto_old p c (first_movable k.proc (qs e)) refl (rw t at m)
        | inr f ↦ (c, rw f at m)
      ]

      go :
          (t : Bool)
          → is_e (k.cpu e).core_type ≡ t
          → (o : Option ℕ) → get_lightest_p_core k ≡ o
          → (d : ℕ) × (contains i (qs d) ≡ true)
      go true a o b = with_old o (rw (a, b) at h)
      go false a o b = (c, rw a at h)

-- `load_balance` loses no process and moves neither a process that is not RUNNABLE nor one whose
-- pid is at most 2 (init and the shell): it returns, the links, counters and queues agree with some
-- sequences `qs'`, a process that was in a queue is in one of those, and one that may not be moved
-- is in just the queues in which it was.
pub load_balance_keeps :
    {k : Kernel} {qs : ℕ → List ℕ}
    → Queues k qs
    → (e : ℕ)
    → (k' : Kernel) × (qs' : ℕ → List ℕ) × (load_balance k e ≡ some k')
      × Queues k' qs'
      × ((i c : ℕ) → contains i (qs c) ≡ true → (d : ℕ) × (contains i (qs' d) ≡ true))
      × ((i c : ℕ)
          → (in_state (k.proc i).state runnable ≡ false) ⊎ (slt32 2 (k.proc i).pid ≡ false)
          → contains i (qs' c) ≡ contains i (qs c))
unfolding is_movable
load_balance_keeps {k} {qs} v e =
    let (k', eq, q, s) = load_balance_refines v e in
    (
      k',
      balanced k qs e,
      eq,
      q,
      λ i c h. balanced-kept k qs e i c h,
      λ i c h. balanced-pinned k qs e i c (ground arith),
    )

-- The load of `e` has moved by one process to a P-core and is still the larger.
abbrev pub Gap : Kernel → (ℕ → List ℕ) → (ℕ → List ℕ) → ℕ → Type 0
Gap k qs qs' e =
    (p : ℕ) × (is_p (k.cpu p).core_type ≡ true)
    × (length (qs' e) + 1 ≡ length (qs e))
    × (length (qs' p) ≡ length (qs p) + 1)
    × (length (qs' p) < length (qs' e))

Gap-moved :
    (k : Kernel) (qs : ℕ → List ℕ) (e p v : ℕ)
    → is_e (k.cpu e).core_type ≡ true
    → is_p (k.cpu p).core_type ≡ true
    → length (qs p) + 3 ≤ length (qs e)
    → contains v (qs e) ≡ true
    → Gap k qs (moved qs e p v) e
Gap-moved k qs e p v he hp len h = (
  p,
  hp,
  ground (arith, length-erase v (qs e)),
  ground (arith, length-append (qs p) (v ∷ [])),
  ground (arith, length-erase v (qs e), length-append (qs p) (v ∷ [])),
)

-- `load_balance` never overshoots: it returns, the links, counters and queues agree with some
-- sequences `qs'`, and either the queue of `e` is as it was, or some P-core's queue has grown by one,
-- that of `e` has shrunk by one, and that of `e` is still the longer of the two.
pub load_balance-Gap :
    {k : Kernel} {qs : ℕ → List ℕ}
    → Queues k qs
    → (e : ℕ)
    → (k' : Kernel) × (qs' : ℕ → List ℕ) × (load_balance k e ≡ some k')
      × Queues k' qs'
      × ((qs' e ≡ qs e) ⊎ Gap k qs qs' e)
load_balance-Gap {k} {qs} v e =
    let (k', eq, q, s) = load_balance_refines v e in
    (k', balanced k qs e, eq, q, go (is_e (k.cpu e).core_type) refl (get_lightest_p_core k) refl)
  where
    with_gap :
        (p : ℕ) (t : Bool) (o : Option ℕ)
        → is_e (k.cpu e).core_type ≡ true
        → get_lightest_p_core k ≡ some p
        → leb (length (qs p) + 3) (length (qs e)) ≡ t
        → first_movable k.proc (qs e) ≡ o
        → let qs' = if t then balanced_onto k qs e p o else qs in (qs' e ≡ qs e) ⊎ Gap k qs qs' e
    with_gap p false o he hp ht ho = inl refl
    with_gap p true none he hp ht ho = inl refl
    with_gap p true (some x) he hp ht ho = inr (
        Gap-moved k qs e p x he
          (get_lightest_p_core-is_p k (λ d. ground (arith, v.count d, length-le v d)) p hp)
          (ground arith) (first_movable-contains k.proc (qs e) x ho).0)

    go :
        (t : Bool)
        → is_e (k.cpu e).core_type ≡ t
        → (o : Option ℕ) → get_lightest_p_core k ≡ o
        → (balanced k qs e e ≡ qs e) ⊎ Gap k qs (balanced k qs e) e
    go false a o b = rw a (inl refl)
    go true a none b = rw (a, b) (inl refl)
    go true a (some p) b = rw (a, b) (with_gap p _ _ a b refl refl)
