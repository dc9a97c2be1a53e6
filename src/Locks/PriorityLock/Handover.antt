-- ===== src/Locks/PriorityLock/Handover.antt =====
-- Which thread plock_release (spinlock.c) hands the lock to.
use mathlib.Core.List.{append_assoc, append-nil}
use os_ca.Prelude.{
  ℕ, ◌+◌, ◌≡◌, refl, sym, ◌∙◌, ap, subst, ◌⊎◌, true, false, Option, none, some, List, [], ◌∷◌, ◌++◌,
  arith, length, Bool-cases, inl, inr, slt32, length-append,
}
use os_ca.Locks.PriorityLock.{Plock, PlockNode, highest, remove_at, hand_over, plock_release}

-- Every node of the list has a lower priority than `h`.
abbrev pub AllLower : PlockNode → List PlockNode → Type 0
AllLower h [] = Unit
AllLower h (x ∷ xs) = (slt32 x.priority h.priority ≡ true) × AllLower h xs

-- No node of the list has a higher priority than `h`.
abbrev pub NoneHigher : PlockNode → List PlockNode → Type 0
NoneHigher h [] = Unit
NoneHigher h (x ∷ xs) = (slt32 h.priority x.priority ≡ false) × NoneHigher h xs

-- `h` stands in the list between `front` and `back`, and is the first of the highest priority.
pub record IsFirstHighest (nodes front : List PlockNode) (h : PlockNode) (back : List PlockNode)
    : Type 0 where
  pub split : nodes ≡ front ++ h ∷ back
  pub lower : AllLower h front
  pub not_higher : NoneHigher h back

AllLower-trans :
    (h x : PlockNode) (xs : List PlockNode)
    → slt32 h.priority x.priority ≡ true
    → AllLower h xs
    → AllLower x xs
AllLower-trans h x [] l a = tt
AllLower-trans h x (y ∷ ys) l a = (ground (arith, a.0), AllLower-trans h x ys l a.1)

AllLower-over :
    (h x : PlockNode) (front mid : List PlockNode)
    → slt32 h.priority x.priority ≡ true
    → AllLower h front
    → NoneHigher h mid
    → AllLower x (front ++ h ∷ mid)
AllLower-over h x [] mid l a b = (l, go mid b)
  where
    go : (ys : List PlockNode) → NoneHigher h ys → AllLower x ys
    go [] b = tt
    go (y ∷ ys) b = (ground (arith, b.0), go ys b.1)
AllLower-over h x (y ∷ ys) mid l a b = (ground (arith, a.0), AllLower-over h x ys mid l a.1 b)

NoneHigher-snoc :
    (h x : PlockNode) (mid : List PlockNode)
    → slt32 h.priority x.priority ≡ false
    → NoneHigher h mid
    → NoneHigher h (mid ++ x ∷ [])
NoneHigher-snoc h x [] l a = (l, tt)
NoneHigher-snoc h x (y ∷ ys) l a = (a.0, NoneHigher-snoc h x ys l a.1)

highest_lem :
    (rest front : List PlockNode) (h : PlockNode) (mid nodes : List PlockNode) (i : ℕ)
    → nodes ≡ (front ++ h ∷ mid) ++ rest
    → i ≡ length (front ++ h ∷ mid)
    → AllLower h front
    → NoneHigher h mid
    → (front' : List PlockNode) × (h' : PlockNode) × (back' : List PlockNode) × (highest rest i
          (length front)
          h
        ≡ (length front', h'))
      × IsFirstHighest nodes front' h' back'
unfolding highest
highest_lem [] front h mid nodes i e n a b =
    (front, h, mid, refl, record { split = e ∙ append-nil _; lower = a; not_higher = b })
highest_lem (x ∷ xs) front h mid nodes i e n a b = elim (Bool-cases (slt32 h.priority x.priority)) [
  | inl t ↦
      rw (t, n)
        (highest_lem xs (front ++ h ∷ mid) x [] nodes (length (front ++ h ∷ mid) + 1) one_more
          (omega (arith, length-append (front ++ h ∷ mid) (x ∷ [])))
          (AllLower-over h x front mid t a b) tt)
  | inr f ↦ rw f (
      highest_lem xs front h (mid ++ x ∷ []) nodes (i + 1)
        (one_more ∙ ap (λ (l : List PlockNode). l ++ xs) regroup)
        (omega (arith, n, ap length regroup, length-append (front ++ h ∷ mid) (x ∷ []))) a
        (NoneHigher-snoc h x mid f b))
]
  where
    one_more : nodes ≡ ((front ++ h ∷ mid) ++ x ∷ []) ++ xs
    one_more = e ∙ sym (append_assoc (front ++ h ∷ mid) (x ∷ []) xs)

    regroup : (front ++ h ∷ mid) ++ x ∷ [] ≡ front ++ h ∷ (mid ++ x ∷ [])
    regroup = append_assoc front (h ∷ mid) (x ∷ [])

remove_at_lem :
    (front : List PlockNode) (h : PlockNode) (back : List PlockNode)
    → remove_at (length front) (front ++ h ∷ back) ≡ front ++ back
unfolding remove_at
remove_at_lem [] h back = refl
remove_at_lem (x ∷ xs) h back = ap (λ (l : List PlockNode). x ∷ l) (remove_at_lem xs h back)

not_lower : (a : ℕ) → slt32 a a ≡ false
not_lower a = ground arith

hand_over_lem :
    (pl : Plock) (x : PlockNode) (xs : List PlockNode)
    → (front : List PlockNode) × (h : PlockNode) × (back : List PlockNode) × IsFirstHighest
        (x ∷ xs)
        front
        h
        back
      × (hand_over pl (x ∷ xs)
          ≡ (record pl { nodes = front ++ back; owner = some h.proc }, some h.proc))
unfolding hand_over highest
hand_over_lem pl x xs =
    let (front, h, back, f, v) = highest_lem xs [] x [] (x ∷ xs) 1 refl refl tt tt in
    (front, h, back, v, conclude front h back (start ∙ f) v)
  where
    start : highest (x ∷ xs) 0 0 x ≡ highest xs 1 0 x
    start = rw (not_lower x.priority) refl

    conclude :
        (front : List PlockNode) (h : PlockNode) (back : List PlockNode)
        → highest (x ∷ xs) 0 0 x ≡ (length front, h)
        → IsFirstHighest (x ∷ xs) front h back
        → hand_over pl (x ∷ xs)
          ≡ (record pl { nodes = front ++ back; owner = some h.proc }, some h.proc)
    conclude front h back f v =
        ap
          (λ (r : ℕ × PlockNode).
            (record pl { nodes = remove_at r.0 (x ∷ xs); owner = some r.1.proc }, some r.1.proc))
          f
        ∙ ap (λ (l : List PlockNode). (record pl { nodes = l; owner = some h.proc }, some h.proc))
            (ap (remove_at (length front)) v.split ∙ remove_at_lem front h back)

-- What the owner's call of plock_release does.
pub Releases : Plock → Option (Plock × Option ℕ) → Type 0
Releases pl r =
    ((pl.nodes ≡ []) × (r ≡ some (record pl { locked = false; owner = none }, none)))
    ⊎ ((front : List PlockNode) × (h : PlockNode) × (back : List PlockNode) × IsFirstHighest
          pl.nodes front h back
        × (r ≡ some (record pl { nodes = front ++ back; owner = some h.proc }, some h.proc)))

-- The owner's call of plock_release frees the lock if no thread waits. Otherwise it hands the lock,
-- which stays locked, to the thread whose node is the first in the list of those with the highest
-- priority, takes this node alone out of the list, and wakes that thread.
pub plock_release_lem : (pl : Plock) (p : ℕ) → pl.owner ≡ some p → Releases pl (plock_release pl p)
unfolding Releases plock_release hand_over
plock_release_lem pl p own = go pl.nodes refl
  where
    released : plock_release pl p ≡ some (hand_over pl pl.nodes)
    released = ground (arith, own)

    go : (nodes : List PlockNode) → pl.nodes ≡ nodes → Releases pl (plock_release pl p)
    go [] e = inl (e, released ∙ ap (λ (l : List PlockNode). some (hand_over pl l)) e)
    go (x ∷ xs) e =
        let (front, h, back, v, f) = hand_over_lem pl x xs in
        inr (
          front,
          h,
          back,
          subst (λ (l : List PlockNode). IsFirstHighest l front h back) (sym e) v,
          released
              ∙ ap (λ (l : List PlockNode). some (hand_over pl l)) e
              ∙ ap (λ (r : Plock × Option ℕ). some r) f,
        )
