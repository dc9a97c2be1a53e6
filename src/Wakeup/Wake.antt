-- ===== src/Wakeup/Wake.antt =====
-- wakeup1 (proc.c) makes just the processes that sleep on the channel RUNNABLE, and queues them.
use os_ca.Prelude.{
  ℕ, zero, suc, ◌+◌, ◌<◌, ◌≤◌, ◌≡◌, refl, ◌∙◌, sym, Bool, true, false, Option, some, List, [], ◌∷◌,
  ◌++◌, arith, update, if◌then◌else◌, ◌==◌, ltb, Bool-cases, inl, inr,
}
use mathlib.Core.List.{append_assoc, append-nil}
use os_ca.Kernel.{Kernel, Proc, Chan, runnable, nproc, set_state}
use os_ca.RunQueue.Invariant.{body}
use os_ca.Cores.{get_least_loaded_e_core}
use os_ca.Schedule.Ready.{IsReady}
use os_ca.Wakeup.{waits_on, make_runnable, wake_one, wake_from, wakeup1}
use os_ca.Wakeup.Join.{join_lem}

-- What a wakeup on `chan` makes of a process.
abbrev pub woken : Chan → Proc → Proc
woken chan p = if waits_on p chan then record p { state = runnable } else p

-- The queues have only grown, at their ends.
abbrev pub Extends : (ℕ → List ℕ) → (ℕ → List ℕ) → Type 0
Extends qs qs' = (c : ℕ) → (new : List ℕ) × (qs' c ≡ qs c ++ new)

Extends-trans : (a b c : ℕ → List ℕ) → Extends a b → Extends b c → Extends a c
Extends-trans a b c s t d =
    let (m, e) = s d in let (n, f) = t d in (m ++ n, f ∙ rw e (append_assoc (a d) m n))

-- The processes from `lo` on and below `hi` have been woken, and nothing else has changed but
-- links, queue heads and counters.
pub record Woken (chan : Chan) (lo hi : ℕ) (k k' : Kernel) : Type 0 where
  pub inside : (i : ℕ) → lo ≤ i → i < hi → body (k'.proc i) ≡ body (woken chan (k.proc i))
  pub below : (i : ℕ) → i < lo → body (k'.proc i) ≡ body (k.proc i)
  pub above : (i : ℕ) → hi ≤ i → body (k'.proc i) ≡ body (k.proc i)
  pub cores : (c : ℕ) → (k'.cpu c).core_type ≡ (k.cpu c).core_type
  pub current : (c : ℕ) → (k'.cpu c).current ≡ (k.cpu c).current
  pub rest : record k' { proc = k.proc; cpu = k.cpu } ≡ k

-- The new state and queues of a wakeup that returns.
abbrev pub Wakes : (ℕ → Bool) → Chan → ℕ → ℕ → Kernel → (ℕ → List ℕ) → Option Kernel → Type 0
Wakes lost chan lo hi k qs o =
    (k' : Kernel) × (qs' : ℕ → List ℕ) × (o ≡ some k')
    × IsReady lost k' qs'
    × Extends qs qs'
    × Woken chan lo hi k k'

wake_one_lem :
    {lost : ℕ → Bool} {k : Kernel} {qs : ℕ → List ℕ}
    → IsReady lost k qs
    → (chan : Chan) (i : ℕ) → i < nproc
    → Wakes lost chan i (i + 1) k qs (wake_one k chan i)
unfolding wake_one make_runnable
wake_one_lem {lost} {k} {qs} r chan i lt = go (waits_on (k.proc i) chan) refl
  where
    go :
        (t : Bool)
        → waits_on (k.proc i) chan ≡ t
        → Wakes lost chan i (i + 1) k qs (wake_one k chan i)
    go true h =
        let c = get_least_loaded_e_core (set_state k i runnable) in
        let (k', e, r', s) = join_lem r c i lt (λ q. ground arith) in
        (
          k',
          update qs c (qs c ++ i ∷ []),
          ground (arith, e),
          r',
          λ d. (if c == d then i ∷ [] else [], ground (arith, append-nil (qs d))),
          record {
            inside = λ j l u. let e : j ≡ i = omega arith in rw e (ground (arith, s.procs i));
            below = λ j l. ground (arith, s.procs j);
            above = λ j l. ground (arith, s.procs j);
            cores = s.cores;
            current = s.current;
            rest = ground (arith, s.rest);
          },
        )
    go false h = (
      k,
      qs,
      ground arith,
      r,
      λ d. ([], sym (append-nil (qs d))),
      record {
        inside = λ j l u. let e : j ≡ i = omega arith in rw e (ground arith);
        below = λ j l. refl;
        above = λ j l. refl;
        cores = λ c. refl;
        current = λ c. refl;
        rest = refl;
      },
    )

Woken-trans :
    {chan : Chan} {lo mid hi : ℕ} {a b c : Kernel}
    → lo ≤ mid
    → mid ≤ hi
    → Woken chan lo mid a b
    → Woken chan mid hi b c
    → Woken chan lo hi a c
Woken-trans {mid = mid} p q s t = record {
  inside = λ i l u. elim (Bool-cases (ltb i mid)) [
    | inl h ↦ t.below i (ground arith) ∙ s.inside i l (ground arith)
    | inr h ↦ ground (arith, s.above i, t.inside i)
  ];
  below = λ i l. t.below i (omega arith) ∙ s.below i l;
  above = λ i l. t.above i l ∙ s.above i (omega arith);
  cores = λ d. t.cores d ∙ s.cores d;
  current = λ d. t.current d ∙ s.current d;
  rest = ground (arith, s.rest, t.rest);
}

wake_from_lem :
    (n i j : ℕ) (chan : Chan) (lost : ℕ → Bool) (k : Kernel) (qs : ℕ → List ℕ)
    → i + n ≡ j
    → j ≤ nproc
    → IsReady lost k qs
    → Wakes lost chan i j k qs (wake_from n i chan k)
unfolding wake_from
wake_from_lem zero i j chan lost k qs e h r = (
  k,
  qs,
  refl,
  r,
  λ d. ([], sym (append-nil (qs d))),
  record {
    inside = λ m l u. absurd (omega arith);
    below = λ m l. refl;
    above = λ m l. refl;
    cores = λ c. refl;
    current = λ c. refl;
    rest = refl;
  },
)
wake_from_lem (suc n) i j chan lost k qs e h r =
    let (k1, q1, e1, r1, x1, w1) = wake_one_lem r chan i (omega arith) in
    let (k2, q2, e2, r2, x2, w2) = wake_from_lem n (i + 1) j chan lost k1 q1 (omega arith) h r1 in
    (
      k2,
      q2,
      ground (arith, e1, e2),
      r2,
      Extends-trans qs q1 q2 x1 x2,
      Woken-trans (omega arith) (omega arith) w1 w2,
    )

-- Under the scheduler's invariant `wakeup1` always returns and keeps the invariant. Just the
-- processes of the table that sleep on the channel become RUNNABLE; every queue keeps its sequence
-- and grows at its end at most; but for links, queue heads and counters all else is unchanged.
pub wakeup1_lem :
    {lost : ℕ → Bool} {k : Kernel} {qs : ℕ → List ℕ}
    → IsReady lost k qs
    → (chan : Chan)
    → (k' : Kernel) × (qs' : ℕ → List ℕ) × (wakeup1 k chan ≡ some k')
      × IsReady lost k' qs'
      × Extends qs qs'
      × Woken chan 0 nproc k k'
unfolding wakeup1
wakeup1_lem {lost} {k} {qs} r chan =
    wake_from_lem nproc 0 nproc chan lost k qs (omega arith) (omega arith) r
