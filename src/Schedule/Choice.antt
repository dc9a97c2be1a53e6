-- ===== src/Schedule/Choice.antt =====
-- What the two selection loops of scheduler() (proc.c) choose from the sequence of a queue.
use os_ca.Prelude.{
  ℕ, zero, suc, ◌<◌, ◌≤◌, ◌≡◌, refl, Bool, true, false, ◌&&◌, Option, none, some, List, [], ◌∷◌,
  ◌++◌, arith, length, contains, contains-append, if◌then◌else◌, Bool-cases, inl, inr,
}
use mathlib.Core.List.{append_assoc, append-nil}
use os_ca.Kernel.{Proc}
use os_ca.RunQueue.Links.{Links}
use os_ca.Schedule.{choose_rr, choose_fcfs, is_runnable, is_older}

-- No RUNNABLE process in the sequence.
abbrev pub Idle : (ℕ → Proc) → List ℕ → Type 0
Idle ps q = (i : ℕ) → contains i q ≡ true → is_runnable (ps i) ≡ false

-- `p` is the first RUNNABLE process of the sequence.
pub record IsFirst (ps : ℕ → Proc) (q : List ℕ) (p : ℕ) : Type 0 where
  pub before : List ℕ
  pub after : List ℕ
  pub split : q ≡ before ++ p ∷ after
  pub runs : is_runnable (ps p) ≡ true
  pub skipped : Idle ps before

-- `p` is the RUNNABLE process of the sequence with the least ctime, and the first of several.
pub record IsOldest (ps : ℕ → Proc) (q : List ℕ) (p : ℕ) : Type 0 where
  pub before : List ℕ
  pub after : List ℕ
  pub split : q ≡ before ++ p ∷ after
  pub runs : is_runnable (ps p) ≡ true
  pub earlier :
      (i : ℕ) → contains i before ≡ true → is_runnable (ps i) ≡ true → (ps p).ctime < (ps i).ctime
  pub later :
      (i : ℕ) → contains i after ≡ true → is_runnable (ps i) ≡ true → (ps p).ctime ≤ (ps i).ctime

abbrev pub Chosen : ((ℕ → Proc) → List ℕ → ℕ → Type 0) → (ℕ → Proc) → List ℕ → Option ℕ → Type 0
Chosen P ps q none = Idle ps q
Chosen P ps q (some p) = P ps q p

module _ (ps : ℕ → Proc) where
  pub choose_rr_lem :
      (fuel : ℕ) (start : Option ℕ) (q : List ℕ)
      → length q < fuel
      → Links ps start q
      → (o : Option ℕ) × (choose_rr fuel ps start ≡ some o) × Chosen IsFirst ps q o
  unfolding choose_rr
  choose_rr_lem zero start q h l = absurd (ground arith)
  choose_rr_lem (suc fuel) start [] h l = (none, ground arith, λ i m. absurd (ground arith))
  choose_rr_lem (suc fuel) start (i ∷ q) h l = elim (Bool-cases (is_runnable (ps i))) [
    | inl t ↦ (
      some i,
      ground arith,
      record {
        before = [];
        after = q;
        split = refl;
        runs = t;
        skipped = λ j m. absurd (ground arith);
      },
    )
    | inr f ↦ let r = choose_rr_lem fuel (ps i).next_run q (ground arith) l.1 in go f r.0 r.1 r.2
  ]
    where
      go :
          is_runnable (ps i) ≡ false
          → (o : Option ℕ) → choose_rr fuel ps (ps i).next_run ≡ some o
          → Chosen IsFirst ps q o
          → (o : Option ℕ) × (choose_rr (suc fuel) ps start ≡ some o) × Chosen IsFirst ps (i ∷ q) o
      go f none e idle = (none, ground arith, λ j m. ground (arith, idle j))
      go f (some p) e first = (
        some p,
        ground arith,
        record {
          before = i ∷ first.before;
          after = first.after;
          split = ground (arith, first.split);
          runs = first.runs;
          skipped = λ j m. ground (arith, first.skipped j);
        },
      )

  step-Chosen :
      (i : ℕ) (seen : List ℕ) (oldest : Option ℕ) (t : Bool)
      → (is_runnable (ps i) && is_older ps i oldest) ≡ t
      → Chosen IsOldest ps seen oldest
      → Chosen IsOldest ps (seen ++ i ∷ []) (if t then some i else oldest)
  step-Chosen i seen none true h idle = record {
    before = seen;
    after = [];
    split = refl;
    runs = ground arith;
    earlier = λ j m r. absurd (ground (arith, idle j));
    later = λ j m r. absurd (ground arith);
  }
  step-Chosen i seen none false h idle =
      λ j m. ground (arith, idle j, contains-append j seen (i ∷ []))
  step-Chosen i seen (some p) true h o = record {
    before = seen;
    after = [];
    split = refl;
    runs = ground arith;
    earlier = λ j m r.
        ground
          (arith, h, o.split, contains-append j o.before (p ∷ o.after), o.earlier j, o.later j);
    later = λ j m r. absurd (ground arith);
  }
  step-Chosen i seen (some p) false h o = record {
    before = o.before;
    after = o.after ++ i ∷ [];
    split = rw (o.split) (append_assoc o.before (p ∷ o.after) (i ∷ []));
    runs = o.runs;
    earlier = o.earlier;
    later = λ j m r. ground (arith, h, contains-append j o.after (i ∷ []), o.later j);
  }

  pub choose_fcfs_lem :
      (fuel : ℕ) (start oldest : Option ℕ) (seen q : List ℕ)
      → length q < fuel
      → Links ps start q
      → Chosen IsOldest ps seen oldest
      → (o : Option ℕ) × (choose_fcfs fuel ps start oldest ≡ some o)
        × Chosen IsOldest ps (seen ++ q) o
  unfolding choose_fcfs
  choose_fcfs_lem zero start oldest seen q h l c = absurd (ground arith)
  choose_fcfs_lem (suc fuel) start oldest seen [] h l c =
      (oldest, ground arith, rw (append-nil seen) c)
  choose_fcfs_lem (suc fuel) start oldest seen (i ∷ q) h l c =
      let t = is_runnable (ps i) && is_older ps i oldest in
      let (o, e, r) =
        choose_fcfs_lem fuel (ps i).next_run (if t then some i else oldest) (seen ++ i ∷ []) q
          (ground arith) l.1 (step-Chosen i seen oldest t refl c) in
      (o, ground arith, rw (append_assoc seen (i ∷ []) q) at r)
