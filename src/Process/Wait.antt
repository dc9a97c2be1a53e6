-- ===== src/Process/Wait.antt =====
-- wait (proc.c): which child it reaps, and when it returns -1 or sleeps.
use os_ca.Prelude.{
  either, none, ◌≢◌, ℕ, zero, suc, ◌+◌, ◌<◌, ◌≤◌, ◌≡◌, refl, ◌⊎◌, Bool, true, false, ◌&&◌, arith,
  if◌then◌else◌, ◌==◌, Bool-cases, inl, inr, points_to,
}
use os_ca.Kernel.{Kernel, of_proc, in_state, zombie, unused, nproc}
use os_ca.Wakeup.{fall_asleep}
use os_ca.Process.{
  Scan, found_zombie, found_none, scan, reap, WaitResult, reaped, no_child, asleep, wait_after,
  wait,
}

abbrev pub is_child : Kernel → ℕ → ℕ → Bool
is_child k me i = points_to (k.proc i).parent me

abbrev pub is_done : Kernel → ℕ → ℕ → Bool
is_done k me i = is_child k me i && in_state (k.proc i).state zombie

-- What the result of a scan from `lo` to below `hi` says.
unfoldable ScanFits : ℕ → ℕ → Kernel → ℕ → Bool → Scan → Type 0
ScanFits lo hi k me have (found_zombie j) =
    (lo ≤ j)
    × (j < hi)
    × (is_done k me j ≡ true)
    × ((m : ℕ) → lo ≤ m → m < j → is_done k me m ≡ false)
ScanFits lo hi k me have (found_none b) =
    ((m : ℕ) → lo ≤ m → m < hi → is_done k me m ≡ false)
    × (b ≡ true → (have ≡ true) ⊎ ((m : ℕ) × (m < hi) × (is_child k me m ≡ true)))
    × (b ≡ false → (have ≡ false) × ((m : ℕ) → lo ≤ m → m < hi → is_child k me m ≡ false))

-- A scan that goes on past `lo`.
goes_on :
    {lo hi : ℕ} (k : Kernel) (me : ℕ) (have : Bool) (r : Scan)
    → lo < hi
    → is_done k me lo ≡ false
    → ScanFits (lo + 1) hi k me (if is_child k me lo then true else have) r
    → ScanFits lo hi k me have r
unfolding ScanFits
goes_on {lo} {hi} k me have (found_zombie j) l d (a, b, c, f) = (
  omega arith,
  b,
  c,
  λ m h h'. elim (Bool-cases (m == lo)) [
    | inl t ↦ ground (arith, d)
    | inr t ↦ f m (ground arith) h'
  ],
)
goes_on {lo} {hi} k me have (found_none b) l d (f, g, g') = (
  λ m h h'. elim (Bool-cases (m == lo)) [
    | inl t ↦ ground (arith, d)
    | inr t ↦ f m (ground arith) h'
  ],
  λ e. elim (Bool-cases (is_child k me lo)) [
    | inl t ↦ inr (lo, l, t)
    | inr t ↦ elim (g e) [ inl u ↦ inl (ground arith) | inr u ↦ inr u ]
  ],
  λ e. (
    ground (arith, (g' e).0),
    λ m h h'. elim (Bool-cases (m == lo)) [
      | inl t ↦ ground (arith, (g' e).0)
      | inr t ↦ (g' e).1 m (ground arith) h'
    ],
  ),
)

scan_lem :
    (n lo : ℕ) {hi : ℕ} (me : ℕ) (k : Kernel) (have : Bool)
    → n + lo ≡ hi
    → ScanFits lo hi k me have (scan n lo me k have)
unfolding ScanFits scan
scan_lem zero lo me k have e =
    (λ m h h'. absurd (omega arith), λ b. inl b, λ b. (b, λ m h h'. absurd (omega arith)))
scan_lem (suc n) lo me k have e =
    either (ScanFits lo _ k me have) (is_done k me lo)
      (λ t. (omega arith, omega arith, t, λ m h h'. absurd (omega arith)))
      (λ t.
        goes_on k me have _ (omega arith) t
          (scan_lem n (lo + 1) me k (if is_child k me lo then true else have) (omega arith)))

-- The entry `i` is free; its other fields, the other entries and all outside the table are as before.
pub record Reaped (k : Kernel) (i : ℕ) (k' : Kernel) : Type 0 where
  pub state : (k'.proc i).state ≡ unused
  pub pid : (k'.proc i).pid ≡ 0
  pub parent : (k'.proc i).parent ≡ none
  pub kstack : (k'.proc i).kstack ≡ none
  pub killed : (k'.proc i).killed ≡ false
  pub kept :
      record (k'.proc i) {
        kstack = (k.proc i).kstack;
        pid = (k.proc i).pid;
        parent = (k.proc i).parent;
        killed = (k.proc i).killed;
        state = (k.proc i).state;
      }
      ≡ k.proc i
  pub others : (j : ℕ) → j ≢ i → k'.proc j ≡ k.proc j
  pub rest : record k' { proc = k.proc } ≡ k

reap-Reaped : (k : Kernel) (i : ℕ) → Reaped k i (reap k i)
reap-Reaped k i = record {
  state = ground arith;
  pid = ground arith;
  parent = ground arith;
  kstack = ground arith;
  killed = ground arith;
  kept = ground arith;
  others = λ j ne. ground arith;
  rest = refl;
}

-- What a pass of wait does for a table `k`.
pub WaitFits : Kernel → ℕ → WaitResult → Type 0
WaitFits k me (reaped pid k') =
    (i : ℕ) × (i < nproc)
    × (is_done k me i ≡ true)
    × ((m : ℕ) → m < i → is_done k me m ≡ false)
    × (pid ≡ (k.proc i).pid)
    × Reaped k i k'
WaitFits k me no_child =
    ((m : ℕ) → m < nproc → is_done k me m ≡ false)
    × (((m : ℕ) → m < nproc → is_child k me m ≡ false) ⊎ ((k.proc me).killed ≡ true))
WaitFits k me (asleep k') =
    ((m : ℕ) → m < nproc → is_done k me m ≡ false)
    × ((m : ℕ) × (m < nproc) × (is_child k me m ≡ true))
    × ((k.proc me).killed ≡ false)
    × (k' ≡ fall_asleep k me (of_proc me))

one_child : {P : Type 0} → (false ≡ true) ⊎ P → P
one_child (inl e) = absurd (ground arith)
one_child (inr w) = w

wait_after_lem :
    (k : Kernel) (me : ℕ) (r : Scan)
    → ScanFits 0 nproc k me false r
    → WaitFits k me (wait_after k me r)
unfolding ScanFits WaitFits wait_after
wait_after_lem k me (found_zombie i) (a, b, c, f) =
    (i, b, c, λ m h. f m (omega arith) h, refl, reap-Reaped k i)
wait_after_lem k me (found_none false) (f, g, g') =
    (λ m h. f m (omega arith) h, inl (λ m h. (g' refl).1 m (omega arith) h))
wait_after_lem k me (found_none true) (f, g, g') =
    either (WaitFits k me) (k.proc me).killed (λ t. (λ m h. f m (omega arith) h, inr t))
      (λ t. (λ m h. f m (omega arith) h, one_child (g refl), t, refl))

-- A pass of wait over the process table does one of three things. It returns the pid of the first
-- ZOMBIE child and frees that entry: its state is UNUSED, its pid, parent, stack and killed are cleared; or, when no child is a ZOMBIE, it returns -1 if the caller has no
-- child or is killed, and otherwise, with a live child and no kill pending, sleeps on the caller.
pub wait_lem : (k : Kernel) (me : ℕ) → WaitFits k me (wait k me)
unfolding wait
wait_lem k me = wait_after_lem k me _ (scan_lem nproc 0 me k false refl)
