-- ===== src/Report/Family.antt =====
-- Which pids collect_process_family (proc.c) reports.
use os_ca.Prelude.{
  ℕ, zero, suc, ◌+◌, ◌-◌, ◌<◌, ◌≤◌, ◌≡◌, refl, ap, ◌∙◌, ◌≢◌, Bool, true, false, ◌&&◌, Option, none,
  some, List, [], ◌∷◌, arith, length, if◌then◌else◌, ◌==◌, ltb, update, Bool-cases, inl, inr,
  get_or, leb,
}
use os_ca.Kernel.{Kernel, nproc}
use os_ca.Report.{
  is_live, find_target, list_pids, is_child_of, is_sibling_of, FamilyReport, list_siblings,
  parent_pid, at_most, report_on, collect_process_family,
}

-- The pids of the live entries that are wanted, in the order of the table.
abbrev pub pids : (ℕ → Bool) → ℕ → ℕ → Kernel → List ℕ
pids wanted zero i k = []
pids wanted (suc n) i k =
    if is_live k i && wanted i
    then (k.proc i).pid ∷ pids wanted n (i + 1) k
    else pids wanted n (i + 1) k

-- The array `out` with `xs` written from place `n` on, as far as there is place for it.
abbrev pub written : ℕ → ℕ → (ℕ → ℕ) → List ℕ → ℕ → ℕ
written n max out xs j =
    if leb n j && ltb j max && ltb j (n + length xs) then get_or xs (j - n) 0 else out j

written-cons :
    (n max : ℕ) (out : ℕ → ℕ) (x : ℕ) (xs : List ℕ) (j : ℕ)
    → written (n + 1) max (if ltb n max then update out n x else out) xs j
      ≡ written n max out (x ∷ xs) j
written-cons n max out x xs j = elim (Bool-cases (leb (n + 1) j)) [
  | inl t ↦ let e : j - n ≡ suc (j - (n + 1)) = ground arith in rw e (ground arith)
  | inr f ↦ elim (Bool-cases (n == j)) [
    | inl t ↦ let e : j - n ≡ 0 = ground arith in rw e (ground arith)
    | inr g ↦ ground arith
  ]
]

list_pids-cons :
    (wanted : ℕ → Bool) (rounds i : ℕ) (k : Kernel) (max : ℕ) (out : ℕ → ℕ) (n : ℕ) (b : Bool)
    → (is_live k i && wanted i) ≡ b
    → list_pids wanted (suc rounds) i k max out n
      ≡ list_pids wanted rounds
          (i + 1)
          k
          max
          (if b && ltb n max then update out n (k.proc i).pid else out)
          (if b then n + 1 else n)
unfolding list_pids
list_pids-cons wanted rounds i k max out n b h =
    ap
      (λ (b : Bool).
        list_pids wanted rounds (i + 1) k max
          (if b && ltb n max then update out n (k.proc i).pid else out) (if b then n + 1 else n))
      h

list_pids_lem :
    (wanted : ℕ → Bool) (rounds i : ℕ) (k : Kernel) (max : ℕ) (out : ℕ → ℕ) (n : ℕ)
    → ((list_pids wanted rounds i k max out n).1 ≡ n + length (pids wanted rounds i k))
      × ((j : ℕ)
          → (list_pids wanted rounds i k max out n).0 j
            ≡ written n max out (pids wanted rounds i k) j)
unfolding list_pids
list_pids_lem wanted zero i k max out n = (omega arith, λ j. ground arith)
list_pids_lem wanted (suc rounds) i k max out n = elim (Bool-cases (is_live k i && wanted i)) [
  | inl t ↦
      let out' = if ltb n max then update out n (k.proc i).pid else out in
      let (a, b) = list_pids_lem wanted rounds (i + 1) k max out' (n + 1) in
      rw (list_pids-cons wanted rounds i k max out n true t, t)
        (
          a ∙ omega arith,
          λ j. b j ∙ written-cons n max out (k.proc i).pid (pids wanted rounds (i + 1) k) j,
        )
  | inr f ↦
      rw (list_pids-cons wanted rounds i k max out n false f, f)
        (list_pids_lem wanted rounds (i + 1) k max out n)
]

-- What the search from entry `lo` on and below `hi` finds: the first live entry with the pid.
unfoldable FoundTarget : Kernel → ℕ → ℕ → ℕ → Option ℕ → Type 0
FoundTarget k pid lo hi none = (i : ℕ) → lo ≤ i → i < hi → is_live k i ≡ true → (k.proc i).pid ≢ pid
FoundTarget k pid lo hi (some t) =
    (lo ≤ t)
    × (t < hi)
    × (is_live k t ≡ true)
    × ((k.proc t).pid ≡ pid)
    × ((i : ℕ) → lo ≤ i → i < t → is_live k i ≡ true → (k.proc i).pid ≢ pid)

further :
    (k : Kernel) (pid lo hi : ℕ) (r : Option ℕ)
    → lo < hi
    → (is_live k lo && ((k.proc lo).pid == pid)) ≡ false
    → FoundTarget k pid (lo + 1) hi r
    → FoundTarget k pid lo hi r
unfolding FoundTarget
further k pid lo hi none l f g =
    λ i a b c. elim (Bool-cases (i == lo)) [ inl t ↦ ground arith | inr t ↦ g i (ground arith) b c ]
further k pid lo hi (some t) l f (a, b, c, d, g) = (
  omega arith,
  b,
  c,
  d,
  λ i u v w. elim (Bool-cases (i == lo)) [ inl e ↦ ground arith | inr e ↦ g i (ground arith) v w ],
)

find_target_lem :
    (n lo hi pid : ℕ) (k : Kernel) → n + lo ≡ hi → FoundTarget k pid lo hi (find_target n lo pid k)
unfolding find_target FoundTarget
find_target_lem zero lo hi pid k e = λ i a b c. absurd (omega arith)
find_target_lem (suc n) lo hi pid k e =
    elim (Bool-cases (is_live k lo && ((k.proc lo).pid == pid))) [
      | inl t ↦
          rw t (omega arith, omega arith, ground arith, ground arith, λ i a b. absurd (omega arith))
      | inr f ↦ rw f (
          further k pid lo hi _ (omega arith) f (find_target_lem n (lo + 1) hi pid k (omega arith)))
    ]

abbrev pub child_list : Kernel → ℕ → List ℕ
child_list k t = pids (is_child_of k t) nproc 0 k

abbrev pub sibling_list : Kernel → ℕ → Option ℕ → List ℕ
sibling_list k t none = []
sibling_list k t (some parent) = pids (is_sibling_of k t parent) nproc 0 k

list_siblings_lem :
    (k : Kernel) (t : ℕ) (parent : Option ℕ) (max : ℕ) (out : ℕ → ℕ)
    → ((list_siblings k t parent max out).1 ≡ length (sibling_list k t parent))
      × ((j : ℕ)
          → (list_siblings k t parent max out).0 j ≡ written 0 max out (sibling_list k t parent) j)
unfolding list_siblings
list_siblings_lem k t none max out = (refl, λ j. ground arith)
list_siblings_lem k t (some parent) max out =
    let (a, b) = list_pids_lem (is_sibling_of k t parent) nproc 0 k max out 0 in
    (a ∙ omega arith, b)

-- What the report says of the entry `t`.
pub record IsReportOn (k : Kernel) (t max_child : ℕ) (children : ℕ → ℕ) (max_sib : ℕ)
    (siblings : ℕ → ℕ) (r : FamilyReport) : Type 0 where
  pub parents : r.ppid ≡ parent_pid k (k.proc t).parent
  pub child_count : r.num_child ≡ at_most max_child (length (child_list k t))
  pub child_array : (j : ℕ) → r.child_pids j ≡ written 0 max_child children (child_list k t) j
  pub sib_count : r.num_sib ≡ at_most max_sib (length (sibling_list k t (k.proc t).parent))
  pub sib_array :
      (j : ℕ) → r.sib_pids j ≡ written 0 max_sib siblings (sibling_list k t (k.proc t).parent) j

pub Collected : Kernel → ℕ → ℕ → (ℕ → ℕ) → ℕ → (ℕ → ℕ) → Option FamilyReport → Type 0
Collected k pid max_child children max_sib siblings none =
    (i : ℕ) → i < nproc → is_live k i ≡ true → (k.proc i).pid ≢ pid
Collected k pid max_child children max_sib siblings (some r) =
    (t : ℕ) × (t < nproc)
    × (is_live k t ≡ true)
    × ((k.proc t).pid ≡ pid)
    × IsReportOn k t max_child children max_sib siblings r

-- collect_process_family returns -1 just if no live entry of the table has the pid. Otherwise it
-- reports on such an entry: its parent's pid, and in the two arrays the pids of its live children and
-- of the other live children of its parent, in the order of the table and as many as the arrays have
-- place for, with these numbers; it writes nothing else into the arrays.
pub collect_process_family_lem :
    (k : Kernel) (pid max_child : ℕ) (children : ℕ → ℕ) (max_sib : ℕ) (siblings : ℕ → ℕ)
    → Collected k pid max_child children max_sib siblings
        (collect_process_family k pid max_child children max_sib siblings)
unfolding collect_process_family report_on Collected FoundTarget
collect_process_family_lem k pid max_child children max_sib siblings =
    go (find_target nproc 0 pid k) (find_target_lem nproc 0 nproc pid k refl)
  where
    go :
        (o : Option ℕ)
        → FoundTarget k pid 0 nproc o
        → Collected k pid max_child children max_sib siblings (elim o [
          | none ↦ none
          | some target ↦ some (report_on k target max_child children max_sib siblings)
        ])
    go none f = λ i l. f i (omega arith) l
    go (some t) (a, b, c, d, g) =
        let (n, w) = list_pids_lem (is_child_of k t) nproc 0 k max_child children 0 in
        let (n', w') = list_siblings_lem k t (k.proc t).parent max_sib siblings in
        (
          t,
          b,
          c,
          d,
          record {
            parents = refl;
            child_count = ap (at_most max_child) (n ∙ omega arith);
            child_array = w;
            sib_count = ap (at_most max_sib) n';
            sib_array = w';
          },
        )
