-- ===== src/Cores/Choice.antt =====
-- Which CPU the two searches of proc.c return.
use os_ca.Prelude.{
  ℕ, zero, suc, ◌+◌, ◌<◌, ◌≤◌, ◌≡◌, refl, Bool, true, false, Option, none, some, arith, ◌&&◌, slt32,
  if◌then◌else◌, ◌==◌, inl, inr, Bool-cases,
}
use os_ca.Kernel.{Kernel, CoreType, is_e}
use os_ca.Cores.{lightest, int_max, get_least_loaded_e_core, get_lightest_p_core, is_p}

module _ (wanted : CoreType → Bool) (k : Kernel) where
  abbrev pub Fits : ℕ → Type 0
  Fits d = wanted (k.cpu d).core_type ≡ true

  -- `r` is the first of the wanted CPUs below `n` that has the least load, and `m` is that load.
  abbrev pub IsLightest : ℕ → Option ℕ → ℕ → Type 0
  IsLightest n none m = (m ≡ int_max) × ((d : ℕ) → d < n → Fits d → (k.cpu d).queue_count ≡ int_max)
  IsLightest n (some b) m =
      (b < n)
      × Fits b
      × ((k.cpu b).queue_count ≡ m)
      × ((d : ℕ) → d < n → Fits d → m ≤ (k.cpu d).queue_count)
      × ((d : ℕ) → d < b → Fits d → m < (k.cpu d).queue_count)

  step-IsLightest :
      (i : ℕ) (best : Option ℕ) (m : ℕ) (lighter : Bool)
      → m ≤ int_max
      → (k.cpu i).queue_count ≤ int_max
      → IsLightest i best m
      → (wanted (k.cpu i).core_type && slt32 (k.cpu i).queue_count m) ≡ lighter
      → IsLightest
          (i + 1)
          (if lighter then some i else best)
          (if lighter then (k.cpu i).queue_count else m)
  step-IsLightest i none m true hm hi inv t = (
    ground arith,
    ground arith,
    refl,
    λ d lt w. elim (Bool-cases (d == i)) [ inl e ↦ ground arith | inr e ↦ ground (arith, inv.1 d) ],
    λ d lt w. ground (arith, inv.1 d),
  )
  step-IsLightest i none m false hm hi inv t = (
    inv.0,
    λ d lt w. elim (Bool-cases (d == i)) [ inl e ↦ ground arith | inr e ↦ ground (arith, inv.1 d) ],
  )
  step-IsLightest i (some b) m true hm hi inv t = (
    ground arith,
    ground arith,
    refl,
    λ d lt w. elim (Bool-cases (d == i)) [ inl e ↦ ground arith | inr e ↦ ground (arith, inv.3 d) ],
    λ d lt w. ground (arith, inv.3 d),
  )
  step-IsLightest i (some b) m false hm hi inv t = (
    ground arith,
    inv.1,
    inv.2,
    λ d lt w. elim (Bool-cases (d == i)) [ inl e ↦ ground arith | inr e ↦ ground (arith, inv.3 d) ],
    inv.4,
  )

  -- With loads of at most INT_MAX the loop keeps its invariant up to CPU `i + n`.
  lightest-IsLightest :
      ((d : ℕ) → (k.cpu d).queue_count ≤ int_max)
      → (n i j : ℕ) (best : Option ℕ) (m : ℕ) → i + n ≡ j
      → m ≤ int_max
      → IsLightest i best m
      → (m' : ℕ) × IsLightest j (lightest wanted k n i best m) m'
  unfolding lightest
  lightest-IsLightest small zero i j best m e hm inv =
      (m, rw (← let e' : i ≡ j = omega arith in e') inv)
  lightest-IsLightest small (suc n) i j best m e hm inv =
      let lighter = wanted (k.cpu i).core_type && slt32 (k.cpu i).queue_count m in
      lightest-IsLightest small n (i + 1) j (if lighter then some i else best)
        (if lighter then (k.cpu i).queue_count else m) (omega arith) (ground (arith, small i))
        (step-IsLightest i best m lighter hm (small i) inv refl)

  pub lightest_lem :
      ((d : ℕ) → (k.cpu d).queue_count ≤ int_max)
      → (m : ℕ) × IsLightest k.ncpu (lightest wanted k k.ncpu 0 none int_max) m
  lightest_lem small =
      lightest-IsLightest small k.ncpu 0 k.ncpu none int_max (omega arith) (omega arith)
        (refl, λ d lt w. absurd (omega arith))

-- The CPU that `get_least_loaded_e_core` returns: if no CPU is an E-core, the first; otherwise an
-- E-core below `ncpu` that no E-core undercuts, and the first of those with its load.
pub record IsLeastE (k : Kernel) (c : ℕ) : Type 0 where
  pub none_e : ((d : ℕ) → d < k.ncpu → is_e (k.cpu d).core_type ≡ false) → c ≡ 0
  pub some_e :
      (e : ℕ)
      → e < k.ncpu
      → is_e (k.cpu e).core_type ≡ true
      → (c < k.ncpu)
        × (is_e (k.cpu c).core_type ≡ true)
        × ((k.cpu c).queue_count ≤ (k.cpu e).queue_count)
        × (e < c → (k.cpu c).queue_count < (k.cpu e).queue_count)

-- While every load is below INT_MAX, the search for an E-core returns the least loaded one, the
-- first of several, and CPU 0 where there is none.
pub get_least_loaded_e_core-IsLeastE :
    (k : Kernel)
    → ((d : ℕ) → (k.cpu d).queue_count < int_max)
    → IsLeastE k (get_least_loaded_e_core k)
unfolding get_least_loaded_e_core
get_least_loaded_e_core-IsLeastE k small =
    let r = lightest_lem is_e k (λ d. ground (arith, small d)) in
    go r.0 (lightest is_e k k.ncpu 0 none int_max) refl r.1
  where
    go :
        (m : ℕ) (r : Option ℕ)
        → lightest is_e k k.ncpu 0 none int_max ≡ r
        → IsLightest is_e k k.ncpu r m
        → IsLeastE k (get_least_loaded_e_core k)
    go m none e inv = record {
      none_e = λ _. rw (e, get_least_loaded_e_core) refl;
      some_e = λ d lt t. absurd (ground (arith, inv.1 d lt t, small d));
    }
    go m (some b) e inv =
        rw (e, get_least_loaded_e_core)
          (record {
            none_e = λ h. absurd (ground (arith, h b, inv.0, inv.1));
            some_e =
                λ d lt t. (inv.0, inv.1, ground (arith, inv.3 d), λ h. ground (arith, inv.4 d));
          })

-- While every load is below INT_MAX, the search for a P-core finds one if there is one: a P-core
-- below `ncpu` that no P-core undercuts.
pub get_lightest_p_core_lem :
    (k : Kernel)
    → ((d : ℕ) → (k.cpu d).queue_count < int_max)
    → (d : ℕ) → d < k.ncpu
    → is_p (k.cpu d).core_type ≡ true
    → (c : ℕ) × (get_lightest_p_core k ≡ some c)
      × (c < k.ncpu)
      × (is_p (k.cpu c).core_type ≡ true)
      × ((k.cpu c).queue_count ≤ (k.cpu d).queue_count)
unfolding get_lightest_p_core
get_lightest_p_core_lem k small d lt t =
    let r = lightest_lem is_p k (λ e. ground (arith, small e)) in
    go r.0 (lightest is_p k k.ncpu 0 none int_max) refl r.1
  where
    go :
        (m : ℕ) (r : Option ℕ)
        → lightest is_p k k.ncpu 0 none int_max ≡ r
        → IsLightest is_p k k.ncpu r m
        → (c : ℕ) × (get_lightest_p_core k ≡ some c)
          × (c < k.ncpu)
          × (is_p (k.cpu c).core_type ≡ true)
          × ((k.cpu c).queue_count ≤ (k.cpu d).queue_count)
    go m none e inv = absurd (ground (arith, inv.1 d lt t, small d))
    go m (some b) e inv = (b, e, inv.0, inv.1, ground (arith, inv.3 d))

-- What the search for a P-core returns is a P-core.
pub get_lightest_p_core-is_p :
    (k : Kernel)
    → ((d : ℕ) → (k.cpu d).queue_count < int_max)
    → (p : ℕ) → get_lightest_p_core k ≡ some p
    → is_p (k.cpu p).core_type ≡ true
unfolding get_lightest_p_core
get_lightest_p_core-is_p k small p h =
    let r = lightest_lem is_p k (λ d. ground (arith, small d)) in
    go r.0 (lightest is_p k k.ncpu 0 none int_max) h r.1
  where
    go :
        (m : ℕ) (r : Option ℕ)
        → r ≡ some p
        → IsLightest is_p k k.ncpu r m
        → is_p (k.cpu p).core_type ≡ true
    go m none e inv = absurd (ground arith)
    go m (some b) e inv = ground (arith, inv.1)

lightest-same :
    (wanted : CoreType → Bool) (k k' : Kernel) (n i : ℕ) (best : Option ℕ) (m : ℕ)
    → k'.cpu ≡ k.cpu
    → lightest wanted k' n i best m ≡ lightest wanted k n i best m
unfolding lightest
lightest-same wanted k k' zero i best m h = refl
lightest-same wanted k k' (suc n) i best m h = rw h (lightest-same wanted k k' n (i + 1) _ _ h)

-- The search looks at nothing but the CPUs.
pub get_least_loaded_e_core-same :
    (k k' : Kernel)
    → k'.cpu ≡ k.cpu
    → k'.ncpu ≡ k.ncpu
    → get_least_loaded_e_core k' ≡ get_least_loaded_e_core k
unfolding get_least_loaded_e_core
get_least_loaded_e_core-same k k' h n =
    ground (arith, n, lightest-same is_e k k' k'.ncpu 0 none int_max h)
