-- ===== src/Report/Measure.antt =====
-- What end_measure (proc.c) reports of the exits since start_measure.
use os_ca.Prelude.{
  ℕ, ◌+◌, ◌*◌, ◌/◌, ◌^◌, ◌<◌, ◌≡◌, refl, true, false, none, some, List, [], ◌∷◌, arith, length,
  ◌==◌, sub32, mul32,
}
use os_ca.Kernel.{Kernel}
use os_ca.Process.{record_exit}
use os_ca.Report.{start_measure, end_measure}

-- The exits of some processes, the last in the list first, as exit records them.
abbrev pub exits : List ℕ → Kernel → Kernel
exits [] k = k
exits (p ∷ ps) k = record_exit (exits ps k) p

record Measured (n : ℕ) (k k' : Kernel) : Type 0 where
  active : k'.metrics_active ≡ true
  started : k'.metrics_start_tick ≡ k.ticks
  counted : k'.metrics_proc_completed ≡ n

exits-Measured :
    (ps : List ℕ) (k : Kernel)
    → length ps < 2 ^ 32
    → Measured (length ps) k (exits ps (start_measure k))
exits-Measured [] k h = record { active = refl; started = refl; counted = refl }
exits-Measured (p ∷ ps) k h =
    let v = exits-Measured ps k (omega arith) in
    record { active = v.active; started = v.started; counted = ground (arith, v.active, v.counted) }

-- A measure that is ended `d` ticks after it was started, with no overflow, reports `d`, the number of
-- the processes that have exited since, and a thousand times this number over `d`. After that, a
-- second end_measure reports nothing.
pub end_measure_lem :
    (k : Kernel) (ps : List ℕ) (d : ℕ)
    → k.ticks + d < 2 ^ 32
    → 0 < d
    → length ps * 1000 < 2 ^ 32
    → let (r, k') = end_measure (record (exits ps (start_measure k)) { ticks = k.ticks + d }) in
      (r ≡ some (record { duration = d; completed = length ps; throughput = length ps * 1000 / d }))
      × (end_measure k' ≡ (none, k'))
unfolding end_measure
end_measure_lem k ps d h p s =
    let v = exits-Measured ps k (omega arith) in
    let elapsed : sub32 (k.ticks + d) k.ticks ≡ d = omega arith in
    let product : mul32 (length ps) 1000 ≡ length ps * 1000 = omega arith in
    let positive : d == 0 ≡ false = ground arith in
    (rw (v.active, v.started, v.counted, elapsed, product, positive) refl, rw v.active refl)
