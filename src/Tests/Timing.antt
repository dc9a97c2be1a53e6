-- ===== src/Tests/Timing.antt =====
-- The theorems on the timer interrupt, on the small machine.
use os_ca.Prelude.{ℕ, ◌<◌, refl, true, some, arith, update}
use os_ca.Kernel.{Kernel, core_e}
use os_ca.Schedule.Ready.{IsReady}
use os_ca.Process.Change.{IsReady-same}
use os_ca.Timer.{rr_quantum_ticks, interrupts}
use os_ca.Timer.Slice.{Runs, Stays, Yields, time_slice}
use os_ca.Tests.Machine.{machine, queues, none_lost, machine-IsReady}

-- Process 5 runs on the CPU.
abbrev busy : ℕ → Kernel
busy c = record machine { cpu = update machine.cpu c (record (machine.cpu c) { current = some 5 }) }

busy-IsReady : (c : ℕ) → IsReady none_lost (busy c) queues
busy-IsReady c = IsReady-same machine-IsReady (busy c) refl (λ d. ground arith) (λ d. ground arith)

busy_e : Runs none_lost (busy 0) queues 0 5 0 core_e
busy_e = record {
  ready = busy-IsReady 0;
  current = refl;
  state = refl;
  alive = refl;
  slice = refl;
  core = refl;
  small = omega arith;
}

time_slice_example :
    ((m : ℕ)
      → m < rr_quantum_ticks
      → Stays none_lost 0 5 m core_e (interrupts m (busy 0) 0 99 true))
    × Yields none_lost 0 5 0 (interrupts rr_quantum_ticks (busy 0) 0 99 true)
time_slice_example = time_slice 99 true busy_e
