-- ===== src/Kernel.antt =====
-- The kernel's shared tables: proc.h (struct proc, struct cpu), param.h (NPROC, NCPU), the globals
-- of proc.c and the counters of trap.c. A pointer to a process is its index in `ptable.proc`, a
-- pointer to a CPU its index in `cpus`, and the null pointer is `none`.
use os_ca.Prelude.{ℕ, Bool, Option, none, some, false, true, ◌==◌, update}

pub data ProcState : Type 0 where
  unused embryo sleeping runnable running zombie : ProcState

-- The numbers that C gives to the constants of `enum procstate`.
abbrev pub state_code : ProcState → ℕ
state_code unused = 0
state_code embryo = 1
state_code sleeping = 2
state_code runnable = 3
state_code running = 4
state_code zombie = 5

abbrev pub in_state : ProcState → ProcState → Bool
in_state s t = state_code s == state_code t

-- A wait channel is an address: null, that of a process, or that of another kernel object.
pub data Chan : Type 0 where
  null : Chan
  of_proc : ℕ → Chan
  address : ℕ → Chan

abbrev pub same_chan : Chan → Chan → Bool
same_chan null null = true
same_chan (of_proc i) (of_proc j) = i == j
same_chan (address i) (address j) = i == j
same_chan _ _ = false

-- A pointer to a process, used as a channel.
abbrev pub proc_chan : Option ℕ → Chan
proc_chan none = null
proc_chan (some i) = of_proc i

pub data CoreType : Type 0 where
  core_e core_p : CoreType

abbrev pub is_e : CoreType → Bool
is_e core_e = true
is_e core_p = false

-- `struct proc` without the saved registers. `int` and `uint` fields hold 32-bit patterns.
pub record Proc : Type 0 where
  pub sz : ℕ
  pub pgdir : Option ℕ
  pub kstack : Option ℕ
  pub state : ProcState
  pub pid : ℕ
  pub parent : Option ℕ
  pub chan : Chan
  pub killed : Bool
  pub ctime : ℕ
  pub slice_ticks : ℕ
  pub etime : ℕ
  pub next_run : Option ℕ

-- The fields of `struct cpu` that scheduling reads.
pub record Cpu : Type 0 where
  pub current : Option ℕ
  pub core_type : CoreType
  pub runq : Option ℕ
  pub queue_count : ℕ

pub record Kernel : Type 0 where
  pub proc : ℕ → Proc
  pub cpu : ℕ → Cpu
  pub ncpu : ℕ
  pub ticks : ℕ
  pub nextpid : ℕ
  pub initproc : ℕ
  pub metrics_active : Bool
  pub metrics_start_tick : ℕ
  pub metrics_proc_completed : ℕ

abbrev pub nproc : ℕ
nproc = 64

abbrev pub set_proc : Kernel → ℕ → Proc → Kernel
set_proc k i p = record k { proc = update k.proc i p }

abbrev pub set_cpu : Kernel → ℕ → Cpu → Kernel
set_cpu k c x = record k { cpu = update k.cpu c x }

-- `cpus[c].queue_count` and the like are read through the kernel's tables.
abbrev pub set_next : (ℕ → Proc) → ℕ → Option ℕ → ℕ → Proc
set_next ps i n = update ps i (record (ps i) { next_run = n })

abbrev pub set_state : Kernel → ℕ → ProcState → Kernel
set_state k i s = set_proc k i (record (k.proc i) { state = s })
