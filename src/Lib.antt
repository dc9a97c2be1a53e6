-- ===== src/Lib.antt =====
-- A model of the kernel in xv6-public/, a version of xv6 for a machine with efficiency cores and
-- performance cores, and theorems about it.
--
-- The parts, and the files that model them:
--   xv6-public/proc.c, proc.h   Kernel (cpus and ptable as functions from indices), RunQueue (enqueue,
--                               dequeue), Cores (get_least_loaded_e_core, get_lightest_p_core), Balance
--                               (load_balance), Schedule (the loop of scheduler), Wakeup (yield, sleep,
--                               wakeup1, kill), Process (allocproc, fork, exit, wait)
--                               Report (collect_process_family, start_measure, end_measure)
--   xv6-public/string.c         Memory, Directory (strncmp, strncpy)
--   xv6-public/pipe.c           Pipe
--   xv6-public/kalloc.c         Pages
--   xv6-public/bio.c            Buffers
--   xv6-public/log.c            Log
--   xv6-public/file.c           Files (the reference counts)
--   xv6-public/sleeplock.c      Locks.SleepLock
--   xv6-public/rwlock.c         Locks.RwLock
--   xv6-public/spinlock.c       Locks.PriorityLock (plock_acquire, plock_release),
--                               Locks.Interrupts (pushcli, popcli)
--   xv6-public/console.c        Console (the editor's state, redraw_line), Console.Words, Console.Selection
--                               and Console.Keys (consoleintr), Console.Read (consoleread), Console.Line
--                               (the line as lists), Format (printint, cprintf, and atoi of
--                               xv6-public/ulib.c)
--   xv6-public/syscall.c        Arguments (fetchint, fetchstr, argint, argptr, argstr)
--   xv6-public/trap.c           Timer (the timer interrupt and the time slice)
--   xv6-public/fs.c             Blocks (balloc, bfree and the free map), Inodes (bmap, readi,
--                               writei), Directory (dirlookup, dirlink), Paths (skipelem, namex)
--   xv6-public/vm.c             PageTable (walkpgdir, mappages, uva2ka, copyout)
-- Prelude holds what they share. Tests runs the theorems on small inputs.
--
-- How they interact: scheduler, yield, wakeup1 and fork reach the run queues by enqueue and dequeue
-- alone, so the theorems above those two are about lists: `RunQueue.Invariant.Queues k qs` says that
-- the links of the kernel `k` spell the lists `qs`, one for each CPU. `Schedule.Ready.IsReady lost k qs`
-- adds that a process is RUNNABLE just if it is in a queue, or one of those that kill has lost.
-- `Process.System.Step` is one atomic section of one CPU, and `Process.System.Reach` a run; a fork is several
-- of its steps (Process.Forks).
--
-- The console meets its reader in the ring of `Input`: consoleintr advances `e` and, on Enter, `w`;
-- consoleread advances `r`. Console.Read.Handover joins the two. Arguments uses the memory of Memory.
-- Timer adds to the scheduler the interrupt that ends a process's turn: it calls wakeup1, exit and yield.
-- Blocks sees the disk through bread and log_write, which are reads and writes of a running transaction.
-- Inodes takes its blocks from Blocks, and Directory its entries from Inodes. PageTable takes its pages
-- from Pages and lies in the memory of Memory.
--
-- State. A pointer into cpus or ptable.proc is its index, and 0 is `none`. Each function that runs
-- under ptable.lock is one step; a function that sleeps is split there: what stands before sched is one
-- function and what stands after it another. The timer interrupt is one step up to its switch.
-- A machine integer is a native number below 2 ^ 32 with the wrap-around written out.
--
-- Bounds. A walk over a run queue is given NPROC rounds, and `none` means that they ran out. The queues
-- hold distinct processes of the table, so no walk runs out. strlen has fuel, which is enough
-- if it is more than the bytes before the NUL (Memory.Text). The cursor's moves by words have as many
-- rounds as the line has places, put_digits as many as buf has bytes, and balloc one for each block
-- of the free map. namex has fuel, which is enough if it is more than the names of the path. The
-- loops of readi and writei have a round for each byte, and each round passes at least one; so has the
-- loop of copyout. dirlookup and dirlink have as many rounds as the directory has bytes, mappages more
-- than the range has pages.
--
-- Not modelled: hardware (devices, boot), user programs but for atoi, the inode cache and iupdate, of
-- vm.c the calls that make and free whole address spaces, exec, the table of system calls, spinning,
-- and of the console the screen, consolewrite and the completion by the shell.
pub mod Prelude
pub mod Kernel
pub mod RunQueue
pub mod Cores
pub mod Balance
pub mod Schedule
pub mod Wakeup
pub mod Process
pub mod Report
pub mod Memory
pub mod Pipe
pub mod Files
pub mod Buffers
pub mod Pages
pub mod Log
pub mod Locks
pub mod Console
pub mod Arguments
pub mod Timer
pub mod Format
pub mod Blocks
pub mod Inodes
pub mod Paths
pub mod Directory
pub mod PageTable
mod Tests
