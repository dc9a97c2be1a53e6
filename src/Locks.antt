-- ===== src/Locks.antt =====
-- The locks of sleeplock.c, rwlock.c and spinlock.c (the priority lock) at which a thread sleeps. Their
-- calls run under a spinlock, so a part of a call between two sleeps is one step. Interrupts has the
-- nesting of sections without interrupts, on which spinlocks rest.
pub mod Interrupts
pub mod Threads
pub mod SleepLock
pub mod RwLock
pub mod PriorityLock
