-- ===== src/Tests.antt =====
-- Concrete machines, memories and logs, and the theorems on them.
mod Machine
mod Scheduling
mod Storage
mod Sharing
mod Sleeping
mod Editing
mod Timing
mod Disk
mod Lookups
mod Content
mod Paging
