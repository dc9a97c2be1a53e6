-- ===== src/Log.antt =====
-- log.c: the reservation of log space by file-system calls, the log in memory, and the writes by
-- which a commit reaches the disk. The disk is three areas that do not meet: the log's header, its
-- data blocks and the home locations; a block's contents are one value.
pub mod Space
pub mod Install
pub mod Crash
use os_ca.Prelude.{
  ℕ, zero, suc, ◌+◌, ◌-◌, ◌*◌, Bool, true, false, ◌||◌, Option, none, some, List, [], ◌∷◌, ◌++◌,
  if◌then◌else◌, leb, ltb, ◌==◌, length, contains, update,
}

abbrev pub max_op_blocks : ℕ
max_op_blocks = 10

abbrev pub log_size : ℕ
log_size = 30

-- `struct log` without its lock; `blocks` is lh.block[0 .. lh.n).
pub record Log : Type 0 where
  pub size : ℕ
  pub outstanding : ℕ
  pub committing : Bool
  pub blocks : List ℕ

-- A pass of the loop of begin_op: it sleeps (`none`) or enters.
unfoldable pub begin_op : Log → Option Log
begin_op l =
    if l.committing || ltb log_size (length l.blocks + (l.outstanding + 1) * max_op_blocks)
    then none
    else some (record l { outstanding = l.outstanding + 1 })

-- The locked part of end_op; the Boolean is `do_commit`. `none` is a panic. The count is an int that
-- is positive while the caller's operation runs; at 0 the code would go on with -1, where the model
-- has a panic.
pub end_op : Log → Option (Log × Bool)
end_op l =
    if (l.outstanding == 0) || l.committing
    then none
    else if l.outstanding == 1
    then some (record l { outstanding = 0; committing = true }, true)
    else some (record l { outstanding = l.outstanding - 1 }, false)

-- What end_op does after commit().
pub end_commit : Log → Log
end_commit l = record l { committing = false }

-- `none` is a panic.
pub log_write : Log → ℕ → Option Log
log_write l b =
    if leb log_size (length l.blocks) || leb (l.size - 1) (length l.blocks) || (l.outstanding == 0)
    then none
    else some (if contains b l.blocks then l else record l { blocks = l.blocks ++ b ∷ [] })

pub record Disk : Type 0 where
  pub head : List ℕ
  pub slots : ℕ → ℕ
  pub home : ℕ → ℕ

-- One bwrite.
pub data Write : Type 0 where
  to_slot : ℕ → ℕ → Write
  to_head : List ℕ → Write
  to_home : ℕ → ℕ → Write

abbrev pub apply : Disk → Write → Disk
apply d (to_slot i v) = record d { slots = update d.slots i v }
apply d (to_head bs) = record d { head = bs }
apply d (to_home b v) = record d { home = update d.home b v }

abbrev pub apply_all : Disk → List Write → Disk
apply_all d [] = d
apply_all d (w ∷ ws) = apply_all (apply d w) ws

-- The loop of write_log from `tail` on: `cache` is what bread returns for a home block.
pub write_log : (ℕ → ℕ) → ℕ → List ℕ → List Write
write_log cache tail [] = []
write_log cache tail (b ∷ bs) = to_slot tail (cache b) ∷ write_log cache (tail + 1) bs

-- The loop of install_trans from `tail` on.
pub install_trans : (ℕ → ℕ) → ℕ → List ℕ → List Write
install_trans slots tail [] = []
install_trans slots tail (b ∷ bs) = to_home b (slots tail) ∷ install_trans slots (tail + 1) bs

-- `if (log.lh.n > 0)`: the writes of commit() in their order, from the disk `d`.
pub commit_blocks : (ℕ → ℕ) → Disk → List ℕ → List Write
commit_blocks cache d [] = []
commit_blocks cache d (b ∷ bs) =
    let logged = apply_all d (write_log cache 0 (b ∷ bs)) in
    write_log cache 0 (b ∷ bs)
    ++ (to_head (b ∷ bs) ∷ (install_trans logged.slots 0 (b ∷ bs) ++ (to_head [] ∷ [])))

-- The disk's writes, and the log in memory after them.
pub commit : Log → (ℕ → ℕ) → Disk → List Write × Log
unfolding commit_blocks write_log install_trans
commit l cache d = (commit_blocks cache d l.blocks, record l { blocks = [] })

-- recover_from_log on what a crash left.
pub recover_from_log : Disk → Disk
unfolding install_trans
recover_from_log d = apply (apply_all d (install_trans d.slots 0 d.head)) (to_head [])
