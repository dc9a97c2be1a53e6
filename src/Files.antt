-- ===== src/Files.antt =====
-- The file table of file.c: allocation, sharing and closing by reference counts. A file is its index;
-- an inode's and a pipe's files differ in what the last close calls.
pub mod Counts
use os_ca.Prelude.{
  ℕ, zero, suc, ◌+◌, Bool, true, false, Option, none, some, if◌then◌else◌, ◌==◌, update, add32,
  sub32, slt32,
}

abbrev pub nfile : ℕ
nfile = 100

pub data FileType : Type 0 where
  fd_none fd_pipe fd_inode : FileType

pub record File : Type 0 where
  pub kind : FileType
  pub ref : ℕ
  pub readable : Bool
  pub writable : Bool
  pub pipe : ℕ
  pub inode : ℕ
  pub off : ℕ

abbrev pub FileTable : Type 0
FileTable = ℕ → File

-- The loop of filealloc with `n` rounds left from entry `i` on.
pub filealloc_from : ℕ → ℕ → FileTable → Option (ℕ × FileTable)
filealloc_from zero i t = none
filealloc_from (suc n) i t =
    let rest = filealloc_from n (i + 1) t in
    if (t i).ref == 0 then some (i, update t i (record (t i) { ref = 1 })) else rest

pub filealloc : FileTable → Option (ℕ × FileTable)
unfolding filealloc_from
filealloc t = filealloc_from nfile 0 t

-- `none` is a panic.
unfoldable pub filedup : FileTable → ℕ → Option FileTable
filedup t f =
    if slt32 (t f).ref 1 then none else some (update t f (record (t f) { ref = add32 (t f).ref 1 }))

-- What the last close does with the file: pipeclose, or iput in a transaction.
pub data Closing : Type 0 where
  nothing_more : Closing
  closes_pipe : ℕ → Bool → Closing
  puts_inode : ℕ → Closing

abbrev pub close_kind : File → Closing
close_kind ff = elim ff.kind [
  | fd_none ↦ nothing_more
  | fd_pipe ↦ closes_pipe ff.pipe ff.writable
  | fd_inode ↦ puts_inode ff.inode
]

-- `none` is a panic.
pub fileclose : FileTable → ℕ → Option (FileTable × Closing)
fileclose t f =
    if slt32 (t f).ref 1
    then none
    else if slt32 0 (sub32 (t f).ref 1)
    then some (update t f (record (t f) { ref = sub32 (t f).ref 1 }), nothing_more)
    else some (update t f (record (t f) { ref = 0; kind = fd_none }), close_kind (t f))
