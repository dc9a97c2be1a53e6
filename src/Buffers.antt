-- ===== src/Buffers.antt =====
-- The buffer cache of bio.c. The links prev and next spell a list of the buffers, the most recently
-- used one first, which is the model's list; a buffer is its index. The part of each call that runs
-- under bcache.lock is modelled; the buffers' own locks are those of sleeplock.c.
pub mod Unique
use os_ca.Prelude.{
  ℕ, zero, suc, ◌+◌, Bool, true, false, ◌&&◌, not, Option, none, some, List, [], ◌∷◌, if◌then◌else◌,
  ◌==◌, update, add32, sub32, erase,
}

abbrev pub nbuf : ℕ
nbuf = 30

pub record Buf : Type 0 where
  pub dev : ℕ
  pub blockno : ℕ
  pub refcnt : ℕ
  pub valid : Bool
  pub dirty : Bool

pub record Bcache : Type 0 where
  pub buf : ℕ → Buf
  pub order : List ℕ

-- The list that binit makes of the first `n` buffers: each is put at the head.
abbrev pub linked : ℕ → List ℕ
linked zero = []
linked (suc n) = n ∷ linked n

abbrev pub binit : (ℕ → Buf) → Bcache
binit buf = record { buf = buf; order = linked nbuf }

abbrev pub has_block : Buf → ℕ → ℕ → Bool
has_block b dev blockno = (b.dev == dev) && (b.blockno == blockno)

-- The first loop of bget, from the head on.
pub find_cached : (ℕ → Buf) → List ℕ → ℕ → ℕ → Option ℕ
find_cached buf [] dev blockno = none
find_cached buf (b ∷ bs) dev blockno =
    let rest = find_cached buf bs dev blockno in
    if has_block (buf b) dev blockno then some b else rest

abbrev pub is_unused : Buf → Bool
is_unused b = (b.refcnt == 0) && not b.dirty

-- The second loop of bget, from the tail back.
pub find_unused_buf : (ℕ → Buf) → List ℕ → Option ℕ
find_unused_buf buf [] = none
find_unused_buf buf (b ∷ bs) = elim (find_unused_buf buf bs) [
  | some c ↦ some c
  | none ↦ if is_unused (buf b) then some b else none
]

abbrev pub share_buf : Bcache → ℕ → Bcache
share_buf c b = record c {
  buf = update c.buf b (record (c.buf b) { refcnt = add32 (c.buf b).refcnt 1 });
}

abbrev pub recycle : Bcache → ℕ → ℕ → ℕ → Bcache
recycle c b dev blockno = record c {
  buf =
      update c.buf b
        (record { dev = dev; blockno = blockno; refcnt = 1; valid = false; dirty = false });
}

-- `none` is the panic.
pub bget_uncached : Bcache → ℕ → ℕ → Option ℕ → Option (ℕ × Bcache)
bget_uncached c dev blockno none = none
bget_uncached c dev blockno (some b) = some (b, recycle c b dev blockno)

pub bget_after : Bcache → ℕ → ℕ → Option ℕ → Option (ℕ × Bcache)
unfolding find_unused_buf bget_uncached
bget_after c dev blockno (some b) = some (b, share_buf c b)
bget_after c dev blockno none = bget_uncached c dev blockno (find_unused_buf c.buf c.order)

pub bget : Bcache → ℕ → ℕ → Option (ℕ × Bcache)
unfolding find_cached bget_after
bget c dev blockno = bget_after c dev blockno (find_cached c.buf c.order dev blockno)

-- brelse once the buffer's lock is released.
pub brelse : Bcache → ℕ → Bcache
brelse c b =
    let refcnt = sub32 (c.buf b).refcnt 1 in
    record {
      buf = update c.buf b (record (c.buf b) { refcnt = refcnt });
      order = if refcnt == 0 then b ∷ erase b c.order else c.order;
    }
