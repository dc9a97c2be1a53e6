-- ===== src/Buffers/Unique.antt =====
-- No block has two buffers in the cache of bio.c.
use os_ca.Prelude.{
  ℕ, ◌≡◌, refl, ap, sym, ◌∙◌, ◌≢◌, ◌⊎◌, true, false, Option, none, some, List, [], ◌∷◌, arith,
  contains, contains-erase, if◌then◌else◌, ◌==◌, Bool-cases, inl, inr,
}
use os_ca.Buffers.{
  Buf, Bcache, has_block, find_cached, is_unused, find_unused_buf, share_buf, recycle,
  bget_uncached, bget_after, bget, brelse,
}

-- Two buffers of the list that hold the same block of a device other than 0 are one. (A buffer that
-- has not been used has device 0.)
unfoldable pub IsUnique : Bcache → Type 0
IsUnique c =
    (i j : ℕ)
    → contains i c.order ≡ true
    → contains j c.order ≡ true
    → (c.buf i).dev ≡ (c.buf j).dev
    → (c.buf i).blockno ≡ (c.buf j).blockno
    → (c.buf i).dev ≢ 0
    → i ≡ j

pub IsUncached : Bcache → ℕ → ℕ → Type 0
IsUncached c dev blockno =
    (i : ℕ) → contains i c.order ≡ true → has_block (c.buf i) dev blockno ≡ false

FindsCached : (ℕ → Buf) → List ℕ → ℕ → ℕ → Option ℕ → Type 0
FindsCached buf bs dev blockno none =
    (i : ℕ) → contains i bs ≡ true → has_block (buf i) dev blockno ≡ false
FindsCached buf bs dev blockno (some b) =
    (contains b bs ≡ true) × (has_block (buf b) dev blockno ≡ true)

cached-cons :
    (buf : ℕ → Buf) (x : ℕ) (bs : List ℕ) (dev blockno : ℕ) (r : Option ℕ)
    → has_block (buf x) dev blockno ≡ false
    → FindsCached buf bs dev blockno r
    → FindsCached buf (x ∷ bs) dev blockno r
unfolding FindsCached
cached-cons buf x bs dev blockno none h f = λ i c. elim (Bool-cases (i == x)) [
  | inl e ↦ let q : i ≡ x = ground arith in ap (λ (y : ℕ). has_block (buf y) dev blockno) q ∙ h
  | inr e ↦ f i (ground arith)
]
cached-cons buf x bs dev blockno (some b) h (a, c) = (ground arith, c)

find_cached_lem :
    (buf : ℕ → Buf) (bs : List ℕ) (dev blockno : ℕ)
    → FindsCached buf bs dev blockno (find_cached buf bs dev blockno)
unfolding find_cached FindsCached
find_cached_lem buf [] dev blockno = λ i c. absurd (ground arith)
find_cached_lem buf (x ∷ bs) dev blockno = elim (Bool-cases (has_block (buf x) dev blockno)) [
  | inl h ↦ rw h (ground arith, h)
  | inr h ↦ rw h (cached-cons buf x bs dev blockno _ h (find_cached_lem buf bs dev blockno))
]

FindsUnused : (ℕ → Buf) → List ℕ → Option ℕ → Type 0
FindsUnused buf bs none = (i : ℕ) → contains i bs ≡ true → is_unused (buf i) ≡ false
FindsUnused buf bs (some b) = (contains b bs ≡ true) × (is_unused (buf b) ≡ true)

find_unused_buf_lem : (buf : ℕ → Buf) (bs : List ℕ) → FindsUnused buf bs (find_unused_buf buf bs)
unfolding find_unused_buf FindsUnused
find_unused_buf_lem buf [] = λ i c. absurd (ground arith)
find_unused_buf_lem buf (x ∷ bs) = go (find_unused_buf buf bs) (find_unused_buf_lem buf bs)
  where
    go :
        (r : Option ℕ)
        → FindsUnused buf bs r
        → FindsUnused buf
            (x ∷ bs)
            (elim r [ some c ↦ some c | none ↦ if is_unused (buf x) then some x else none ])
    go (some c) (a, b) = (ground arith, b)
    go none f = elim (Bool-cases (is_unused (buf x))) [
      | inl h ↦ rw h (ground arith, h)
      | inr h ↦ rw h (λ i c. elim (Bool-cases (i == x)) [
        | inl e ↦ let q : i ≡ x = ground arith in ap (λ (y : ℕ). is_unused (buf y)) q ∙ h
        | inr e ↦ f i (ground arith)
      ])
    ]

IsUnique-same :
    (c c' : Bcache)
    → ((i : ℕ) → ((c'.buf i).dev ≡ (c.buf i).dev) × ((c'.buf i).blockno ≡ (c.buf i).blockno))
    → ((i : ℕ) → contains i c'.order ≡ true → contains i c.order ≡ true)
    → IsUnique c
    → IsUnique c'
unfolding IsUnique
IsUnique-same c c' s o u i j m m' d b n =
    u i j (o i m) (o j m') (sym (s i).0 ∙ d ∙ (s j).0) (sym (s i).1 ∙ b ∙ (s j).1)
      (λ e. n ((s i).0 ∙ e))

recycle-IsUnique :
    (c : Bcache) (b dev blockno : ℕ)
    → ((i : ℕ) → contains i c.order ≡ true → has_block (c.buf i) dev blockno ≡ false)
    → IsUnique c
    → IsUnique (recycle c b dev blockno)
unfolding IsUnique
recycle-IsUnique c b dev blockno f u i j m m' d n z = elim (Bool-cases (i == b)) [
  | inl e ↦ ground (arith, f j m')
  | inr e ↦ elim (Bool-cases (j == b)) [
    | inl e' ↦ ground (arith, f i m)
    | inr e' ↦ u i j m m' (ground arith) (ground arith) (λ q. z (ground arith))
  ]
]

-- What bget may return.
pub Gets : Bcache → ℕ → ℕ → Option (ℕ × Bcache) → Type 0
Gets c dev blockno none =
    IsUncached c dev blockno × ((i : ℕ) → contains i c.order ≡ true → is_unused (c.buf i) ≡ false)
Gets c dev blockno (some (b, c')) =
    (contains b c.order ≡ true)
    × (has_block (c'.buf b) dev blockno ≡ true)
    × IsUnique c'
    × (c'.order ≡ c.order)
    × ((i : ℕ) → i ≢ b → c'.buf i ≡ c.buf i)
    × ((has_block (c.buf b) dev blockno ≡ true)
        ⊎ (IsUncached c dev blockno × (is_unused (c.buf b) ≡ true) × ((c'.buf b).valid ≡ false)))

-- From a cache in which no block has two buffers, `bget` for a device other than 0 returns the buffer
-- that holds the block, or, if there is none, an unused buffer, which then holds the block and is not
-- valid; no block has two buffers afterwards, and no other buffer changes. It panics just if no buffer
-- holds the block and none is unused.
pub bget_lem :
    (c : Bcache) (dev blockno : ℕ) → IsUnique c → dev ≢ 0 → Gets c dev blockno (bget c dev blockno)
unfolding Gets bget bget_after bget_uncached FindsCached FindsUnused IsUnique IsUncached
bget_lem c dev blockno u ne =
    go (find_cached c.buf c.order dev blockno) (find_cached_lem c.buf c.order dev blockno)
  where
    fresh :
        (r : Option ℕ)
        → ((i : ℕ) → contains i c.order ≡ true → has_block (c.buf i) dev blockno ≡ false)
        → FindsUnused c.buf c.order r
        → Gets c dev blockno (bget_uncached c dev blockno r)
    fresh none f g = (f, g)
    fresh (some b) f (m, e) = (
      m,
      ground arith,
      recycle-IsUnique c b dev blockno f u,
      refl,
      λ i n. ground arith,
      inr (f, e, ground arith),
    )

    go :
        (r : Option ℕ)
        → FindsCached c.buf c.order dev blockno r
        → Gets c dev blockno (bget_after c dev blockno r)
    go (some b) (m, h) = (
      m,
      ground (arith, h),
      IsUnique-same c (share_buf c b) (λ i. ground arith) (λ i h. h) u,
      refl,
      λ i n. ground arith,
      inl h,
    )
    go none f = fresh (find_unused_buf c.buf c.order) f (find_unused_buf_lem c.buf c.order)

-- `brelse` keeps that no block has two buffers.
pub brelse-IsUnique :
    (c : Bcache) (b : ℕ) → contains b c.order ≡ true → IsUnique c → IsUnique (brelse c b)
unfolding brelse
brelse-IsUnique c b m u =
    IsUnique-same c (brelse c b) (λ i. ground arith)
      (λ i h. ground (arith, contains-erase i b c.order, m)) u
