-- ===== src/Log/Space.antt =====
-- The space that begin_op (log.c) reserves for each operation is enough for what it logs.
use os_ca.Prelude.{
  ℕ, suc, ◌+◌, ◌*◌, ◌<◌, ◌≤◌, ◌≡◌, refl, subst, Bool, true, some, List, [], ◌∷◌, ◌++◌, arith,
  length, length-append, contains, contains-append, nodup, nodup-snoc, Bool-cases, inl, inr,
}
use os_ca.Log.{Log, begin_op, end_op, end_commit, log_write, max_op_blocks, log_size}

-- The running operations, each with the number of blocks that it may still log.
abbrev pub total : List ℕ → ℕ
total [] = 0
total (x ∷ xs) = x + total xs

-- What the calls of log.c do, for the operation at the front of the list `ops`; `rotate` lets another
-- operation be the front one.
pub data Step (l : Log) (ops : List ℕ) : Log → List ℕ → Type 0 where
  begins : {l' : Log} → begin_op l ≡ some l' → Step l ops l' (max_op_blocks ∷ ops)
  writes :
      {l' : Log} (b left : ℕ) (rest : List ℕ)
      → ops ≡ suc left ∷ rest
      → log_write l b ≡ some l'
      → Step l ops l' (left ∷ rest)
  ends :
      {l' : Log} (left : ℕ) (rest : List ℕ) (do_commit : Bool)
      → ops ≡ left ∷ rest
      → end_op l ≡ some (l', do_commit)
      → Step l ops l' rest
  commits : l.committing ≡ true → Step l ops (end_commit (record l { blocks = [] })) ops
  rotates : (op : ℕ) (rest : List ℕ) → ops ≡ op ∷ rest → Step l ops l (rest ++ op ∷ [])

pub record IsReserved (l : Log) (ops : List ℕ) : Type 0 where
  pub counted : l.outstanding ≡ length ops
  pub space : length l.blocks + total ops ≤ log_size
  pub alone : l.committing ≡ true → length ops ≡ 0
  pub distinct : nodup l.blocks ≡ true

total-append : (xs ys : List ℕ) → total (xs ++ ys) ≡ total xs + total ys
total-append [] ys = omega arith
total-append (x ∷ xs) ys = omega (arith, total-append xs ys)

-- Every operation still holds at most what it began with.
abbrev pub AllSmall : List ℕ → Type 0
AllSmall [] = Unit
AllSmall (x ∷ xs) = (x ≤ max_op_blocks) × AllSmall xs

AllSmall-append : (xs : List ℕ) (y : ℕ) → AllSmall xs → y ≤ max_op_blocks → AllSmall (xs ++ y ∷ [])
AllSmall-append [] y a h = (h, tt)
AllSmall-append (x ∷ xs) y a h = (a.0, AllSmall-append xs y a.1 h)

total-le : (xs : List ℕ) → AllSmall xs → total xs ≤ length xs * max_op_blocks
total-le [] a = omega arith
total-le (x ∷ xs) a = omega (arith, total-le xs a.1)

-- Each step keeps the reservation: the blocks in the log and those that running operations may still
-- log fit together into LOGSIZE, no operation runs during a commit, and no block is logged twice.
pub Step-IsReserved :
    {l l' : Log} {ops ops' : List ℕ}
    → IsReserved l ops
    → AllSmall ops
    → Step l ops l' ops'
    → IsReserved l' ops' × AllSmall ops'
unfolding begin_op end_op end_commit log_write
Step-IsReserved {l} {ops = ops} r a (begins e) = (
  record {
    counted = ground (arith, r.counted);
    space = ground (arith, r.counted, total-le ops a);
    alone = λ h. ground arith;
    distinct = ground (arith, r.distinct);
  },
  (omega arith, a),
)
Step-IsReserved {l} {l'} {ops} r a (writes b left rest e h) = (
  record {
    counted = ground (arith, r.counted);
    space = ground (arith, r.space, length-append l.blocks (b ∷ []));
    alone = λ c. ground (arith, r.alone);
    distinct = ground (arith, r.distinct, nodup-snoc b l.blocks);
  },
  let a' = subst AllSmall e a in (omega (arith, a'.0), a'.1),
)
Step-IsReserved r a (ends left rest d e h) = (
  record {
    counted = ground (arith, r.counted);
    space = ground (arith, r.space);
    alone = λ c. ground (arith, r.counted);
    distinct = ground (arith, r.distinct);
  },
  (subst AllSmall e a).1,
)
Step-IsReserved r a (commits h) = (
  record {
    counted = r.counted;
    space = omega (arith, r.space);
    alone = λ c. ground arith;
    distinct = refl;
  },
  a,
)
Step-IsReserved r a (rotates op rest e) = (
  record {
    counted = ground (arith, r.counted, length-append rest (op ∷ []));
    space = ground (arith, r.space, total-append rest (op ∷ []));
    alone = λ c. ground (arith, r.alone, length-append rest (op ∷ []));
    distinct = r.distinct;
  },
  let a' = subst AllSmall e a in AllSmall-append rest op a'.1 a'.0,
)

-- With more than LOGSIZE blocks for the log on disk, an operation that has logged fewer than
-- MAXOPBLOCKS blocks can log one more: `log_write` does not panic, and the block is in the log.
pub log_write_fits :
    {l : Log} {left : ℕ} {rest : List ℕ}
    → IsReserved l (suc left ∷ rest)
    → log_size < l.size
    → (b : ℕ) → (l' : Log) × (log_write l b ≡ some l') × (contains b l'.blocks ≡ true)
unfolding log_write
log_write_fits {l} r h b = elim (Bool-cases (contains b l.blocks)) [
  | inl t ↦ (l, ground (arith, r.space, r.counted), t)
  | inr f ↦ (
    record l { blocks = l.blocks ++ b ∷ [] },
    ground (arith, r.space, r.counted),
    ground (arith, contains-append b l.blocks (b ∷ [])),
  )
]
