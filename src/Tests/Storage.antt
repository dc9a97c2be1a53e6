-- ===== src/Tests/Storage.antt =====
-- The theorems on memory, pipes and the log, on small inputs.
use os_ca.Prelude.{ℕ, zero, suc, ◌+◌, ◌≡◌, refl, true, false, List, [], ◌∷◌, arith, update, take}
use os_ca.Memory.{Memory}
use os_ca.Buffers.{Bcache, binit, bget}
use os_ca.Buffers.Unique.{IsUnique, Gets, bget_lem}
use os_ca.Pages.{Kmem}
use os_ca.Pages.Free.{IsKmem}
use os_ca.Pipe.{Pipe, pipealloc, pipewrite, piperead}
use os_ca.Pipe.Contents.{IsPipe}
use os_ca.Pipe.Refine.{Writes, pipewrite_lem, Reads, piperead_lem}
use os_ca.Log.{Log, Disk, begin_op, max_op_blocks, commit, apply_all, recover_from_log}
use os_ca.Log.Space.{begins, IsReserved, AllSmall, Step-IsReserved}
use os_ca.Log.Crash.{OldOrNew, commit_crash_safe}

-- "abc" at 100, with its NUL.
abbrev abc : Memory
abc = update (update (update (λ _. 0) 100 97) 101 98) 102 99

-- A pipe whose counters are about to wrap, with two bytes in it.
abbrev late_pipe : Pipe
late_pipe = record (pipealloc (λ i. i)) { nread = 4294967294; nwrite = 0 }

late_pipe-IsPipe : IsPipe late_pipe
late_pipe-IsPipe = record { reads = omega arith; writes = omega arith; fits = omega arith }

pipewrite_lem_example : Writes late_pipe false (7 ∷ 8 ∷ []) (pipewrite late_pipe false (7 ∷ 8 ∷ []))
pipewrite_lem_example = pipewrite_lem (7 ∷ 8 ∷ []) late_pipe false late_pipe-IsPipe

piperead_lem_example : Reads late_pipe false 5 (piperead late_pipe false 5)
piperead_lem_example = piperead_lem 5 late_pipe false late_pipe-IsPipe

-- A log with one running operation, which has logged block 7.
abbrev one_block : Log
one_block = record { size = 31; outstanding = 1; committing = false; blocks = 7 ∷ [] }

one_block-IsReserved : IsReserved one_block (9 ∷ [])
one_block-IsReserved = record {
  counted = refl;
  space = omega arith;
  alone = λ h. absurd (ground arith);
  distinct = refl;
}

Step-IsReserved_example :
    IsReserved (record one_block { outstanding = 2 }) (max_op_blocks ∷ 9 ∷ [])
    × AllSmall (max_op_blocks ∷ 9 ∷ [])
unfolding begin_op
Step-IsReserved_example = Step-IsReserved one_block-IsReserved (omega arith, tt) (begins refl)

-- The log that mkfs makes, with 29 blocks logged.
abbrev many : ℕ → List ℕ
many zero = []
many (suc n) = n ∷ many n

abbrev full_log : Log
full_log = record { size = 30; outstanding = 1; committing = false; blocks = many 29 }

full_log-IsReserved : IsReserved full_log (1 ∷ [])
full_log-IsReserved = record {
  counted = refl;
  space = omega arith;
  alone = λ h. absurd (ground arith);
  distinct = refl;
}

abbrev blank : Disk
blank = record { head = []; slots = λ _. 0; home = λ b. b }

abbrev cached : ℕ → ℕ
cached b = 100 + b

abbrev two_blocks : Log
two_blocks = record { size = 31; outstanding = 0; committing = true; blocks = 7 ∷ 9 ∷ [] }

commit_crash_safe_example :
    let d' = recover_from_log (apply_all blank (take 3 (commit two_blocks cached blank).0)) in
    (d'.head ≡ []) × OldOrNew cached (7 ∷ 9 ∷ []) blank.home d'.home
commit_crash_safe_example = commit_crash_safe two_blocks cached blank 3 refl

-- The cache after binit: no buffer has been used.
abbrev empty_cache : Bcache
empty_cache = binit (λ _. record { dev = 0; blockno = 0; refcnt = 0; valid = false; dirty = false })

empty_cache-IsUnique : IsUnique empty_cache
unfolding IsUnique
empty_cache-IsUnique i j m m' d b z = absurd (z refl)

bget_lem_example : Gets empty_cache 1 5 (bget empty_cache 1 5)
bget_lem_example = bget_lem empty_cache 1 5 empty_cache-IsUnique (λ e. ground arith)

-- Two free pages above the kernel's end.
abbrev two_pages : Kmem
two_pages = record { use_lock = true; freelist = 2151677952 ∷ 2151682048 ∷ [] }

two_pages-IsKmem : IsKmem 2148532224 two_pages
two_pages-IsKmem = record { distinct = refl; sound = λ v h. ground (arith, h) }
