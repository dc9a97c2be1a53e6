-- ===== src/Log/Crash.antt =====
-- A crash between any two writes of a commit (log.c), and the recovery after it.
use os_ca.Prelude.{
  ℕ, zero, suc, ◌≡◌, refl, sym, ◌∙◌, ap, subst, ◌⊎◌, inl, inr, false, List, [], ◌∷◌, ◌++◌, take,
  contains,
}
use os_ca.Log.{
  Log, Disk, Write, to_head, apply, apply_all, write_log, install_trans, commit_blocks, commit,
  recover_from_log,
}
use os_ca.Log.Install.{
  installed, installed-same, installed_outside, install-apply, install-prefix, log-prefix,
  log-whole, apply_all-append, take-append, after, installed-logged, recover-home, head-recover,
  recover_clean,
}

-- The home blocks are those before the transaction or those after it.
abbrev pub OldOrNew : (ℕ → ℕ) → List ℕ → (ℕ → ℕ) → (ℕ → ℕ) → Type 0
OldOrNew cache bs old home = ((c : ℕ) → home c ≡ old c) ⊎ ((c : ℕ) → home c ≡ after cache bs old c)

module _ (cache : ℕ → ℕ) (d : Disk) (b : ℕ) (rest : List ℕ) (clean : d.head ≡ []) where
  abbrev bs : List ℕ
  bs = b ∷ rest

  abbrev logged : Disk
  logged = apply_all d (write_log cache 0 bs)

  -- The writes from the header on.
  abbrev tail_writes : List Write
  tail_writes = to_head bs ∷ (install_trans logged.slots 0 bs ++ (to_head [] ∷ []))

  -- The disk once the header is on it.
  abbrev committed : Disk
  committed = record logged { head = bs }

  abbrev restored : Disk → ℕ → ℕ
  restored x = (recover_from_log x).home

  from_committed :
      (x : Disk)
      → x.head ≡ bs
      → x.slots ≡ logged.slots
      → ((c : ℕ) → contains c bs ≡ false → x.home c ≡ committed.home c)
      → (c : ℕ) → restored x c ≡ after cache bs d.home c
  from_committed x h s o =
      recover-home cache bs d x h s
        (λ c n. o c n ∙ ap (λ (f : ℕ → ℕ). f c) (log-whole cache 0 bs d).1)

  -- The disk once all is installed.
  abbrev done : Disk
  done = record committed { home = installed logged.slots 0 bs committed.home }

  same : (c : ℕ) → done.home c ≡ after cache bs d.home c
  same c =
      installed-same logged.slots 0 bs committed.home d.home c
        (λ x n. ap (λ (f : ℕ → ℕ). f x) (log-whole cache 0 bs d).1)
      ∙ installed-logged cache 0 bs d d.home c

  whole : apply_all d (write_log cache 0 bs ++ tail_writes) ≡ record done { head = [] }
  whole =
      apply_all-append d (write_log cache 0 bs) tail_writes
      ∙ apply_all-append committed (install_trans logged.slots 0 bs) (to_head [] ∷ [])
      ∙ ap (λ (x : Disk). apply x (to_head [])) (install-apply logged.slots 0 bs committed)

  -- All is installed, and perhaps the header is cleared.
  crash_last :
      (j : ℕ)
      → OldOrNew cache bs d.home (
          restored
            (apply_all committed (install_trans logged.slots 0 bs ++ take j (to_head [] ∷ []))))
  crash_last j =
      let e =
        apply_all-append committed (install_trans logged.slots 0 bs) (take j (to_head [] ∷ [])) in
      let f = install-apply logged.slots 0 bs committed in
      inr (λ c.
        ap (λ (x : Disk). restored x c) e
        ∙ ap (λ (x : Disk). restored (apply_all x (take j (to_head [] ∷ []))) c) f
        ∙ go j c)
    where
      go :
          (j : ℕ) (c : ℕ)
          → restored (apply_all done (take j (to_head [] ∷ []))) c ≡ after cache bs d.home c
      go zero c =
          from_committed done refl refl
            (λ x n. installed_outside logged.slots 0 bs committed.home x n) c
      go (suc zero) c =
          ap (λ (f : ℕ → ℕ). f c) (recover_clean (record done { head = [] }) refl) ∙ same c
      go (suc (suc j)) c =
          ap (λ (f : ℕ → ℕ). f c) (recover_clean (record done { head = [] }) refl) ∙ same c

  crash_late : (m : ℕ) → OldOrNew cache bs d.home (restored (apply_all logged (take m tail_writes)))
  crash_late zero = inl (λ c.
      ap (λ (f : ℕ → ℕ). f c)
        (recover_clean logged ((log-whole cache 0 bs d).0 ∙ clean) ∙ (log-whole cache 0 bs d).1))
  crash_late (suc m) = go (take-append m (install_trans logged.slots 0 bs) (to_head [] ∷ []))
    where
      go :
          (take m (install_trans logged.slots 0 bs ++ to_head [] ∷ [])
              ≡ take m (install_trans logged.slots 0 bs))
            ⊎ ((j : ℕ) × (take m (install_trans logged.slots 0 bs ++ to_head [] ∷ [])
                  ≡ install_trans logged.slots 0 bs ++ take j (to_head [] ∷ [])))
          → OldOrNew cache bs d.home (restored (apply_all logged (take (suc m) tail_writes)))
      go (inl e) =
          let p = install-prefix m 0 logged.slots bs committed in
          inr (λ c.
            ap (λ (ws : List Write). restored (apply_all committed ws) c) e
            ∙ from_committed (apply_all committed (take m (install_trans logged.slots 0 bs))) p.0
                p.1 p.2 c)
      go (inr (j, e)) =
          subst (λ (ws : List Write). OldOrNew cache bs d.home (restored (apply_all committed ws)))
            (sym e) (crash_last j)

  crash_blocks :
      (n : ℕ)
      → OldOrNew cache bs d.home
          (restored (apply_all d (take n (write_log cache 0 bs ++ tail_writes))))
  crash_blocks n = go (take-append n (write_log cache 0 bs) tail_writes)
    where
      go :
          (take n (write_log cache 0 bs ++ tail_writes) ≡ take n (write_log cache 0 bs))
            ⊎ ((m : ℕ) × (take n (write_log cache 0 bs ++ tail_writes)
                  ≡ write_log cache 0 bs ++ take m tail_writes))
          → OldOrNew cache bs d.home
              (restored (apply_all d (take n (write_log cache 0 bs ++ tail_writes))))
      go (inl e) =
          let p = log-prefix n 0 cache bs d in
          inl (λ c.
            ap (λ (ws : List Write). restored (apply_all d ws) c) e
            ∙ ap (λ (f : ℕ → ℕ). f c)
                (recover_clean (apply_all d (take n (write_log cache 0 bs))) (p.0 ∙ clean) ∙ p.1))
      go (inr (m, e)) =
          subst (λ (ws : List Write). OldOrNew cache bs d.home (restored (apply_all d ws))) (sym e)
            (subst (λ (x : Disk). OldOrNew cache bs d.home (restored x))
              (sym (apply_all-append d (write_log cache 0 bs) (take m tail_writes))) (crash_late m))

-- A commit is atomic. On a disk whose log header is clear, a crash after any number `n` of the
-- commit's writes, followed by recovery, leaves the header clear and the home blocks either all as
-- they were before the commit or all as after it: each block of the log with its cached contents,
-- and every other block unchanged.
pub commit_crash_safe :
    (l : Log) (cache : ℕ → ℕ) (d : Disk) (n : ℕ)
    → d.head ≡ []
    → let d' = recover_from_log (apply_all d (take n (commit l cache d).0)) in
      (d'.head ≡ []) × OldOrNew cache l.blocks d.home d'.home
unfolding commit commit_blocks
commit_crash_safe l cache d n clean = (head-recover _, go l.blocks n)
  where
    go :
        (blocks : List ℕ) (n : ℕ)
        → OldOrNew cache blocks d.home
            (recover_from_log (apply_all d (take n (commit_blocks cache d blocks)))).home
    go [] zero = inl (λ c. ap (λ (f : ℕ → ℕ). f c) (recover_clean d clean))
    go [] (suc n) = inl (λ c. ap (λ (f : ℕ → ℕ). f c) (recover_clean d clean))
    go (b ∷ rest) n = crash_blocks cache d b rest clean n

-- A commit that is not interrupted installs the whole transaction: each block of the log has its
-- cached contents at home, every other block is unchanged, the header is clear, and the log in
-- memory is empty.
pub commit_lem :
    (l : Log) (cache : ℕ → ℕ) (d : Disk)
    → d.head ≡ []
    → let (ws, l') = commit l cache d in
      let d' = apply_all d ws in
      (d'.head ≡ []) × ((c : ℕ) → d'.home c ≡ after cache l.blocks d.home c) × (l'.blocks ≡ [])
unfolding commit commit_blocks
commit_lem l cache d clean = let (h, f) = go l.blocks in (h, f, refl)
  where
    Done : List ℕ → Type 0
    Done blocks =
        let d' = apply_all d (commit_blocks cache d blocks) in
        (d'.head ≡ []) × ((c : ℕ) → d'.home c ≡ after cache blocks d.home c)

    go : (blocks : List ℕ) → Done blocks
    go [] = (clean, λ c. refl)
    go (b ∷ rest) =
        subst (λ (x : Disk). (x.head ≡ []) × ((c : ℕ) → x.home c ≡ after cache (b ∷ rest) d.home c))
          (sym (whole cache d b rest clean)) (refl, same cache d b rest clean)
