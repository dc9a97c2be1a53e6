-- ===== src/Log/Install.antt =====
-- What the writes of a commit (log.c) leave on the disk, in whole or in part.
use os_ca.Prelude.{
  ℕ, zero, suc, ◌+◌, ◌<◌, ◌≡◌, refl, ◌∙◌, ap, ◌⊎◌, inl, inr, false, List, [], ◌∷◌, ◌++◌, arith,
  take, contains, update, if◌then◌else◌,
}
use os_ca.Log.{Disk, Write, apply, apply_all, write_log, install_trans, recover_from_log}

-- What the home blocks are after installing `bs` from the slots, in order.
abbrev pub installed : (ℕ → ℕ) → ℕ → List ℕ → (ℕ → ℕ) → ℕ → ℕ
installed slots tail [] home = home
installed slots tail (b ∷ bs) home = installed slots (tail + 1) bs (update home b (slots tail))

-- A block of the list gets its value whatever stood there before.
pub installed-same :
    (slots : ℕ → ℕ) (tail : ℕ) (bs : List ℕ) (h h' : ℕ → ℕ) (c : ℕ)
    → ((b : ℕ) → contains b bs ≡ false → h b ≡ h' b)
    → installed slots tail bs h c ≡ installed slots tail bs h' c
installed-same slots tail [] h h' c e = e c refl
installed-same slots tail (b ∷ bs) h h' c e =
    installed-same slots (tail + 1) bs (update h b (slots tail)) (update h' b (slots tail)) c
      (λ x n. ground (arith, e x))

pub installed_outside :
    (slots : ℕ → ℕ) (tail : ℕ) (bs : List ℕ) (h : ℕ → ℕ) (c : ℕ)
    → contains c bs ≡ false
    → installed slots tail bs h c ≡ h c
installed_outside slots tail [] h c n = refl
installed_outside slots tail (b ∷ bs) h c n =
    ground (arith, installed_outside slots (tail + 1) bs (update h b (slots tail)) c)

-- The writes of install_trans, or the first `n` of them.
pub install-apply :
    (slots : ℕ → ℕ) (tail : ℕ) (bs : List ℕ) (d : Disk)
    → apply_all d (install_trans slots tail bs) ≡ record d { home = installed slots tail bs d.home }
unfolding install_trans
install-apply slots tail [] d = refl
install-apply slots tail (b ∷ bs) d =
    install-apply slots (tail + 1) bs (record d { home = update d.home b (slots tail) })

pub install-prefix :
    (n tail : ℕ) (slots : ℕ → ℕ) (bs : List ℕ) (d : Disk)
    → let d' = apply_all d (take n (install_trans slots tail bs)) in
      (d'.head ≡ d.head)
      × (d'.slots ≡ d.slots)
      × ((c : ℕ) → contains c bs ≡ false → d'.home c ≡ d.home c)
unfolding install_trans
install-prefix zero tail slots bs d = (refl, refl, λ c n. refl)
install-prefix (suc n) tail slots [] d = (refl, refl, λ c n. refl)
install-prefix (suc n) tail slots (b ∷ bs) d =
    let (h, s, o) =
      install-prefix n (tail + 1) slots bs (record d { home = update d.home b (slots tail) }) in
    (h, s, λ c m. ground (arith, o c))

-- The writes of write_log change slots alone.
pub log-prefix :
    (n tail : ℕ) (cache : ℕ → ℕ) (bs : List ℕ) (d : Disk)
    → let d' = apply_all d (take n (write_log cache tail bs)) in
      (d'.head ≡ d.head) × (d'.home ≡ d.home)
unfolding write_log
log-prefix zero tail cache bs d = (refl, refl)
log-prefix (suc n) tail cache [] d = (refl, refl)
log-prefix (suc n) tail cache (b ∷ bs) d =
    log-prefix n (tail + 1) cache bs (record d { slots = update d.slots tail (cache b) })

pub log-whole :
    (cache : ℕ → ℕ) (tail : ℕ) (bs : List ℕ) (d : Disk)
    → let d' = apply_all d (write_log cache tail bs) in (d'.head ≡ d.head) × (d'.home ≡ d.home)
unfolding write_log
log-whole cache tail [] d = (refl, refl)
log-whole cache tail (b ∷ bs) d =
    log-whole cache (tail + 1) bs (record d { slots = update d.slots tail (cache b) })

pub apply_all-append :
    (d : Disk) (xs ys : List Write) → apply_all d (xs ++ ys) ≡ apply_all (apply_all d xs) ys
apply_all-append d [] ys = refl
apply_all-append d (x ∷ xs) ys = apply_all-append (apply d x) xs ys

-- A prefix of a sequence in two parts ends in the first or reaches into the second.
pub take-append :
    (n : ℕ) (xs ys : List Write)
    → (take n (xs ++ ys) ≡ take n xs) ⊎ ((m : ℕ) × (take n (xs ++ ys) ≡ xs ++ take m ys))
take-append n [] ys = inr (n, refl)
take-append zero (x ∷ xs) ys = inl refl
take-append (suc n) (x ∷ xs) ys = go (take-append n xs ys)
  where
    go :
        (take n (xs ++ ys) ≡ take n xs) ⊎ ((m : ℕ) × (take n (xs ++ ys) ≡ xs ++ take m ys))
        → (take (suc n) (x ∷ xs ++ ys) ≡ take (suc n) (x ∷ xs))
          ⊎ ((m : ℕ) × (take (suc n) (x ∷ xs ++ ys) ≡ x ∷ xs ++ take m ys))
    go (inl e) = inl (ap (λ (l : List Write). x ∷ l) e)
    go (inr (m, e)) = inr (m, ap (λ (l : List Write). x ∷ l) e)

log-slot :
    (cache : ℕ → ℕ) (tail i : ℕ) (bs : List ℕ) (d : Disk)
    → i < tail
    → (apply_all d (write_log cache tail bs)).slots i ≡ d.slots i
unfolding write_log
log-slot cache tail i [] d h = refl
log-slot cache tail i (b ∷ bs) d h =
    log-slot cache (tail + 1) i bs (record d { slots = update d.slots tail (cache b) })
      (omega arith)
    ∙ ground arith

-- The home blocks of a committed transaction.
abbrev pub after : (ℕ → ℕ) → List ℕ → (ℕ → ℕ) → ℕ → ℕ
after cache bs home c = if contains c bs then cache c else home c

-- Installing what write_log has logged gives each block of the list its cached contents.
pub installed-logged :
    (cache : ℕ → ℕ) (tail : ℕ) (bs : List ℕ) (d : Disk) (h : ℕ → ℕ) (c : ℕ)
    → installed (apply_all d (write_log cache tail bs)).slots tail bs h c ≡ after cache bs h c
unfolding write_log
installed-logged cache tail [] d h c = refl
installed-logged cache tail (b ∷ bs) d h c =
    let d' = record d { slots = update d.slots tail (cache b) } in
    ground (
      arith,
      installed-logged cache (tail + 1) bs d'
          (update h b ((apply_all d' (write_log cache (tail + 1) bs)).slots tail)) c,
      log-slot cache (tail + 1) tail bs d' (omega arith),
    )

-- Recovery from a disk with a log for `bs` in the slots.
pub recover-home :
    (cache : ℕ → ℕ) (bs : List ℕ) (d0 d : Disk)
    → d.head ≡ bs
    → d.slots ≡ (apply_all d0 (write_log cache 0 bs)).slots
    → ((c : ℕ) → contains c bs ≡ false → d.home c ≡ d0.home c)
    → (c : ℕ) → (recover_from_log d).home c ≡ after cache bs d0.home c
unfolding recover_from_log
recover-home cache bs d0 d h s o c =
    ap (λ (x : Disk). x.home c) (install-apply d.slots 0 d.head d)
    ∙ rw (h, s)
        (installed-same _ 0 bs d.home d0.home c o ∙ installed-logged cache 0 bs d0 d0.home c)

pub head-recover : (d : Disk) → (recover_from_log d).head ≡ []
unfolding recover_from_log
head-recover d = refl

pub recover_clean : (d : Disk) → d.head ≡ [] → (recover_from_log d).home ≡ d.home
unfolding recover_from_log install_trans
recover_clean d h = rw h refl
