-- ===== src/Tests/Paging.antt =====
-- The theorems on page tables and memset, on a directory with one page table and one page.
use os_ca.Prelude.{
  ℕ, ◌+◌, ◌-◌, ◌*◌, ◌/◌, ◌^◌, ◌<◌, ◌≤◌, ◌≡◌, ◌≢◌, refl, ap, sym, subst, ◌∙◌, true, false, none,
  some, [], ◌∷◌, ◌==◌, arith, Bool-cases, inl, inr, contains,
}
use os_ca.Memory.{Memory, put_int}
use os_ca.Memory.Words.{int_at-put_int_apart, put_int-bytes}
use os_ca.Pages.{Kmem, page_size}
use os_ca.Pages.Free.{IsKmem}
use os_ca.PageTable.{is_present, mappages, copyout}
use os_ca.PageTable.Entries.{pde, lookup, IsPageTable}
use os_ca.PageTable.User.{frame, place, IsUserPage}
use os_ca.PageTable.Extend.{Maps}
use os_ca.PageTable.Map.{mappages_lem}
use os_ca.PageTable.Rounds.{IsTarget}
use os_ca.PageTable.Copy.{copyout_lem}

-- 0x80100000, 0x80200000 and the page table behind it
abbrev kernel_end : ℕ
kernel_end = 2148532224

abbrev directory : ℕ
directory = 2149580800

abbrev first_table : ℕ
first_table = 2149584896

-- Page 1 of the user is the frame 0x300000.
abbrev mapped : Memory
mapped = put_int (put_int (λ _. 0) directory 2101255) (first_table + 4) 3145735

abbrev pool : Kmem
pool = record { use_lock = true; freelist = 2149588992 ∷ [] }

in_pool : (v : ℕ) → contains v pool.freelist ≡ true → v ≡ 2149588992
in_pool v h = ground (arith, h)

no_entry : (d : ℕ) → d ≢ 0 → d < 1024 → pde mapped directory d ≡ 0
no_entry d ne l =
    int_at-put_int_apart (put_int (λ _. 0) directory 2101255) (first_table + 4) (directory + 4 * d)
      3145735 (inr (omega arith))
    ∙ int_at-put_int_apart (λ _. 0) directory (directory + 4 * d) 2101255 (inl (omega arith))

only_first : (d : ℕ) → d < 1024 → is_present (pde mapped directory d) ≡ true → d ≡ 0
only_first d l p = elim (Bool-cases (d == 0)) [
  | inl t ↦ ground (arith, t)
  | inr t ↦ absurd (ground (arith, p, no_entry d (ground (arith, t)) l))
]

pool-IsKmem : IsKmem kernel_end pool
pool-IsKmem = record { distinct = refl; sound = λ v h. let e = in_pool v h in rw e refl }

mapped-IsPageTable : IsPageTable kernel_end mapped pool directory
mapped-IsPageTable = record {
  bytes =
      put_int-bytes (put_int (λ _. 0) directory 2101255) (first_table + 4) 3145735
        (put_int-bytes (λ _. 0) directory 2101255 (λ a. omega arith));
  aligned = refl;
  kmem = pool-IsKmem;
  high = λ v h. let e = in_pool v h in omega (arith, e);
  dir_taken = refl;
  apart = λ d l p. let e = only_first d l p in rw e (λ z. absurd (omega (arith, z)));
  taken = λ d l p. let e = only_first d l p in rw e refl;
  distinct = λ d e l l' p p' z. only_first d l p ∙ sym (only_first e l' p');
}

user_page : (a : ℕ) → 4096 ≤ a → a < 4096 + 2 → a / page_size ≡ 1
user_page a l h = omega arith

page_frame : frame mapped directory 1 ≡ 2150629376
unfolding lookup
page_frame = refl

page-IsUserPage : IsUserPage mapped directory 1
unfolding lookup
page-IsUserPage = record {
  present = refl;
  user = refl;
  exists = λ z. absurd (omega (arith, z));
  no_dir = λ z. absurd (omega (arith, z));
  no_table = λ d l p. let e = only_first d l p in rw e (λ z. absurd (omega (arith, z)));
}

-- Two bytes from address 0 go to the user's page 1.
page-IsTarget : IsTarget mapped directory 4096 0 2
page-IsTarget = record {
  below = omega arith;
  pages = λ a l h. subst (IsUserPage mapped directory) (sym (user_page a l h)) page-IsUserPage;
  distinct = λ a b l h l' h' z. user_page a l h ∙ sym (user_page b l' h');
  source = λ s a l h l' h' z.
      let e : frame mapped directory (a / page_size) ≡ 2150629376 =
        ap (frame mapped directory) (user_page a l' h') ∙ page_frame in
      absurd (omega (arith, z, e));
}

copyout_lem_example :
    (m' : Memory) × (copyout mapped pool directory 4096 0 2 ≡ some (true, m'))
    × ((a : ℕ) → 4096 ≤ a → a < 4096 + 2 → m' (place m' directory a) ≡ mapped (0 + (a - 4096)))
    × ((b : ℕ)
        → ((a : ℕ) → 4096 ≤ a → a < 4096 + 2 → b ≢ place mapped directory a)
        → m' b ≡ mapped b)
    × ((r : ℕ) → r < 2 ^ 20 → lookup m' directory r ≡ lookup mapped directory r)
copyout_lem_example = copyout_lem 4096 0 2 mapped-IsPageTable page-IsTarget

mappages_lem_example :
    (is_present (lookup mapped directory 2) ≡ true
      → mappages mapped pool directory 8192 5000 4194304 6 ≡ none)
    × (((s : ℕ) → 2 ≤ s → s ≤ 3 → is_present (lookup mapped directory s) ≡ false)
        → Maps kernel_end mapped directory 2 1 4194304 6
            (mappages mapped pool directory 8192 5000 4194304 6))
mappages_lem_example =
    mappages_lem 8192 5000 4194304 6 mapped-IsPageTable (omega arith) (omega arith) (omega arith)
      refl (omega arith)
