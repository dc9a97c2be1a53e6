-- ===== src/PageTable/Bits.antt =====
-- The bits of a page's entry (mappages in vm.c).
use os_ca.Prelude.{ℕ, zero, suc, ◌+◌, ◌*◌, ◌/◌, ◌%◌, ◌^◌, ◌<◌, ◌≡◌, ◌∙◌, arith}
use os_ca.Pages.{page_size}
use os_ca.PageTable.{or_bits, page_entry}

abbrev pow : ℕ → ℕ
pow zero = 1
pow (suc n) = 2 * pow n

abbrev shifted : ℕ → ℕ → ℕ
shifted zero a = a
shifted (suc k) a = 2 * shifted k a

-- `k` bits more than `n`.
abbrev wider : ℕ → ℕ → ℕ
wider zero n = n
wider (suc k) n = suc (wider k n)

or_bits-zero : (n a : ℕ) → a < pow n → or_bits n a 0 ≡ a
unfolding or_bits
or_bits-zero zero a h = omega arith
or_bits-zero (suc n) a h =
    let rest : or_bits n (a / 2) 0 ≡ a / 2 = or_bits-zero n (a / 2) (omega arith) in
    ground (arith, rest)

-- Below a number's lowest set bit, `|` adds.
or_bits-shifted :
    (k n a b : ℕ) → a < pow n → b < pow k → or_bits (wider k n) (shifted k a) b ≡ shifted k a + b
unfolding or_bits
or_bits-shifted zero n a b h l =
    let none_set : b ≡ 0 = omega arith in rw none_set (or_bits-zero n a h ∙ omega arith)
or_bits-shifted (suc k) n a b h l =
    let half : 2 * shifted k a / 2 ≡ shifted k a = omega arith in
    let rest : or_bits (wider k n) (2 * shifted k a / 2) (b / 2) ≡ shifted k a + b / 2 =
      rw half (or_bits-shifted k n a (b / 2) h (omega arith)) in
    ground (arith, rest)

-- The entry of a page is the frame's address with the permissions and PTE_P as its flags.
pub page_entry_lem :
    (pa perm : ℕ)
    → pa < 2 ^ 32
    → pa % page_size ≡ 0
    → perm < page_size
    → page_entry pa perm ≡ pa + (perm / 2 * 2 + 1)
unfolding page_entry
page_entry_lem pa perm w al l =
    let whole : shifted 12 (pa / page_size) ≡ pa = omega arith in
    let sum : or_bits 32 pa perm ≡ pa + perm =
      rw whole at (or_bits-shifted 12 20 (pa / page_size) perm (omega arith) l) in
    rw sum (omega arith)
