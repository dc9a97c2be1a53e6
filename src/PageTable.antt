-- ===== src/PageTable.antt =====
-- The page tables of vm.c in the byte-addressed memory of Memory. A page directory and its page tables are pages
-- of memory at their kernel virtual addresses, and an entry is a word there. The allocator is that of Pages.
-- `none` is a panic, a use of the null pointer, or in the loops the end of their fuel.
pub mod Entries
pub mod Plant
pub mod Walk
pub mod Bits
pub mod Extend
pub mod Map
pub mod User
pub mod Rounds
pub mod Copy
use os_ca.Prelude.{
  ℕ, zero, suc, ◌+◌, ◌-◌, ◌*◌, ◌/◌, ◌%◌, ◌^◌, Bool, true, false, ◌&&◌, ◌||◌, not, Option, none,
  some, if◌then◌else◌, ◌>>=◌, ltb, leb, ◌==◌, add32, sub32,
}
use os_ca.Memory.{Memory, int_at, put_int, memset, memmove}
use os_ca.Pages.{Kmem, page_size, kern_base, kalloc}

-- PDX and PTX: the two indices in a virtual address.
abbrev pub pdx : ℕ → ℕ
pdx va = va / 2 ^ 22 % 1024

abbrev pub ptx : ℕ → ℕ
ptx va = va / 2 ^ 12 % 1024

abbrev pub page_round_down : ℕ → ℕ
page_round_down a = a / page_size * page_size

abbrev pub v2p : ℕ → ℕ
v2p a = sub32 a kern_base

abbrev pub p2v : ℕ → ℕ
p2v a = add32 a kern_base

-- `*pte & PTE_P`
abbrev pub is_present : ℕ → Bool
is_present pte = pte % 2 == 1

-- `*pte & PTE_U`
abbrev pub is_user : ℕ → Bool
is_user pte = pte / 4 % 2 == 1

-- PTE_ADDR
abbrev pub pte_addr : ℕ → ℕ
pte_addr pte = pte / 2 ^ 12 * 2 ^ 12

-- `V2P(pgtab) | PTE_P | PTE_W | PTE_U`: the three lowest bits are set.
abbrev pub table_entry : ℕ → ℕ
table_entry pgtab = v2p pgtab / 8 * 8 + 7

-- `a | b` on the lowest `n` bits.
unfoldable pub or_bits : ℕ → ℕ → ℕ → ℕ
or_bits zero a b = 0
or_bits (suc n) a b =
    let rest = or_bits n (a / 2) (b / 2) in
    (if (a % 2 == 1) || (b % 2 == 1) then 1 else 0) + 2 * rest

-- `pa | perm | PTE_P`: the lowest bit is set.
unfoldable pub page_entry : ℕ → ℕ → ℕ
unfolding or_bits
page_entry pa perm = or_bits 32 pa perm / 2 * 2 + 1

-- The address of the entry, the memory and the allocator.
abbrev pub Walked : Type 0
Walked = Option ℕ × Memory × Kmem

unfoldable pub walkpgdir : Memory → Kmem → ℕ → ℕ → Bool → Walked
walkpgdir m km pgdir va alloc =
    let pde = int_at m (pgdir + 4 * pdx va) in
    if is_present pde
    then (some (p2v (pte_addr pde) + 4 * ptx va), m, km)
    else if not alloc
    then (none, m, km)
    else (let (page, km') = kalloc km in
        elim page [
          | none ↦ (none, m, km')
          | some pgtab ↦ (
            some (pgtab + 4 * ptx va),
            put_int (memset m pgtab 0 page_size) (pgdir + 4 * pdx va) (table_entry pgtab),
            km',
          )
        ])

-- The loop of mappages from `a` on: whether it returns 0, the memory and the allocator.
unfoldable pub map_from : ℕ → Memory → Kmem → ℕ → ℕ → ℕ → ℕ → ℕ → Option (Bool × Memory × Kmem)
unfolding walkpgdir
map_from zero m km pgdir a last pa perm = none
map_from (suc fuel) m km pgdir a last pa perm =
    let (entry, m', km') = walkpgdir m km pgdir a true in
    elim entry [
      | none ↦ some (false, m', km')
      | some pte ↦ elim (is_present (int_at m' pte)) [
        | true ↦ none
        | false ↦
            let m'' = put_int m' pte (page_entry pa perm) in
            elim (a == last) [
              | true ↦ some (true, m'', km')
              | false ↦
                  map_from fuel m'' km' pgdir (add32 a page_size) last (add32 pa page_size) perm
            ]
      ]
    ]

-- There are at most as many rounds as pages from `va` to the last byte.
unfoldable pub mappages : Memory → Kmem → ℕ → ℕ → ℕ → ℕ → ℕ → Option (Bool × Memory × Kmem)
unfolding map_from
mappages m km pgdir va size pa perm =
    map_from (size / page_size + 2) m km pgdir (page_round_down va)
      (page_round_down (sub32 (add32 va size) 1)) pa perm

-- The kernel address of a user page, or 0. A missing page table is not tested for: `none`.
unfoldable pub uva2ka : Memory → Kmem → ℕ → ℕ → Option ℕ
unfolding walkpgdir
uva2ka m km pgdir uva = do
  pte ← (walkpgdir m km pgdir uva false).0
  let e = int_at m pte
  some (if is_present e && is_user e then p2v (pte_addr e) else 0)

-- The loop of copyout: whether it returns 0, and the memory.
unfoldable pub copy_pages : ℕ → Memory → Kmem → ℕ → ℕ → ℕ → ℕ → Option (Bool × Memory)
unfolding uva2ka
copy_pages zero m km pgdir va p len = if len == 0 then some (true, m) else none
copy_pages (suc fuel) m km pgdir va p len = elim (len == 0) [
  | true ↦ some (true, m)
  | false ↦ do
    let va0 = page_round_down va
    pa0 ← uva2ka m km pgdir va0
    let n = if ltb len (page_size - (va - va0)) then len else page_size - (va - va0)
    elim (pa0 == 0) [
      | true ↦ some (false, m)
      | false ↦
          copy_pages fuel (memmove m (add32 pa0 (va - va0)) p n) km pgdir (add32 va0 page_size)
            (p + n) (len - n)
    ]
]

-- Each round copies at least one byte.
unfoldable pub copyout : Memory → Kmem → ℕ → ℕ → ℕ → ℕ → Option (Bool × Memory)
unfolding copy_pages
copyout m km pgdir va p len = copy_pages len m km pgdir va p len
