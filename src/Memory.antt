-- ===== src/Memory.antt =====
-- memset, memcmp, memmove, safestrcpy and strlen of string.c on a byte-addressed memory: a function from
-- addresses to bytes. Addresses do not wrap.
pub mod Move
pub mod Text
pub mod Compare
pub mod Words
pub mod Set
use os_ca.Prelude.{
  ℕ, zero, suc, ◌+◌, ◌-◌, ◌*◌, ◌/◌, ◌^◌, ◌%◌, Bool, true, false, ◌&&◌, not, Option, none, some,
  if◌then◌else◌, ltb, ◌==◌, update,
}

abbrev pub Memory : Type 0
Memory = ℕ → ℕ

-- `while(n-- > 0) *--d = *--s;` with `s` and `d` past the end of their ranges.
pub copy_down : ℕ → Memory → ℕ → ℕ → Memory
copy_down zero m d s = m
copy_down (suc n) m d s = copy_down n (update m (d - 1) (m (s - 1))) (d - 1) (s - 1)

-- `while(n-- > 0) *d++ = *s++;`
pub copy_up : ℕ → Memory → ℕ → ℕ → Memory
copy_up zero m d s = m
copy_up (suc n) m d s = copy_up n (update m d (m s)) (d + 1) (s + 1)

pub memmove : Memory → ℕ → ℕ → ℕ → Memory
unfolding copy_down copy_up
memmove m dst src n =
    if ltb src dst && ltb dst (src + n)
    then copy_down n m (dst + n) (src + n)
    else copy_up n m dst src

-- The bytes of memcmp: none if the ranges agree, or the first two that differ, whose difference the
-- code returns.
pub memcmp : Memory → ℕ → ℕ → ℕ → Option (ℕ × ℕ)
memcmp m s1 s2 zero = none
memcmp m s1 s2 (suc n) =
    let rest = memcmp m (s1 + 1) (s2 + 1) n in if m s1 == m s2 then rest else some (m s1, m s2)

-- The first loop of strncpy and of safestrcpy: copy up to and with a NUL; the result says how many
-- bytes have been written.
pub copy_text : ℕ → Memory → ℕ → ℕ → Memory × ℕ
copy_text zero m s t = (m, 0)
copy_text (suc n) m s t =
    let m' = update m s (m t) in
    let (m'', written) = copy_text n m' (s + 1) (t + 1) in
    if m t == 0 then (m', 1) else (m'', suc written)

-- `safestrcpy(s, t, n)`. `*s++ = *t++` leaves `s` behind the NUL when it copies one.
pub safestrcpy : Memory → ℕ → ℕ → ℕ → Memory
unfolding copy_text
safestrcpy m s t zero = m
safestrcpy m s t (suc n) = let (m', written) = copy_text n m s t in update m' (s + written) 0

-- `for(n = 0; s[n]; n++)` with fuel; `none` means that it ran out.
pub strlen : ℕ → Memory → ℕ → Option ℕ
strlen zero m s = none
strlen (suc fuel) m s =
    let rest = strlen fuel m (s + 1) in
    if m s == 0 then some 0 else elim rest [ none ↦ none | some n ↦ some (suc n) ]

-- `*(int*)(addr)`: four bytes, the lowest one first.
abbrev pub int_at : Memory → ℕ → ℕ
int_at m a = m a + 2 ^ 8 * m (a + 1) + 2 ^ 16 * m (a + 2) + 2 ^ 24 * m (a + 3)

-- `*(int*)(addr) = v`
abbrev pub put_int : Memory → ℕ → ℕ → Memory
put_int m a v =
    update
      (update (update (update m a (v % 2 ^ 8)) (a + 1) (v / 2 ^ 8 % 2 ^ 8)) (a + 2)
        (v / 2 ^ 16 % 2 ^ 8))
      (a + 3) (v / 2 ^ 24 % 2 ^ 8)

-- `rep stosb` and `rep stosl`
unfoldable pub stosb : ℕ → Memory → ℕ → ℕ → Memory
stosb zero m addr value = m
stosb (suc cnt) m addr value = stosb cnt (update m addr (value % 2 ^ 8)) (addr + 1) value

unfoldable pub stosl : ℕ → Memory → ℕ → ℕ → Memory
stosl zero m addr value = m
stosl (suc cnt) m addr value = stosl cnt (put_int m addr value) (addr + 4) value

unfoldable pub memset : Memory → ℕ → ℕ → ℕ → Memory
unfolding stosb stosl
memset m dst c n =
    if dst % 4 == 0 && n % 4 == 0
    then (let b = c % 2 ^ 8 in stosl (n / 4) m dst (2 ^ 24 * b + 2 ^ 16 * b + 2 ^ 8 * b + b))
    else stosb n m dst c
