-- ===== src/PageTable/Rounds.antt =====
-- A round of copyout (vm.c): bytes of one page.
use os_ca.Prelude.{
  ℕ, ◌+◌, ◌-◌, ◌/◌, ◌%◌, ◌^◌, ◌<◌, ◌≤◌, ◌≡◌, ◌≢◌, refl, ap, sym, ◌∙◌, true, ◌&&◌, ltb, leb, arith,
  Bool-cases, inl, inr,
}
use os_ca.Memory.{Memory, memmove}
use os_ca.Memory.Move.{memmove_lem}
use os_ca.Pages.{page_size, kern_base}
use os_ca.PageTable.{page_round_down}
use os_ca.PageTable.User.{frame, place, IsUserPage, SameTables}

-- The range of `len` bytes at `va` lies in pages of the user, each with a page of memory of its own, and the
-- bytes from `p` on lie in none of these.
pub record IsTarget (m : Memory) (pgdir va p len : ℕ) : Type 0 where
  pub below : va + len ≤ kern_base
  pub pages : (a : ℕ) → va ≤ a → a < va + len → IsUserPage m pgdir (a / page_size)
  pub distinct :
      (a b : ℕ)
      → va ≤ a
      → a < va + len
      → va ≤ b
      → b < va + len
      → frame m pgdir (a / page_size) ≡ frame m pgdir (b / page_size)
      → a / page_size ≡ b / page_size
  pub source :
      (s a : ℕ)
      → p ≤ s
      → s < p + len
      → va ≤ a
      → a < va + len
      → page_round_down s ≢ frame m pgdir (a / page_size)

pub rest-IsTarget :
    {m : Memory} {pgdir va p len : ℕ} (n : ℕ)
    → n ≤ len
    → IsTarget m pgdir va p len
    → IsTarget m pgdir (va + n) (p + n) (len - n)
rest-IsTarget n l t = record {
  below = omega (arith, t.below);
  pages = λ a h h'. t.pages a (omega arith) (omega arith);
  distinct =
      λ a b h h' k k'. t.distinct a b (omega arith) (omega arith) (omega arith) (omega arith);
  source = λ s a h h' k k'. t.source s a (omega arith) (omega arith) (omega arith) (omega arith);
}

-- The bytes at the user's addresses are those of the range at `p`, and no other byte has changed.
pub record Copied (m0 : Memory) (pgdir va p len : ℕ) (m m' : Memory) : Type 0 where
  pub there : (a : ℕ) → va ≤ a → a < va + len → m' (place m0 pgdir a) ≡ m (p + (a - va))
  pub others : (b : ℕ) → ((a : ℕ) → va ≤ a → a < va + len → b ≢ place m0 pgdir a) → m' b ≡ m b
  pub tables : SameTables m0 pgdir m'

pub frame-aligned :
    (m : Memory) (pgdir r : ℕ) → (frame m pgdir r % page_size ≡ 0) × (frame m pgdir r < 2 ^ 32)
frame-aligned m pgdir r = (omega arith, omega arith)

place-page :
    (m : Memory) (pgdir a b : ℕ)
    → page_round_down b ≢ frame m pgdir (a / page_size)
    → b ≢ place m pgdir a
place-page m pgdir a b ne e =
    let al = (frame-aligned m pgdir (a / page_size)).0 in
    let here : page_round_down b ≡ frame m pgdir (a / page_size) = omega (arith, e) in ne here

-- One round: `n` bytes in the page of `va`.
module _ {m0 m : Memory} {pgdir va p len : ℕ} (t : IsTarget m0 pgdir va p len)
    (s : SameTables m0 pgdir m) (n : ℕ) (pos : 0 < n) (some_of : n ≤ len)
    (inside : va % page_size + n ≤ page_size) where
  abbrev pub moved : Memory
  moved = memmove m (place m0 pgdir va) p n

  moved-here : (a : ℕ) → va ≤ a → a < va + n → moved (place m0 pgdir a) ≡ m (p + (a - va))
  moved-here a l h =
      let page : a / page_size ≡ va / page_size = omega arith in
      let at : frame m0 pgdir (va / page_size) + a % page_size ≡ place m0 pgdir va + (a - va) =
        omega arith in
      let covered : (leb (place m0 pgdir va) (place m0 pgdir va + (a - va))
            && ltb (place m0 pgdir va + (a - va)) (place m0 pgdir va + n))
          ≡ true =
        ground arith in
      let back : place m0 pgdir va + (a - va) - place m0 pgdir va ≡ a - va = omega arith in
      rw (page, at)
        (memmove_lem m (place m0 pgdir va) p n (place m0 pgdir va + (a - va))
          ∙ rw (covered, back) refl)

  moved-other : (b : ℕ) → ((a : ℕ) → va ≤ a → a < va + n → b ≢ place m0 pgdir a) → moved b ≡ m b
  moved-other b ne =
      memmove_lem m (place m0 pgdir va) p n b
      ∙ elim (Bool-cases (leb (place m0 pgdir va) b && ltb b (place m0 pgdir va + n))) [
        | inr f ↦ rw f refl
        | inl f ↦
            let low : place m0 pgdir va ≤ b = ground (arith, f) in
            let high : b < place m0 pgdir va + n = ground (arith, f) in
            let a = va + (b - place m0 pgdir va) in
            let page : a / page_size ≡ va / page_size = omega arith in
            let at : b ≡ frame m0 pgdir (va / page_size) + a % page_size = omega arith in
            absurd (
              ne a (omega arith) (omega arith)
                (at ∙ ap (λ (q : ℕ). frame m0 pgdir q + a % page_size) (sym page)))
      ]

  pub moved-tables : SameTables m0 pgdir moved
  moved-tables = record {
    dir = λ b e.
        moved-other b (λ a l h z.
          place-page m0 pgdir a b (λ q. (t.pages a l (omega arith)).no_dir (sym q ∙ e)) z)
        ∙ s.dir b e;
    tables = λ d b h g e.
        moved-other b (λ a l k z.
          place-page m0 pgdir a b (λ q. (t.pages a l (omega arith)).no_table d h g (sym q ∙ e)) z)
        ∙ s.tables d b h g e;
  }

  -- The pages of the later rounds are other ones.
  later :
      (va + n) % page_size ≡ 0
      → (a b : ℕ) → va ≤ a
      → a < va + n
      → va + n ≤ b
      → b < va + len
      → place m0 pgdir a ≢ place m0 pgdir b
  later next a b l h l' h' e =
      let al = (frame-aligned m0 pgdir (a / page_size)).0 in
      let bl = (frame-aligned m0 pgdir (b / page_size)).0 in
      let same : frame m0 pgdir (a / page_size) ≡ frame m0 pgdir (b / page_size) =
        omega (arith, e) in
      let page = t.distinct a b l (omega arith) (omega arith) h' same in
      absurd (omega (arith, page))

  source-kept : (i : ℕ) → i < len → moved (p + i) ≡ m (p + i)
  source-kept i h = moved-other (p + i) (λ a l k.
      place-page m0 pgdir a (p + i)
        (t.source (p + i) a (omega arith) (omega arith) l (omega arith)))

  pub whole-Copied :
      {m' : Memory}
      → (len ≢ n → (va + n) % page_size ≡ 0)
      → Copied m0 pgdir (va + n) (p + n) (len - n) moved m'
      → Copied m0 pgdir va p len m m'
  whole-Copied {m'} next c = record {
    there = λ a l h. elim (Bool-cases (ltb a (va + n))) [
      | inl now ↦
          let here : a < va + n = ground (arith, now) in
          c.others (place m0 pgdir a)
            (λ b l' h'. later (next (λ e. absurd (omega arith))) a b l here l' (omega arith))
          ∙ moved-here a l here
      | inr after ↦
          let there : va + n ≤ a = ground (arith, after) in
          let at : p + n + (a - (va + n)) ≡ p + (a - va) = omega arith in
          c.there a there (omega arith) ∙ ap moved at ∙ source-kept (a - va) (omega arith)
    ];
    others = λ b ne.
        c.others b (λ a l h. ne a (omega arith) (omega arith))
        ∙ moved-other b (λ a l h. ne a l (omega arith));
    tables = c.tables;
  }

pub nothing-Copied :
    {m0 m : Memory} {pgdir : ℕ} (va p len : ℕ)
    → len ≡ 0
    → SameTables m0 pgdir m
    → Copied m0 pgdir va p len m m
nothing-Copied va p len z s = record {
  there = λ a l h. absurd (omega (arith, z));
  others = λ b ne. refl;
  tables = s;
}
