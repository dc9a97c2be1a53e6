-- ===== src/Console/Words/Stops.antt =====
-- Where the moves by words (console.c) stop.
use os_ca.Prelude.{
  ℕ, zero, suc, ◌+◌, ◌-◌, ◌<◌, ◌≤◌, ◌≡◌, ap, ◌∙◌, Bool, true, false, ◌&&◌, ◌||◌, not, ◌⊎◌, arith,
  if◌then◌else◌, ltb, ◌==◌, sub32, Bool-cases, inl, inr,
}
use os_ca.Console.{Input}
use os_ca.Console.Words.{is_space, skip_forward, next_word_pos, skip_back, prev_word_pos}

abbrev pub goes_on : Bool → Input → ℕ → Bool
goes_on wanted s i = if wanted then is_space s i else not (is_space s i)

-- A skip forward goes over bytes of the wanted kind only, and stops at the end of the line or at a byte
-- of the other kind.
pub record Skipped (wanted : Bool) (s : Input) (from to : ℕ) : Type 0 where
  pub above : from ≤ to
  pub below : to ≤ s.e
  pub over : (i : ℕ) → from ≤ i → i < to → goes_on wanted s i ≡ true
  pub stop : (to ≡ s.e) ⊎ (goes_on wanted s to ≡ false)

pub skip_forward-Skipped :
    (wanted : Bool) (n : ℕ) (s : Input) (next : ℕ)
    → next ≤ s.e
    → s.e ≤ next + n
    → Skipped wanted s next (skip_forward wanted n s next)
unfolding skip_forward
skip_forward-Skipped wanted zero s next h f = record {
  above = omega arith;
  below = h;
  over = λ i a b. absurd (omega arith);
  stop = inl (omega arith);
}
skip_forward-Skipped wanted (suc n) s next h f =
    elim (Bool-cases (ltb next s.e && goes_on wanted s next)) [
      | inl t ↦
          let r = skip_forward-Skipped wanted n s (next + 1) (ground arith) (omega arith) in
          rw t (record {
            above = omega (arith, r.above);
            below = r.below;
            over = λ i a b. elim (Bool-cases (i == next)) [
              | inl e ↦ let q : i ≡ next = ground arith in ap (goes_on wanted s) q ∙ ground arith
              | inr e ↦ r.over i (ground arith) b
            ];
            stop = r.stop;
          })
      | inr t ↦ rw t (record {
        above = omega arith;
        below = h;
        over = λ i a b. absurd (omega arith);
        stop = elim (Bool-cases (ltb next s.e)) [
          | inl u ↦ inr (ground arith)
          | inr u ↦ inl (ground arith)
        ];
      })
    ]

-- The cursor's move to the next word stays in the line and does not go back.
pub next_word_pos_bounds :
    (s : Input) → s.cursor ≤ s.e → (s.cursor ≤ next_word_pos s) × (next_word_pos s ≤ s.e)
unfolding next_word_pos
next_word_pos_bounds s h =
    let n = s.e - s.cursor in
    let p = skip_forward-Skipped true n s s.cursor h (omega arith) in
    let a = skip_forward true n s s.cursor in
    let q = skip_forward-Skipped false n s a p.below (omega (arith, p.above)) in
    let b = skip_forward false n s a in
    let r = skip_forward-Skipped true n s b q.below (omega (arith, p.above, q.above)) in
    (omega (arith, p.above, q.above, r.above), r.below)

skip_back_bounds :
    (wanted : Bool) (n : ℕ) (s : Input) (i : ℕ)
    → s.w ≤ i
    → (s.w ≤ skip_back wanted n s i) × (skip_back wanted n s i ≤ i)
unfolding skip_back
skip_back_bounds wanted zero s i h = omega arith
skip_back_bounds wanted (suc n) s i h =
    elim (Bool-cases
      (ltb s.w i && (if wanted then is_space s (sub32 i 1) else not (is_space s (sub32 i 1))))) [
        | inl t ↦
            let r = skip_back_bounds wanted n s (i - 1) (ground arith) in
            rw t (omega (arith, r.0), omega (arith, r.1))
        | inr t ↦ rw t (omega arith)
      ]

-- The cursor's move to the word before stays in the line and does not go forward.
pub prev_word_pos_bounds :
    (s : Input) → s.w ≤ s.cursor → (s.w ≤ prev_word_pos s) × (prev_word_pos s ≤ s.cursor)
unfolding prev_word_pos
prev_word_pos_bounds s h =
    elim (Bool-cases (((s.cursor == s.w) || is_space s (sub32 s.cursor 1)) && ltb s.w s.cursor)) [
      | inl t ↦
          let n = s.cursor - s.w in
          let a = skip_back_bounds true n s (s.cursor - 1) (ground arith) in
          let b = skip_back_bounds false n s (skip_back true n s (s.cursor - 1)) a.0 in
          rw t (b.0, omega (arith, a.1, b.1))
      | inr t ↦ rw t (skip_back_bounds false (s.cursor - s.w) s s.cursor h)
    ]
