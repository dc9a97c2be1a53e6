-- ===== src/Console/Keys/Moves.antt =====
-- The cursor's move to the next word (console.c).
use os_ca.Prelude.{ℕ, ◌-◌, ◌<◌, ◌≤◌, ◌≡◌, refl, Bool, true, false, not, arith, ltb}
use os_ca.Console.{Console, Input}
use os_ca.Console.Words.{is_space, skip_forward, next_word_pos}
use os_ca.Console.Words.Stops.{Skipped, skip_forward-Skipped}
use os_ca.Console.Keys.{word_right}

-- The places from `from` to below `to` are those of one kind: the run ends at the end of the line, or at a byte of
-- the other kind.
pub record IsRun (blank : Bool) (s : Input) (from to : ℕ) : Type 0 where
  pub forward : from ≤ to
  pub inside : to ≤ s.e
  pub all : (i : ℕ) → from ≤ i → i < to → is_space s i ≡ blank
  pub maximal : to < s.e → is_space s to ≡ not blank

blank-IsRun : {s : Input} {from to : ℕ} → Skipped true s from to → IsRun true s from to
blank-IsRun r = record {
  forward = r.above;
  inside = r.below;
  all = r.over;
  maximal = λ h. ground (arith, r.stop);
}

word-IsRun : {s : Input} {from to : ℕ} → Skipped false s from to → IsRun false s from to
word-IsRun r = record {
  forward = r.above;
  inside = r.below;
  all = λ i l h. ground (arith, r.over i l h);
  maximal = λ h. ground (arith, r.stop);
}

-- The move to the next word passes the longest run of blanks from the cursor on, then the longest run of other
-- characters, then the longest run of blanks; the loops have rounds enough to get there. If this is a place before
-- the end of the line, the cursor goes there; if it is the end, nothing changes.
pub word_right_lem :
    (s : Console)
    → s.input.cursor ≤ s.input.e
    → (a : ℕ) × (b : ℕ) × (to : ℕ) × IsRun true s.input s.input.cursor a
      × IsRun false s.input a b
      × IsRun true s.input b to
      × (to < s.input.e → word_right s ≡ record s { input = record s.input { cursor = to } })
      × (to ≡ s.input.e → word_right s ≡ s)
unfolding next_word_pos
word_right_lem s h =
    let n = s.input.e - s.input.cursor in
    let a = skip_forward true n s.input s.input.cursor in
    let p = skip_forward-Skipped true n s.input s.input.cursor h (omega arith) in
    let b = skip_forward false n s.input a in
    let q = skip_forward-Skipped false n s.input a p.below (omega (arith, p.above)) in
    let to = skip_forward true n s.input b in
    let r = skip_forward-Skipped true n s.input b q.below (omega (arith, p.above, q.above)) in
    (
      a,
      b,
      to,
      blank-IsRun p,
      word-IsRun q,
      blank-IsRun r,
      λ l. let inside : ltb to s.input.e ≡ true = ground arith in rw inside refl,
      λ e. let outside : ltb to s.input.e ≡ false = ground arith in rw outside refl,
    )
