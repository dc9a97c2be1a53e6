-- ===== src/Console/Read/Handover.antt =====
-- A line from the editor of console.c to its reader.
use os_ca.Prelude.{
  slice, slice-append, slice-eq, slice-snoc, ℕ, zero, suc, ◌+◌, ◌-◌, ◌%◌, ◌^◌, ◌<◌, ◌≤◌, ◌≡◌, refl,
  ap, sym, ◌∙◌, ◌≢◌, Bool, List, [], ◌∷◌, ◌++◌, arith, length, add32, sub32, update, ==-of_ne,
}
use os_ca.Console.{Input, Console, input_buf}
use os_ca.Console.Line.{IsEditing, before, behind}
use os_ca.Console.Keys.{enter}
use os_ca.Console.Read.{returned, advance, consoleread}
use os_ca.Console.Read.Lines.{ring, pending, AllPlain, pending-advance, pending-empty}

ring-slice : (buf : ℕ → ℕ) (r n : ℕ) → r + n ≤ input_buf → ring buf r n ≡ slice buf r n
ring-slice buf r zero h = refl
ring-slice buf r (suc n) h =
    let at : r % input_buf ≡ r = omega arith in
    let next : add32 r 1 ≡ r + 1 = omega arith in
    rw (at, next, ring-slice buf (r + 1) n (omega arith)) refl

module _ (s : Console) (v : IsEditing s) (h : s.input.e < input_buf) where
  -- The buffer with the newline that Enter puts in.
  ended : ℕ → ℕ
  ended = update s.input.buf (s.input.e % input_buf) b'\n'

  ended-slice :
      slice ended s.input.w (s.input.e - s.input.w + 1)
      ≡ slice s.input.buf s.input.w (s.input.e - s.input.w) ++ b'\n' ∷ []
  unfolding ended
  ended-slice =
      let n = s.input.e - s.input.w in
      let old : slice ended s.input.w n ≡ slice s.input.buf s.input.w n =
        slice-eq ended s.input.buf s.input.w s.input.w n (λ i l. ground arith) in
      let last : ended (s.input.w + n) ≡ b'\n' = ground (arith, v.starts, v.ends) in
      slice-snoc ended s.input.w n ∙ rw (old, last) refl

  line-slice : slice s.input.buf s.input.w (s.input.e - s.input.w) ≡ before s ++ behind s
  line-slice =
      let parts : s.input.e - s.input.w
          ≡ (s.input.cursor - s.input.w) + (s.input.e - s.input.cursor) =
        omega (arith, v.starts, v.ends) in
      let middle : s.input.w + (s.input.cursor - s.input.w) ≡ s.input.cursor =
        omega (arith, v.starts) in
      ap (slice s.input.buf s.input.w) parts
      ∙ slice-append s.input.buf s.input.w (s.input.cursor - s.input.w) (s.input.e - s.input.cursor)
      ∙ rw middle refl

  -- Enter hands over the line and a newline behind it.
  pub pending-enter :
      s.input.r ≡ s.input.w → pending (enter s).input ≡ (before s ++ behind s) ++ b'\n' ∷ []
  unfolding ended
  pending-enter e =
      let n : sub32 (add32 s.input.e 1) s.input.r ≡ s.input.e - s.input.w + 1 =
        omega (arith, v.starts, v.ends, v.unread) in
      ap (ring ended s.input.r) n
      ∙ ring-slice ended s.input.r (s.input.e - s.input.w + 1) (omega (arith, v.starts, v.ends))
      ∙ ap (λ x. slice ended x (s.input.e - s.input.w + 1)) e
      ∙ ended-slice
      ∙ ap (λ (l : List ℕ). l ++ b'\n' ∷ []) line-slice

pending-cons :
    (s : Input) (y : ℕ) (zs : List ℕ)
    → s.r < 2 ^ 32
    → s.w < 2 ^ 32
    → pending s ≡ y ∷ zs
    → (s.r ≢ s.w) × (s.buf (s.r % input_buf) ≡ y) × (pending (advance s) ≡ zs)
pending-cons s y zs h h' e =
    let more : s.r ≢ s.w =
      λ d. let none_left = sym (pending-empty s d h') ∙ e in absurd (ground (arith, none_left)) in
    let both : s.buf (s.r % input_buf) ∷ pending (advance s) ≡ y ∷ zs =
      sym (pending-advance s h h' more) ∙ e in
    (more, ground (arith, both), ground (arith, both))

consoleread-line :
    (ys : List ℕ) (n target : ℕ) (killed : Bool) (s : Input)
    → s.r < 2 ^ 32
    → s.w < 2 ^ 32
    → AllPlain ys
    → pending s ≡ ys ++ b'\n' ∷ []
    → length ys < n
    → (s' : Input) × (consoleread target killed s n ≡ returned s' (ys ++ b'\n' ∷ []))
      × (pending s' ≡ [])
unfolding consoleread
consoleread-line ys zero target killed s h h' p e l = absurd (omega arith)
consoleread-line [] (suc n) target killed s h h' p e l =
    let (more, first, rest) = pending-cons s b'\n' [] h h' e in
    rw (==-of_ne more, first) (advance s, refl, rest)
consoleread-line (y ∷ ys) (suc n) target killed s h h' (a, b, p) e l =
    let (more, first, rest) = pending-cons s y (ys ++ b'\n' ∷ []) h h' e in
    let (s', r, none_left) =
      consoleread-line ys n target killed (advance s) (omega arith) h' p rest (omega arith) in
    rw (==-of_ne more, first, ==-of_ne b, ==-of_ne a, r) (s', refl, none_left)

-- A line that is typed to its end and handed over by Enter, while the reader has read all before it, is
-- what consoleread returns, with the newline and nothing behind it: one pass does it when the caller has
-- room for the line and the newline, and nothing is left pending. The line must hold neither a newline
-- nor a Ctrl-D.
pub consoleread-enter :
    (s : Console) (n target : ℕ) (killed : Bool)
    → IsEditing s
    → s.input.e < input_buf
    → s.input.r ≡ s.input.w
    → AllPlain (before s ++ behind s)
    → length (before s ++ behind s) < n
    → (s' : Input) × (consoleread target killed (enter s).input n
        ≡ returned s' ((before s ++ behind s) ++ b'\n' ∷ []))
      × (pending s' ≡ [])
consoleread-enter s n target killed v h e p l =
    consoleread-line (before s ++ behind s) n target killed (enter s).input
      (omega (arith, e, v.starts, v.ends)) (omega arith) p (pending-enter s v h e) l
