-- ===== src/Console/Keys/Undo.antt =====
-- Undoing what was typed last (console.c).
use os_ca.Prelude.{
  slice-eq, ℕ, ◌+◌, ◌-◌, ◌<◌, ◌≡◌, refl, ◌∙◌, ◌^◌, true, ◌&&◌, some, arith, if◌then◌else◌, ltb,
  ◌==◌, add32, sub32, ◌>>=◌, ◌≢◌, not,
}
use os_ca.Console.{Console, input_buf, history_size}
use os_ca.Console.Keys.{undo, is_typed, type_char}
use os_ca.Console.Keys.Insert.{
  Inserted-opened, typed, insert_char-typed, typed-IsEditing, slice-Inserted_behind,
}
use os_ca.Console.Keys.Delete.{erased, undo_at-erased, erased_lem}
use os_ca.Console.Line.{IsEditing, before, behind}

-- Two states of the editor with the same line, cursor and history.
pub record SameLine (s s' : Console) : Type 0 where
  pub before_cursor : before s' ≡ before s
  pub behind_cursor : behind s' ≡ behind s
  pub cursor : s'.input.cursor ≡ s.input.cursor
  pub end : s'.input.e ≡ s.input.e
  pub history_pos : s'.history_pos ≡ s.history_pos
  pub history : (i : ℕ) → i < s.history_pos → s'.history i ≡ s.history i

-- The state of a line after typing, with its length as redraw_line has recorded it, and that state
-- once undo has taken the last entry off the history.
abbrev drawn : Console → ℕ → ℕ → Console
drawn s c len = record (typed s c) { prev_line_len = len }

abbrev popped : Console → ℕ → ℕ → Console
popped s c len = record (drawn s c len) { history_pos = s.history_pos }

undo-drawn :
    (s : Console) (c len : ℕ)
    → IsEditing s
    → s.input.e < input_buf
    → s.history_pos < history_size
    → undo (drawn s c len) ≡ some (erased (popped s c len) s.input.cursor)
unfolding undo
undo-drawn s c len v h room =
    let top : sub32 (typed s c).history_pos 1 ≡ s.history_pos = ground arith in
    let more : ltb 0 (typed s c).history_pos ≡ true = ground arith in
    let last : (typed s c).history s.history_pos ≡ s.input.cursor = ground arith in
    rw (more, top, last)
      (undo_at-erased (popped s c len) s.input.cursor (omega (arith, v.ends)) (omega arith))

erased-SameLine :
    (s : Console) (c len : ℕ)
    → IsEditing s
    → s.input.e < input_buf
    → s.history_pos < history_size
    → ((i : ℕ) → i < s.history_pos → s.history i < 2 ^ 32 - 1)
    → SameLine s (erased (popped s c len) s.input.cursor)
erased-SameLine s c len v h room small =
    let at = s.input.cursor in
    let ins = Inserted-opened s.input.buf at s.input.e c v.ends h in
    let u = popped s c len in
    let v' : IsEditing u = record {
      starts = (typed-IsEditing s c v h).starts;
      ends = (typed-IsEditing s c v h).ends;
      fits = (typed-IsEditing s c v h).fits;
      recorded = v.recorded;
      unread = v.unread;
    } in
    let p = erased_lem u at v' v.starts (omega (arith, v.ends)) in
    let y : add32 s.input.e 1 ≡ s.input.e + 1 = omega arith in
    record {
      before_cursor =
          p.0
          ∙ slice-eq u.input.buf s.input.buf s.input.w s.input.w (at - s.input.w)
              (λ i k. ins.below (s.input.w + i) (omega (arith, v.starts)));
      behind_cursor = p.1 ∙ rw y (slice-Inserted_behind v.starts v.ends ins);
      cursor = refl;
      end = omega arith;
      history_pos = refl;
      history = λ i k. ground (arith, small i k);
    }

-- While there is room for one more character in the buffer and in the history, and each place in the history is
-- below 2 ^ 32 - 1, undo right after typing a character (any but a carriage return, a newline and 0)
-- brings back the line, the cursor and the history as they were.
pub undo-type_char :
    (s : Console) (c pos : ℕ)
    → IsEditing s
    → s.input.e < input_buf
    → s.history_pos < history_size
    → ((i : ℕ) → i < s.history_pos → s.history i < 2 ^ 32 - 1)
    → c ≢ b'\r'
    → c ≢ b'\n'
    → c ≢ 0
    → (s' : Console) × ((type_char s c pos >>= undo) ≡ some s') × SameLine s s'
unfolding type_char
undo-type_char s c pos v h room small ne nl nz =
    let start = if s.input.e == s.input.w then pos else s.input.start_pos in
    let s1 : Console = record s { input = record s.input { start_pos = start } } in
    let v1 : IsEditing s1 = record {
      starts = v.starts;
      ends = v.ends;
      fits = v.fits;
      recorded = v.recorded;
      unread = v.unread;
    } in
    let fits : (is_typed s c && not (c == b'\r')) ≡ true =
      ground (arith, v.unread, v.starts, v.ends) in
    let len = sub32 (add32 s.input.e 1) s.input.w in
    let q = erased-SameLine s1 c len v1 h room small in
    (
      erased (popped s1 c len) s.input.cursor,
      rw (fits, insert_char-typed s1 c v1 h) (undo-drawn s1 c len v1 h room),
      record {
        before_cursor = q.before_cursor;
        behind_cursor = q.behind_cursor;
        cursor = q.cursor;
        end = q.end;
        history_pos = q.history_pos;
        history = q.history;
      },
    )
