-- ===== src/Console/Keys/Paste.antt =====
-- Pasting at the cursor, and typing a character (console.c).
use os_ca.Prelude.{
  slice, slice-append, slice-eq, ℕ, ◌+◌, ◌-◌, ◌<◌, ◌≤◌, ◌≡◌, refl, ap, ◌∙◌, true, false, ◌&&◌, some,
  [], ◌∷◌, ◌++◌, arith, if◌then◌else◌, ltb, leb, ◌==◌, add32, slt32, sub32, ◌≢◌, not,
}
use os_ca.Memory.{memmove}
use os_ca.Memory.Move.{memmove_lem}
use os_ca.Console.{Console, input_buf, copy_bytes, redraw_line}
use os_ca.Console.Keys.{is_typed, type_char, paste, extend}
use os_ca.Console.Selection.{with_buf}
use os_ca.Console.Keys.Insert.{typed, typed_lem, typed-IsEditing, insert_char-typed}
use os_ca.Console.Line.{IsEditing, before, behind, move_bytes-memmove}

-- While the line ends within the buffer, typing a character (any but a carriage return, a newline and 0) puts it
-- before the cursor, and leaves the rest of the line as it was and the line well formed.
pub type_char_lem :
    (s : Console) (c pos : ℕ)
    → IsEditing s
    → s.input.e < input_buf
    → c ≢ b'\r'
    → c ≢ b'\n'
    → c ≢ 0
    → (s' : Console) × (type_char s c pos ≡ some s')
      × (before s' ≡ before s ++ c ∷ [])
      × (behind s' ≡ behind s)
      × IsEditing s'
unfolding type_char
type_char_lem s c pos v h ne nl nz =
    let start = if s.input.e == s.input.w then pos else s.input.start_pos in
    let s1 : Console = record s { input = record s.input { start_pos = start } } in
    let v1 : IsEditing s1 = record {
      starts = v.starts;
      ends = v.ends;
      fits = v.fits;
      recorded = v.recorded;
      unread = v.unread;
    } in
    let fits : (is_typed s c && not (c == b'\r')) ≡ true =
      ground (arith, v.unread, v.starts, v.ends) in
    let p = typed_lem s1 c v1 h in
    let t = typed-IsEditing s1 c v1 h in
    (
      redraw_line (typed s1 c),
      rw (fits, insert_char-typed s1 c v1 h) refl,
      p.0,
      p.1,
      record {
        starts = t.starts;
        ends = t.ends;
        fits = t.fits;
        recorded = t.recorded;
        unread = t.unread;
      },
    )

-- The buffer with the first `n` bytes of the clipboard pasted at `at` into a line that ends at `e`.
abbrev pub parted : (ℕ → ℕ) → ℕ → ℕ → ℕ → ℕ → ℕ
parted buf at e n = memmove buf (at + n) at (e - at)

abbrev pub filled : (ℕ → ℕ) → ℕ → ℕ → (ℕ → ℕ) → ℕ → ℕ → ℕ
filled buf at e clip n i =
    if leb at i && ltb i (at + n) then clip (0 + sub32 i at) else parted buf at e n i

copy_bytes-filled :
    (buf : ℕ → ℕ) (at e : ℕ) (clip : ℕ → ℕ) (n : ℕ)
    → 0 < n
    → at + n ≤ input_buf
    → copy_bytes (parted buf at e n) at clip 0 n ≡ some (filled buf at e clip n)
unfolding copy_bytes
copy_bytes-filled buf at e clip n p h =
    let a : n == 0 ≡ false = ground arith in
    let b : (leb (at + n) input_buf && leb (0 + n) input_buf) ≡ true = ground arith in
    rw (a, b) refl

module _ (buf : ℕ → ℕ) (at e : ℕ) (clip : ℕ → ℕ) (n : ℕ) (small : at + n ≤ input_buf)
    (l : at ≤ e) where
  filled_below : (i : ℕ) → i < at → filled buf at e clip n i ≡ buf i
  filled_below i h = ground (arith, memmove_lem buf (at + n) at (e - at) i)

  filled_mid : (i : ℕ) → i < n → filled buf at e clip n (at + i) ≡ clip (0 + i)
  filled_mid i h =
      let inside : (leb at (at + i) && ltb (at + i) (at + n)) ≡ true = ground arith in
      let x : sub32 (at + i) at ≡ i = omega arith in rw (inside, x) refl

  filled_above : (i : ℕ) → i < e - at → filled buf at e clip n (at + n + i) ≡ buf (at + i)
  filled_above i h =
      let x : at + (at + n + i - (at + n)) ≡ at + i = omega arith in
      ground (arith, memmove_lem buf (at + n) at (e - at) (at + n + i), ap buf x)

abbrev pub pasted : Console → Console
pasted s = redraw_line (
    extend (with_buf s (filled s.input.buf s.input.cursor s.input.e s.clipboard s.clipboard_len))
      s.clipboard_len)

pub paste-pasted :
    (s : Console)
    → IsEditing s
    → 0 < s.clipboard_len
    → s.input.e + s.clipboard_len < input_buf
    → paste s ≡ some (pasted s)
unfolding paste
paste-pasted s v p h =
    let room : (slt32 0 s.clipboard_len && ltb (add32 s.input.e s.clipboard_len) input_buf) ≡ true =
      ground arith in
    let n : sub32 s.input.e s.input.cursor ≡ s.input.e - s.input.cursor =
      omega (arith, v.ends, v.fits) in
    let moved =
      move_bytes-memmove s.input.buf (s.input.cursor + s.clipboard_len) s.input.cursor
        (s.input.e - s.input.cursor) (omega (arith, v.ends)) (omega (arith, v.ends)) in
    let copied =
      copy_bytes-filled s.input.buf s.input.cursor s.input.e s.clipboard s.clipboard_len p
        (omega (arith, v.ends)) in
    rw (room, n, moved, copied) refl

pub pasted-IsEditing :
    (s : Console) → IsEditing s → s.input.e + s.clipboard_len < input_buf → IsEditing (pasted s)
pasted-IsEditing s v h = record {
  starts = omega (arith, v.starts, v.ends);
  ends = omega (arith, v.ends);
  fits = omega arith;
  recorded = v.recorded;
  unread = v.unread;
}

-- Pasting puts the clipboard before the cursor and leaves the rest of the line as it was and the line
-- well formed, if the clipboard is not empty and the line still ends within the buffer; otherwise it
-- changes nothing.
pub paste_lem :
    (s : Console)
    → IsEditing s
    → s.clipboard_len ≤ input_buf
    → ((s.clipboard_len ≡ 0 → paste s ≡ some s)
        × (input_buf ≤ s.input.e + s.clipboard_len → paste s ≡ some s)
        × (0 < s.clipboard_len
            → s.input.e + s.clipboard_len < input_buf
            → (s' : Console) × (paste s ≡ some s')
              × (before s' ≡ before s ++ slice s.clipboard 0 s.clipboard_len)
              × (behind s' ≡ behind s)
              × IsEditing s'))
unfolding paste
paste_lem s v k = (
  λ e. ground (arith, e),
  λ l. ground (arith, v.fits),
  λ p h.
      let at = s.input.cursor in
      let n = s.clipboard_len in
      let x : add32 at n ≡ at + n = omega (arith, v.ends) in
      let y : add32 s.input.e n ≡ s.input.e + n = omega arith in
      let len : at + n - s.input.w ≡ at - s.input.w + n = omega (arith, v.starts) in
      let mid : s.input.w + (at - s.input.w) ≡ at = omega (arith, v.starts) in
      let len' : s.input.e + n - (at + n) ≡ s.input.e - at = omega (arith, v.ends) in
      let buf' = filled s.input.buf at s.input.e s.clipboard n in
      (
        pasted s,
        paste-pasted s v p h,
        rw x (
            ap (slice buf' s.input.w) len
            ∙ slice-append buf' s.input.w (at - s.input.w) n
            ∙ ap (λ (q : ℕ). slice buf' s.input.w (at - s.input.w) ++ slice buf' q n) mid
            ∙ cc (
              slice-eq buf' s.input.buf s.input.w s.input.w (at - s.input.w) (λ i u.
                  filled_below s.input.buf at s.input.e s.clipboard n (omega (arith, v.ends)) v.ends
                    (s.input.w + i) (omega arith)),
              slice-eq buf' s.clipboard at 0 n (
                  filled_mid s.input.buf at s.input.e s.clipboard n (omega (arith, v.ends)) v.ends),
            )),
        rw (x, y)
            (ap (slice buf' (at + n)) len'
              ∙ slice-eq buf' s.input.buf (at + n) at (s.input.e - at) (
                  filled_above s.input.buf at s.input.e s.clipboard n (omega (arith, v.ends))
                    v.ends)),
        pasted-IsEditing s v h,
      ),
)
