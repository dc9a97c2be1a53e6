-- ===== src/Console/Line.antt =====
-- The line that is edited in console.c as the bytes before the cursor and those behind it.
use os_ca.Prelude.{slice, ℕ, zero, suc, ◌+◌, ◌-◌, ◌≤◌, ◌≡◌, ap, sym, some, List, arith}
use os_ca.Memory.{memmove}
use os_ca.Memory.Move.{memmove-zero}
use os_ca.Console.{Console, input_buf, history_size, move_bytes}

-- No index of the line is past the buffer, so that `% INPUT_BUF` changes none.
pub record IsEditing (s : Console) : Type 0 where
  pub starts : s.input.w ≤ s.input.cursor
  pub ends : s.input.cursor ≤ s.input.e
  pub fits : s.input.e ≤ input_buf
  pub recorded : s.history_pos ≤ history_size
  pub unread : s.input.r ≤ s.input.w

abbrev pub before : Console → List ℕ
before s = slice s.input.buf s.input.w (s.input.cursor - s.input.w)

abbrev pub behind : Console → List ℕ
behind s = slice s.input.buf s.input.cursor (s.input.e - s.input.cursor)

-- A memmove within the buffer.
pub move_bytes-memmove :
    (buf : ℕ → ℕ) (dst src n : ℕ)
    → dst + n ≤ input_buf
    → src + n ≤ input_buf
    → move_bytes buf dst src n ≡ some (memmove buf dst src n)
unfolding move_bytes
move_bytes-memmove buf dst src zero h h' =
    ap (λ (b : ℕ → ℕ). some b) (sym (memmove-zero buf dst src))
move_bytes-memmove buf dst src (suc n) h h' = ground arith
