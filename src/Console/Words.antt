-- ===== src/Console/Words.antt =====
-- The moves of the cursor by words in consoleintr (console.c). Each loop has as many rounds as there
-- are places between the cursor and the end of the line that it moves to, so no fuel can run out.
pub mod Stops
use os_ca.Prelude.{
  ℕ, zero, suc, ◌+◌, ◌-◌, ◌%◌, Bool, true, false, ◌&&◌, ◌||◌, not, if◌then◌else◌, ltb, ◌==◌, sub32,
}
use os_ca.Console.{Input, input_buf}

abbrev pub is_space : Input → ℕ → Bool
is_space s i = s.buf (i % input_buf) == b' '

-- `while(next < input.e && (input.buf[next % INPUT_BUF] == ' ') == wanted) next++;`
pub skip_forward : Bool → ℕ → Input → ℕ → ℕ
skip_forward wanted zero s next = next
skip_forward wanted (suc n) s next =
    let rest = skip_forward wanted n s (next + 1) in
    let here = if wanted then is_space s next else not (is_space s next) in
    if ltb next s.e && here then rest else next

-- case C('D'): over blanks, over a word, and over blanks.
unfoldable pub next_word_pos : Input → ℕ
unfolding skip_forward
next_word_pos s =
    let rounds = s.e - s.cursor in
    let a = skip_forward true rounds s s.cursor in
    let b = skip_forward false rounds s a in skip_forward true rounds s b

-- `while(i > input.w && (input.buf[(i - 1) % INPUT_BUF] == ' ') == wanted) i--;`
pub skip_back : Bool → ℕ → Input → ℕ → ℕ
skip_back wanted zero s i = i
skip_back wanted (suc n) s i =
    let rest = skip_back wanted n s (i - 1) in
    let before = is_space s (sub32 i 1) in
    let here = if wanted then before else not before in if ltb s.w i && here then rest else i

-- case C('A'): the start of the word, or of the word before.
pub prev_word_pos : Input → ℕ
unfolding skip_back
prev_word_pos s =
    let i = s.cursor in
    let at_boundary = (i == s.w) || is_space s (sub32 i 1) in
    let rounds = i - s.w in
    let j = if at_boundary && ltb s.w i then skip_back true rounds s (i - 1) else i in
    skip_back false rounds s j
