-- ===== src/Tokenizer/Columns.antt =====
-- What `current_col` counts: the bytes of the token itself, from the last line that starts in it.
use cand_lang_proto.Base.{
  ℕ, zero, suc, ◌+◌, ◌-◌, ◌≤◌, ◌<◌, false, ◌≡◌, ◌≢◌, ◌⊎◌, inl, inr, arith, length, ◌==◌,
}
use cand_lang_proto.Tokenizer.Cursor.{Text, get}
use cand_lang_proto.Tokenizer.Run.{count_newlines, find_last_newline, column}

no_newline :
    (src : Text) (it n j : ℕ)
    → count_newlines src it n ≡ 0
    → j < n
    → (get src (it + j) == b'\n') ≡ false
unfolding count_newlines
no_newline src it zero j e h = absurd (omega arith)
no_newline src it (suc n) zero e h = let at : it + 0 ≡ it = omega arith in rw at (ground arith)
no_newline src it (suc n) (suc j) e h =
    let at : it + suc j ≡ it + 1 + j = omega arith in
    rw at (no_newline src (it + 1) n j (omega arith) (omega arith))

-- Where the last line that starts in a token starts: at the token's first byte, or behind a newline.
abbrev pub StartsLine : Text → ℕ → ℕ → Type 0
StartsLine src it line_start =
    (line_start ≡ it) ⊎ ((q : ℕ) × (line_start ≡ q + 1) × (it ≤ q) × (get src q ≡ b'\n'))

find_last_newline_at :
    (src : Text) (it k line_start : ℕ)
    → it + k ≡ line_start
    → StartsLine src it line_start
    → find_last_newline src it k ≡ line_start
unfolding find_last_newline
find_last_newline_at src it zero line_start e s = omega arith
find_last_newline_at src it (suc k) line_start e (inl same) = absurd (omega arith)
find_last_newline_at src it (suc k) line_start e (inr (q, f, h, newline)) =
    let at : it + k ≡ q = omega arith in rw (at, newline) (omega arith)

find_last_newline_lem :
    (src : Text) (it k m line_start : ℕ)
    → it + k ≡ line_start
    → StartsLine src it line_start
    → ((j : ℕ) → j < m → (get src (line_start + j) == b'\n') ≡ false)
    → find_last_newline src it (k + m) ≡ line_start
unfolding find_last_newline
find_last_newline_lem src it k zero line_start e s none_later =
    let all : k + 0 ≡ k = omega arith in rw all (find_last_newline_at src it k line_start e s)
find_last_newline_lem src it k (suc m) line_start e s none_later =
    let more : k + suc m ≡ suc (k + m) = omega arith in
    let at : it + (k + m) ≡ line_start + m = omega arith in
    rw (more, find_last_newline)
      (rw (at, none_later m (omega arith))
        (find_last_newline_lem src it k m line_start e s (λ j h. none_later j (omega arith))))

-- A token's column is the number of its bytes behind the start of its last line, unless that start
-- is the end of the text. In particular a token on one line has its own length for a column.
pub column_lem :
    (src : Text) (it line_start end : ℕ)
    → it ≤ line_start
    → line_start ≤ end
    → line_start ≢ length src
    → StartsLine src it line_start
    → count_newlines src line_start (end - line_start) ≡ 0
    → column src it end ≡ end - line_start
unfolding column
column_lem src it line_start end h k ne s e =
    let split : end - it ≡ (line_start - it) + (end - line_start) = omega arith in
    rw
      (
        split,
        find_last_newline_lem src it (line_start - it) (end - line_start) line_start (omega arith) s
            (λ j l. no_newline src line_start (end - line_start) j e l),
      )
      (ground arith)
