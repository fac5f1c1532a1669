-- ===== src/Tokenizer/Bounds/Punctuation.antt =====
-- The lexers of operators, scopes and punctuation are sound.
use cand_lang_proto.Base.{
  ℕ, ◌+◌, ◌≤◌, ◌<◌, ◌≡◌, ◌≢◌, refl, arith, length, ◌==◌, if◌then◌else◌, Option, none, some,
}
use cand_lang_proto.Syntax.TokenKind.{ETk}
use cand_lang_proto.Syntax.Keywords.{ellipsis}
use cand_lang_proto.Tokenizer.Cursor.{Text, get, find_forward}
use cand_lang_proto.Tokenizer.Operators.{
  operator_at, result_of, lex_operator, scope_at, lex_scopes, lex_eos, lex_comma, lex_period,
}
use cand_lang_proto.Tokenizer.Scan.{get-lt, peek_lem, find_forward-slice}
use cand_lang_proto.Tokenizer.Sound.{Sound, Sound-result, Sound-none}

operator_at_bounds :
    (src : Text) (it : ℕ) {kind : ETk} {n : ℕ}
    → operator_at (get src it) (get src (it + 1)) (get src (it + 2)) ≡ some (kind, n)
    → (0 < n) × (it + n ≤ length src) × (kind ≢ ETk.none_)
unfolding operator_at
operator_at_bounds src it e =
    ground (arith, get-lt src it, get-lt src (it + 1), get-lt src (it + 2))

result_of-Sound :
    (src : Text) (it : ℕ) (found : Option (ETk × ℕ))
    → ((kind : ETk) (n : ℕ)
        → found ≡ some (kind, n)
        → (0 < n) × (it + n ≤ length src) × (kind ≢ ETk.none_))
    → Sound src it (some (result_of src it found))
unfolding result_of
result_of-Sound src it none bounds = Sound-none src it
result_of-Sound src it (some (kind, n)) bounds =
    let (pos, inside, ne) = bounds kind n refl in
    Sound-result src it kind (it + n) ne (omega (arith, pos)) inside

pub lex_operator-Sound : (src : Text) (it : ℕ) → Sound src it (lex_operator src it)
unfolding lex_operator
lex_operator-Sound src it =
    rw (peek_lem src it 1, peek_lem src it 2)
      (result_of-Sound src it _ (λ kind n e. operator_at_bounds src it e))

scope_at_bounds :
    (src : Text) (it : ℕ) {kind : ETk} {n : ℕ}
    → it < length src
    → scope_at (get src it) ≡ some (kind, n)
    → (0 < n) × (it + n ≤ length src) × (kind ≢ ETk.none_)
unfolding scope_at
scope_at_bounds src it h e = ground arith

pub lex_scopes-Sound : (src : Text) (it : ℕ) → it < length src → Sound src it (lex_scopes src it)
unfolding lex_scopes
lex_scopes-Sound src it h =
    result_of-Sound src it (scope_at (get src it)) (λ kind n e. scope_at_bounds src it h e)

pub lex_eos-Sound : (src : Text) (it : ℕ) → it < length src → Sound src it (lex_eos src it)
unfolding lex_eos
lex_eos-Sound src it h =
    result_of-Sound src it (if get src it == b';' then some (ETk.semicolon_, 1) else none)
      (λ kind n e. ground arith)

pub lex_comma-Sound : (src : Text) (it : ℕ) → it < length src → Sound src it (lex_comma src it)
unfolding lex_comma
lex_comma-Sound src it h =
    result_of-Sound src it (if get src it == b',' then some (ETk.comma_, 1) else none)
      (λ kind n e. ground arith)

pub lex_period-Sound : (src : Text) (it : ℕ) → it < length src → Sound src it (lex_period src it)
unfolding lex_period
lex_period-Sound src it h =
    result_of-Sound src it
      (if find_forward src it ellipsis
        then some (ETk.ellipsis_, 3)
        else if get src it == b'.'
        then some (ETk.period_, 1)
        else none)
      (λ kind n e. ground (arith, find_forward-slice src it ellipsis))
