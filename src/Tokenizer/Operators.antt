-- ===== src/Tokenizer/Operators.antt =====
-- Candi_Compiler/tokenizer.hpp, the lexers of operators, scopes and punctuation.
use cand_lang_proto.Base.{ℕ, ◌+◌, ◌||◌, Option, none, some, ◌==◌, if◌then◌else◌}
use cand_lang_proto.Syntax.Keywords.{ellipsis}
use cand_lang_proto.Syntax.TokenKind.{ETk}
use cand_lang_proto.Tokenizer.Cursor.{
  Text, LexResult, get, peek, find_forward, make_result, make_none_result,
}
use cand_lang_proto.Tokenizer.Lexers.{Lexer}

-- The operators that start with `&`, `|`, `^`, by the next byte.
abbrev pub bitwise_at : ℕ → ℕ → Option (ETk × ℕ)
bitwise_at c0 c1 =
    if c0 == b'&'
    then (if c1 == b'='
        then some (ETk.bitwise_and_assignment_, 2)
        else if c1 == b'&'
        then some (ETk.logical_and_, 2)
        else some (ETk.bitwise_and_, 1))
    else if c0 == b'|'
    then (if c1 == b'='
        then some (ETk.bitwise_or_assignment_, 2)
        else if c1 == b'|'
        then some (ETk.logical_or_, 2)
        else some (ETk.bitwise_or_, 1))
    else if c0 == b'^'
    then (if c1 == b'=' then some (ETk.bitwise_xor_assignment_, 2) else some (ETk.bitwise_xor_, 1))
    else none

-- Those that start with `<`, by the two next bytes.
abbrev pub less_at : ℕ → ℕ → ETk × ℕ
less_at c1 c2 =
    if c1 == b'<'
    then (if c2 == b'=' then (ETk.left_shift_assignment_, 3) else (ETk.bitwise_left_shift_, 2))
    else if c1 == b'='
    then (if c2 == b'>' then (ETk.three_way_comparison_, 3) else (ETk.less_than_or_equal_, 2))
    else (ETk.less_than_, 1)

abbrev pub greater_at : ℕ → ℕ → ETk × ℕ
greater_at c1 c2 =
    if c1 == b'>'
    then (if c2 == b'=' then (ETk.right_shift_assignment_, 3) else (ETk.bitwise_right_shift_, 2))
    else if c1 == b'='
    then (ETk.greater_than_or_equal_, 2)
    else (ETk.greater_than_, 1)

-- The branches of `lex_operator`: by `get(it)`, `peek(it, 1)` and `peek(it, 2)`, the kind and the
-- number of bytes advanced over.
unfoldable pub operator_at : ℕ → ℕ → ℕ → Option (ETk × ℕ)
operator_at c0 c1 c2 =
    if c0 == b'='
    then (if c1 == b'=' then some (ETk.equal_, 2) else some (ETk.simple_assignment_, 1))
    else if c0 == b'+'
    then (if c1 == b'+'
        then some (ETk.increment_, 2)
        else if c1 == b'='
        then some (ETk.addition_assignment_, 2)
        else some (ETk.addition_, 1))
    else if c0 == b'-'
    then (if c1 == b'-'
        then some (ETk.decrement_, 2)
        else if c1 == b'='
        then some (ETk.subtraction_assignment_, 2)
        else some (ETk.subtraction_, 1))
    else if c0 == b'*'
    then (if c1 == b'='
        then some (ETk.multiplication_assignment_, 2)
        else some (ETk.multiplication_, 1))
    else if c0 == b'/'
    then (if c1 == b'=' then some (ETk.division_assignment_, 2) else some (ETk.division_, 1))
    else if c0 == b'%'
    then (if c1 == b'=' then some (ETk.remainder_assignment_, 2) else some (ETk.remainder_, 1))
    else if c0 == b'&' || c0 == b'|' || c0 == b'^'
    then bitwise_at c0 c1
    else if c0 == b'<'
    then some (less_at c1 c2)
    else if c0 == b'>'
    then some (greater_at c1 c2)
    else if c0 == b'!'
    then (if c1 == b'=' then some (ETk.not_equal_, 2) else some (ETk.negation_, 1))
    else if c0 == b'~'
    then some (ETk.bitwise_not_, 1)
    else if c0 == b'@'
    then some (ETk.commerical_at_, 1)
    else none

-- `advance(it, n); return make_result(kind, begin, it);`, or the result that nothing matched.
unfoldable pub result_of : Text → ℕ → Option (ETk × ℕ) → LexResult
result_of src it none = make_none_result src it
result_of src it (some (kind, n)) = make_result src kind it (it + n)

unfoldable pub lex_operator : Lexer
lex_operator src it =
    some (result_of src it (operator_at (get src it) (peek src it 1) (peek src it 2)))

unfoldable pub scope_at : ℕ → Option (ETk × ℕ)
scope_at c =
    if c == b'('
    then some (ETk.open_paren_, 1)
    else if c == b')'
    then some (ETk.close_paren_, 1)
    else if c == b'{'
    then some (ETk.open_brace_, 1)
    else if c == b'}'
    then some (ETk.close_brace_, 1)
    else if c == b'['
    then some (ETk.open_bracket_, 1)
    else if c == b']'
    then some (ETk.close_bracket_, 1)
    else none

unfoldable pub lex_scopes : Lexer
lex_scopes src it = some (result_of src it (scope_at (get src it)))

unfoldable pub lex_eos : Lexer
lex_eos src it =
    some (result_of src it (if get src it == b';' then some (ETk.semicolon_, 1) else none))

unfoldable pub lex_comma : Lexer
lex_comma src it =
    some (result_of src it (if get src it == b',' then some (ETk.comma_, 1) else none))

unfoldable pub lex_period : Lexer
lex_period src it = some (
    result_of src it (
      if find_forward src it ellipsis
      then some (ETk.ellipsis_, 3)
      else if get src it == b'.'
      then some (ETk.period_, 1)
      else none))
