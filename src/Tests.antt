-- ===== src/Tests.antt =====
-- The models run on small inputs, and the theorems at inputs that meet their hypotheses.
mod Scopes
mod Evaluator
mod Expression
mod Legacy
use cand_lang_proto.Base.{
  length, take, some, if◌then◌else◌, ◌++◌, ℕ, zero, suc, ◌≤◌, ◌&&◌, ◌||◌, not, ◌==◌, true, false,
  none, List, [], ◌∷◌, ◌≡◌, ◌≢◌, ◌↔◌, refl, bytes, arith, inl,
}
use cand_lang_proto.Chars.{
  is_newline, is_whitespace, is_alpha, is_numeric, is_alus, is_alnumus, is_symbol, is_core_symbol,
  is_extended_symbol,
}
use cand_lang_proto.Chars.Ranges.{classes_lem}
use cand_lang_proto.Scopes.Scope.{TkScope, scope_valid}
use cand_lang_proto.Scopes.Find.{
  paren, frame, kind_turn, find_scope, scan, round, after_loop, conclude,
}
use cand_lang_proto.Scopes.Balanced.{empty, plain, group, Group}
use cand_lang_proto.Scopes.FindComplete.{find_scope_complete}
use cand_lang_proto.Scopes.FindSound.{find_scope_sound}
use cand_lang_proto.Scopes.Separated.{find_seperated, separate, branch}
use cand_lang_proto.Scopes.SeparatedComplete.{find_seperated_returns}
use cand_lang_proto.Scopes.Statement.{gives, find_statement}
use cand_lang_proto.Scopes.StatementLoop.{Body, scope, no_tokens}
use cand_lang_proto.Scopes.StatementFound.{find_statement_complete, find_statement_unclosed}
use cand_lang_proto.Tokenizer.Spelling.{spelling, operator_at-spelling}
use cand_lang_proto.Tokenizer.Prefixes.{for_prefix}
use cand_lang_proto.Tokenizer.LongestOperator.{operator_at_longest}
use cand_lang_proto.Syntax.Names
use cand_lang_proto.Syntax.NodeNames
use cand_lang_proto.Syntax.Operators.{EAssoc, tk_type_assoc, tk_type_operation, tk_type_priority}
use cand_lang_proto.Syntax.TokenNode.{tk_type_to_astnode_type}
use cand_lang_proto.Syntax.Tables.{
  binary_assoc, tk_type_to_astnode_type-injective, tk_type_to_astnode_type_lem,
}
use cand_lang_proto.Tokenizer.Positions.{Placed, literals, tokenize_lossless}
use cand_lang_proto.Tokenizer.Rules.{Ends, tokenize-Ends}
use cand_lang_proto.Tokenizer.Termination.{AllReturn, tokenize_returns, unclosed-diverges}
use cand_lang_proto.Tokenizer.KeywordSyntax.{AllConform, tokenize_one_syntax}
use cand_lang_proto.Tokenizer.Sanitize.{AllKept, tokenize_sanitized}
use cand_lang_proto.Tokenizer.Columns.{column_lem}
use cand_lang_proto.Expected.{Expected, make_success}
use cand_lang_proto.Syntax.Kinds.{
  tk_type_is_opening_scope, tk_type_is_closing_scope, tk_type_is_keyword, ast_type_is_keyword,
}
use cand_lang_proto.Syntax.Token.{Tk, literal_eq, of_type, equal}
use cand_lang_proto.Syntax.TokenKind.{ETk, tk_eq}
use cand_lang_proto.Tokenizer.Cursor.{
  Text, get, peek, peek_prev, find_forward, advance_while, search_forward, make_result,
  make_none_result, make_invalid_result,
}
use cand_lang_proto.Tokenizer.Messages.{invalid_char, lexer_syntax_error}
use cand_lang_proto.Tokenizer.Lexers.{
  lex_solidus, lex_quotation, lex_newline, lex_whitespace, lex_eof, lex_number, lex_alnumus,
  lex_directive, find_word, number_suffix, closes_quote, closes_comment,
}
use cand_lang_proto.Tokenizer.Operators.{
  lex_operator, lex_scopes, lex_eos, lex_comma, lex_period, operator_at, scope_at, result_of,
}
use cand_lang_proto.Tokenizer.Words.{keyword_chain, directive_chain}
use cand_lang_proto.Tokenizer.Run.{
  KeywordSyntax, initial, lexers, tokenize, returns, diverges, out_of_fuel, tokenize_from,
  try_lexers, perform_lex, perform, accept_token, swap_keyword_syntax, column, count_newlines,
  find_last_newline, sanitize,
}

abbrev token : ETk → Text → ℕ → ℕ → Tk
token k l line col = record { kind = k; literal = l; line = line; col = col }

abbrev small_text : Text
small_text = bytes "a = 12u;\n#if x<=>y"

abbrev small_tokens : List Tk
small_tokens =
    token ETk.alnumus_ (bytes "a") 1 1
    ∷ token ETk.simple_assignment_ (bytes "=") 1 1
    ∷ token ETk.unsigned_literal_ (bytes "12u") 1 3
    ∷ token ETk.semicolon_ (bytes ";") 1 1
    ∷ token ETk.if_ (bytes "#if") 2 3
    ∷ token ETk.alnumus_ (bytes "x") 2 1
    ∷ token ETk.three_way_comparison_ (bytes "<=>") 2 3
    ∷ token ETk.alnumus_ (bytes "y") 2 1
    ∷ []

tokenize_small : tokenize small_text ≡ returns (make_success small_tokens)
unfolding tokenize tokenize_from try_lexers perform_lex perform accept_token swap_keyword_syntax
    column count_newlines find_last_newline sanitize lex_solidus lex_quotation lex_newline
    lex_whitespace lex_eof lex_directive lex_number lex_alnumus lex_operator lex_scopes lex_eos
    lex_comma lex_period find_word keyword_chain directive_chain number_suffix operator_at scope_at
    result_of closes_quote closes_comment get peek peek_prev find_forward advance_while
    search_forward make_result make_none_result make_invalid_result invalid_char lexer_syntax_error
    literal_eq tk_eq is_newline is_whitespace is_alpha is_numeric is_alus is_alnumus
    tk_type_is_keyword
tokenize_small = refl

tokenize_lossless_example :
    (out : List Tk) × (literals out ≡ small_text)
    × Placed small_text 0 out
    × (small_tokens ≡ sanitize out)
tokenize_lossless_example = tokenize_lossless small_text tokenize_small

tokenize-Ends_example : Ends small_text initial (tokenize small_text)
tokenize-Ends_example = tokenize-Ends small_text (λ e. cc)

-- A text with neither apostrophe nor slash, and one with an apostrophe that is not closed.
abbrev plain_text : Text
plain_text = bytes "a"

no_apostrophe : (j : ℕ) → (get plain_text j == b'\'') ≡ false
unfolding get
no_apostrophe zero = refl
no_apostrophe (suc j) = refl

no_slash : (j : ℕ) → (get plain_text j == b'/') ≡ false
unfolding get
no_slash zero = refl
no_slash (suc j) = refl

tokenize_returns_example :
    AllReturn plain_text lexers
    × ((result : Expected (List Tk)) × (tokenize plain_text ≡ returns result))
tokenize_returns_example = tokenize_returns plain_text no_apostrophe no_slash

abbrev open_text : Text
open_text = bytes "'a"

never_closes : (j : ℕ) → 1 ≤ j → closes_quote open_text j ≡ false
unfolding closes_quote get
never_closes zero h = absurd (omega arith)
never_closes (suc zero) h = refl
never_closes (suc (suc j)) h = refl

unclosed-diverges_example :
    ((rounds : ℕ) → search_forward closes_quote rounds open_text 1 ≡ none)
    × (tokenize open_text ≡ diverges)
unclosed-diverges_example = unclosed-diverges open_text (unfold get in refl) never_closes

tokenize_one_syntax_example : (k : KeywordSyntax) × AllConform k small_tokens
tokenize_one_syntax_example = tokenize_one_syntax small_text tokenize_small

tokenize_sanitized_example : AllKept small_tokens × (sanitize small_tokens ≡ small_tokens)
tokenize_sanitized_example = tokenize_sanitized small_text tokenize_small

-- The number `12u` starts at column 5 of its line, and is given its length for a column.
column_lem_example : column small_text 4 7 ≡ 3
column_lem_example =
    column_lem small_text 4 4 7 (omega arith) (omega arith) (λ e. absurd (omega (arith, e)))
      (inl refl) (unfold count_newlines get in refl)

classes_lem_example :
    (is_alpha 95 ≡ false)
    × (is_numeric 95 ≡ false)
    × (is_alnumus 95 ≡ true)
    × (is_symbol 95 ≡ (is_core_symbol 95 || is_extended_symbol 95))
    × (is_extended_symbol 95 ≡ false)
    × ((is_newline 95 && not (is_whitespace 95)) ≡ false)
    × ((is_alpha 95 && is_numeric 95) ≡ false)
    × ((is_whitespace 95 && is_alnumus 95) ≡ false)
classes_lem_example = classes_lem 95 (omega arith)

binary_assoc_example :
    (tk_type_assoc ETk.addition_ ≡ tk_type_assoc ETk.subtraction_)
    × (tk_type_assoc ETk.addition_ ≢ EAssoc.none_)
binary_assoc_example =
    binary_assoc ETk.addition_ ETk.subtraction_ (unfold tk_type_operation in refl)
      (unfold tk_type_operation in refl) (unfold tk_type_priority in refl)

tk_type_to_astnode_type-injective_example : ETk.comma_ ≡ ETk.comma_
tk_type_to_astnode_type-injective_example =
    tk_type_to_astnode_type-injective ETk.comma_ ETk.comma_ refl

tk_type_to_astnode_type_lem_example :
    (ast_type_is_keyword (tk_type_to_astnode_type ETk.if_) ≡ tk_type_is_keyword ETk.if_)
    × (NodeNames.to_str (tk_type_to_astnode_type ETk.if_) ≡ (
        if tk_eq ETk.if_ ETk.open_paren_
        then "open_paren"
        else if tk_eq ETk.if_ ETk.close_paren_
        then "close_paren"
        else Names.to_str ETk.if_))
    × (Names.to_str ETk.open_paren_ ≡ "(")
    × (Names.to_str ETk.close_paren_ ≡ ")")
tk_type_to_astnode_type_lem_example = tk_type_to_astnode_type_lem ETk.if_

operator_at-spelling_example : take 2 (b'<' ∷ b'<' ∷ b'a' ∷ []) ≡ spelling ETk.bitwise_left_shift_
operator_at-spelling_example =
    operator_at-spelling b'<' b'<' b'a' ETk.bitwise_left_shift_ 2 (unfold operator_at in refl)

operator_at_longest_example :
    (k : ETk) × (n : ℕ) × (operator_at b'<' b'=' b'>' ≡ some (k, n))
    × (length (spelling ETk.less_than_or_equal_) ≤ n)
operator_at_longest_example =
    operator_at_longest ETk.less_than_or_equal_ b'<' b'=' b'>' (λ e. cc) refl

for_prefix_example :
    lex_directive (bytes "format x") 0
    ≡ some
        (make_result (bytes "format x") ETk.for_ 0 (advance_while is_alus 8 (bytes "format x") 1))
for_prefix_example = for_prefix (bytes "format x") 0 (unfold find_forward literal_eq in refl)
