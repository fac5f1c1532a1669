-- ===== src/Tokenizer/Run.antt =====
-- Candi_Compiler/tokenizer.hpp, `tokenize` and `operator()`: the main loop over the lexers. The
-- variables that its lambdas share are the fields of `State`.
use cand_lang_proto.Base.{
  ℕ, zero, suc, ◌+◌, ◌-◌, Bool, List, [], ◌∷◌, ◌++◌, length, get_or, bytes, ◌==◌, ◌||◌,
  if◌then◌else◌, none, some,
}
use cand_lang_proto.Expected.{Expected, make_success, make_failure, BoolError, bool_ok, bool_error}
use cand_lang_proto.Syntax.Token.{Tk, is_keyword, set_line, set_col}
use cand_lang_proto.Syntax.TokenKind.{ETk, tk_eq}
use cand_lang_proto.Tokenizer.Cursor.{Text, LexResult, get}
use cand_lang_proto.Tokenizer.Lexers.{
  Lexer, lex_solidus, lex_quotation, lex_newline, lex_whitespace, lex_eof, lex_number, lex_alnumus,
  lex_directive,
}
use cand_lang_proto.Tokenizer.Operators.{lex_operator, lex_scopes, lex_eos, lex_comma, lex_period}
use cand_lang_proto.Tokenizer.Messages.{invalid_char, lexer_syntax_error}

-- `keyword_syntax_switch`, read only once `keyword_syntax_switched` is set: until then `unswitched`.
pub data KeywordSyntax : Type 0 where
  unswitched directive keyword : KeywordSyntax

pub record State : Type 0 where
  pub it : ℕ
  pub current_line : ℕ
  pub current_col : ℕ
  pub keyword_syntax : KeywordSyntax
  pub output_tokens : List Tk

abbrev pub initial : State
initial = record {
  it = 0;
  current_line = 1;
  current_col = 1;
  keyword_syntax = unswitched;
  output_tokens = [];
}

-- `token.literal()[0] == u8'#'`.
abbrev pub is_hash : Tk → Bool
is_hash t = get_or t.literal 0 0 == b'#'

abbrev pub directive_in_keyword_file : List ℕ
directive_in_keyword_file =
    bytes
      "Directive in Keyword File. Mixing keyword and directive keyword syntax in a single file is forbbiden."

abbrev pub keyword_in_directive_file : List ℕ
keyword_in_directive_file =
    bytes
      "Keyword in Directive File. Mixing keyword and directive keyword syntax in a single file is forbbiden."

-- What `swap_keyword_syntax` leaves in `keyword_syntax_switch`, and its result.
unfoldable pub swap_keyword_syntax : KeywordSyntax → Tk → KeywordSyntax × BoolError
swap_keyword_syntax k t =
    if is_keyword t
    then elim k [
      | unswitched ↦ (if is_hash t then directive else keyword, bool_ok)
      | directive ↦ (directive, if is_hash t then bool_ok else bool_error keyword_in_directive_file)
      | keyword ↦ (keyword, if is_hash t then bool_error directive_in_keyword_file else bool_ok)
    ]
    else (k, bool_ok)

-- `std::count(it, it + n, '\n')`.
unfoldable pub count_newlines : Text → ℕ → ℕ → ℕ
count_newlines src it zero = 0
count_newlines src it (suc n) =
    (if get src it == b'\n' then 1 else 0) + count_newlines src (it + 1) n

-- `std::find` backwards over the `n` bytes from `it`, `.base()`: behind the last newline, or `it`.
unfoldable pub find_last_newline : Text → ℕ → ℕ → ℕ
find_last_newline src it zero = it
find_last_newline src it (suc n) =
    if get src (it + n) == b'\n' then it + n + 1 else find_last_newline src it n

-- `current_col` for a token from `it` to `end`.
unfoldable pub column : Text → ℕ → ℕ → ℕ
column src it end =
    let last_newline = find_last_newline src it (end - it) in
    end - (if last_newline == length src then 0 else last_newline)

-- The outcome of `perform_lex`; an error comes with the line and the column at that time.
pub data Performed : Type 0 where
  runs_on no_match : Performed
  fails : ℕ → ℕ → List ℕ → Performed
  matches : State → Performed

-- A match: the state after the token `t` that was lexed up to `end`.
unfoldable pub accept_token : Text → State → ℕ → Tk → Performed
accept_token src st end t =
    let line = st.current_line + count_newlines src st.it (end - st.it) in
    let col = column src st.it end in
    let (syntax, switch_result) = swap_keyword_syntax st.keyword_syntax t in
    if switch_result.value
    then matches (record {
      it = end;
      current_line = line;
      current_col = col;
      keyword_syntax = syntax;
      output_tokens = st.output_tokens ++ set_col col (set_line line t) ∷ [];
    })
    else fails line col switch_result.error_message

unfoldable pub perform : Text → State → LexResult → Performed
perform src st r = elim r.expected [
  | none ↦ fails st.current_line st.current_col r.error_message
  | some t ↦ if tk_eq t.kind ETk.none_ then no_match else accept_token src st r.always t
]

unfoldable pub perform_lex : Text → State → Lexer → Performed
perform_lex src st lexer = elim (lexer src st.it) [ none ↦ runs_on | some r ↦ perform src st r ]

-- The lexers in the order in which they are tried.
abbrev pub lexers : List Lexer
lexers =
    lex_solidus ∷ lex_quotation ∷ lex_newline ∷ lex_whitespace ∷ lex_eof ∷ lex_directive
    ∷ lex_number ∷ lex_alnumus ∷ lex_operator ∷ lex_scopes ∷ lex_eos ∷ lex_comma ∷ lex_period ∷ []

-- The inner loop: the first lexer that matches, fails or does not return decides.
unfoldable pub try_lexers : Text → State → List Lexer → Performed
try_lexers src st [] = no_match
try_lexers src st (l ∷ ls) = elim (perform_lex src st l) [
  | no_match ↦ try_lexers src st ls
  | runs_on ↦ runs_on
  | fails line col message ↦ fails line col message
  | matches st' ↦ matches st'
]

abbrev pub is_redundant : Tk → Bool
is_redundant t =
    tk_eq t.kind ETk.whitespace_
    || tk_eq t.kind ETk.line_comment_
    || tk_eq t.kind ETk.block_comment_
    || tk_eq t.kind ETk.newline_

unfoldable pub sanitize : List Tk → List Tk
sanitize [] = []
sanitize (t ∷ ts) = if is_redundant t then sanitize ts else t ∷ sanitize ts

-- How a run of the tokenizer ends; `out_of_fuel` has no counterpart in the program.
pub data Outcome : Type 0 where
  returns : Expected (List Tk) → Outcome
  diverges out_of_fuel : Outcome

-- A round of the outer loop that does not match ends the run.
abbrev pub report : Text → State → Performed → Outcome
report src st runs_on = diverges
report src st no_match =
    returns (make_failure (invalid_char st.current_line st.current_col (get src st.it) []))
report src st (fails line col message) =
    returns (make_failure (lexer_syntax_error line col (get src st.it) message))
report src st (matches st') = out_of_fuel

-- The outer loop, from a state on. Each round consumes a byte, so that as many rounds as bytes
-- are enough.
unfoldable pub tokenize_from : ℕ → Text → State → Outcome
tokenize_from zero src st =
    if st.it == length src then returns (make_success (sanitize st.output_tokens)) else out_of_fuel
tokenize_from (suc fuel) src st =
    let round : Outcome = elim (try_lexers src st lexers) [
      | matches st' ↦ tokenize_from fuel src st'
      | runs_on ↦ report src st runs_on
      | no_match ↦ report src st no_match
      | fails line col message ↦ report src st (fails line col message)
    ] in
    if st.it == length src then returns (make_success (sanitize st.output_tokens)) else round

-- `operator()` on the whole of `src`.
unfoldable pub tokenize : Text → Outcome
tokenize src =
    if length src == 0
    then returns (make_failure (bytes "Empty input"))
    else tokenize_from (length src) src initial
