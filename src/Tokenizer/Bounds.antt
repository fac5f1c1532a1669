-- ===== src/Tokenizer/Bounds.antt =====
-- Every lexer of Candi_Compiler/tokenizer.hpp is sound: see Sound.
mod Literals
mod Numbers
mod Identifiers
mod Punctuation
use cand_lang_proto.Base.{
  ℕ, zero, suc, ◌+◌, ◌≤◌, ◌<◌, Bool, true, false, not, ◌&&◌, List, [], ◌∷◌, ◌++◌, ◌≡◌, ◌≢◌, refl,
  sym, ap, arith, length, slice, bytes, ◌==◌, if◌then◌else◌, Bool-cases, Option-cases, Option, none,
  some, ◌⊎◌, inl, inr, ==_iff,
}
use cand_lang_proto.Chars.{is_newline, is_whitespace, is_numeric, is_alpha, is_alus, is_alnumus}
use cand_lang_proto.Syntax.Token.{Tk}
use cand_lang_proto.Syntax.TokenKind.{ETk, tk_code, tk_eq}
use cand_lang_proto.Syntax.Keywords.{ellipsis, block_comment}
use cand_lang_proto.Tokenizer.Cursor.{
  Text, LexResult, get, peek, peek_prev, find_forward, advance_while, search_forward, make_result,
  make_none_result, make_invalid_result,
}
use cand_lang_proto.Tokenizer.Lexers.{
  Lexer, in_line, closes_quote, closes_comment, lex_solidus, lex_quotation, lex_newline,
  lex_whitespace, lex_eof, number_suffix, lex_number, lex_alnumus, find_word, lex_directive,
}
use cand_lang_proto.Tokenizer.Words.{keyword_chain, directive_chain}
use cand_lang_proto.Tokenizer.Operators.{
  operator_at, result_of, lex_operator, scope_at, lex_scopes, lex_eos, lex_comma, lex_period,
}
use cand_lang_proto.Tokenizer.Run.{lexers}
use cand_lang_proto.Tokenizer.Scan.{
  get-lt, peek_lem, find_forward-slice, advance_while_stops, advance_while-le-length,
  le-advance_while, lt-advance_while, search_forward_sound,
}
use cand_lang_proto.Tokenizer.Sound.{Sound}
use Literals.{
  lex_solidus-Sound, lex_quotation-Sound, lex_newline-Sound, lex_whitespace-Sound, lex_eof-Sound,
}
use Numbers.{lex_number-Sound}
use Identifiers.{lex_alnumus-Sound, lex_directive-Sound}
use Punctuation.{
  lex_operator-Sound, lex_scopes-Sound, lex_eos-Sound, lex_comma-Sound, lex_period-Sound,
}

-- A list of lexers, each of which is sound inside the text.
pub data AllSound : List Lexer → Type 0 where
  nil : AllSound []
  cons :
      {l : Lexer} {ls : List Lexer}
      → ((src : Text) (it : ℕ) → it < length src → Sound src it (l src it))
      → AllSound ls
      → AllSound (l ∷ ls)

-- Each lexer of the main loop, started inside the text, gives a token that is not empty, ends in
-- the text and holds the bytes that it spans; or no token, an error, or nothing.
pub lexers-AllSound : AllSound lexers
lexers-AllSound = cons lex_solidus-Sound (
    cons lex_quotation-Sound (
      cons lex_newline-Sound (
        cons lex_whitespace-Sound (
          cons lex_eof-Sound (
            cons lex_directive-Sound (
              cons lex_number-Sound (
                cons lex_alnumus-Sound (
                  cons (λ src it _. lex_operator-Sound src it)
                    (cons lex_scopes-Sound (
                      cons lex_eos-Sound
                        (cons lex_comma-Sound (cons lex_period-Sound nil))))))))))))
