-- ===== src/Tokenizer/Lexers.antt =====
-- Candi_Compiler/tokenizer.hpp, the lexers of comments, literals, spaces and words. The fuel of
-- the loops is the length of the text, and one more for those that may never stop.
-- A lexer's `none` says that it does not return: its loop has run past the end of the text.
use Prim.Native.Nat.{ℕ, suc, ◌+◌}
use cand_lang_proto.Base.{
  Bool, not, ◌&&◌, Option, none, some, List, ◌++◌, [], ◌∷◌, length, slice, ◌==◌, if◌then◌else◌,
  bytes,
}
use cand_lang_proto.Chars.{is_newline, is_whitespace, is_numeric, is_alpha, is_alus, is_alnumus}
use cand_lang_proto.Syntax.Keywords.{eofile, block_comment, ellipsis}
use cand_lang_proto.Syntax.TokenKind.{ETk}
use cand_lang_proto.Tokenizer.Cursor.{
  Text, LexResult, get, peek, peek_prev, find_forward, advance_while, search_forward, make_result,
  make_none_result, make_invalid_result,
}
use cand_lang_proto.Tokenizer.Words.{keyword_chain, directive_chain}

abbrev pub Lexer : Type 0
Lexer = Text → ℕ → Option LexResult

-- Neither a newline character nor the end.
abbrev pub in_line : ℕ → Bool
in_line c = not (is_newline c) && not (c == eofile)

-- An apostrophe with no backslash in front.
unfoldable pub closes_quote : Text → ℕ → Bool
closes_quote src it = get src it == b'\'' && not (peek_prev src it == b'\\')

unfoldable pub closes_comment : Text → ℕ → Bool
closes_comment src it = find_forward src it block_comment

unfoldable pub lex_solidus : Lexer
lex_solidus src it =
    if get src it == b'/'
    then (if peek src it 1 == b'/' && not (peek src it 2 == b'/')
        then (let end = advance_while in_line (length src) src it in
            some (make_result src ETk.line_comment_ it end))
        else if peek src it 1 == b'/' && peek src it 2 == b'/'
        then elim (search_forward closes_comment (suc (length src)) src (it + 3)) [
          | none ↦ none
          | some close ↦ some (make_result src ETk.block_comment_ it (close + 3))
        ]
        else if get src (it + 1) == b'='
        then some (make_result src ETk.division_assignment_ it (it + 2))
        else some (make_result src ETk.division_ it (it + 1)))
    else some (make_none_result src it)

unfoldable pub lex_quotation : Lexer
lex_quotation src it =
    if get src it == b'\''
    then elim (search_forward closes_quote (suc (length src)) src (it + 1)) [
      | none ↦ none
      | some close ↦
          if get src (close + 1) == b'c'
          then some (make_result src ETk.byte_literal_ it (close + 2))
          else some (make_result src ETk.string_literal_ it (close + 1))
    ]
    else some (make_none_result src it)

unfoldable pub lex_newline : Lexer
lex_newline src it =
    if is_newline (get src it)
    then some (make_result src ETk.newline_ it (advance_while is_newline (length src) src it))
    else some (make_none_result src it)

unfoldable pub lex_whitespace : Lexer
lex_whitespace src it =
    if is_whitespace (get src it)
    then some (make_result src ETk.whitespace_ it (advance_while is_whitespace (length src) src it))
    else some (make_none_result src it)

unfoldable pub lex_eof : Lexer
lex_eof src it =
    if get src it == eofile
    then some (make_result src ETk.eof_ it (it + 1))
    else some (make_none_result src it)

-- What follows the digits of a number, which end at `it`: the kind and the end of the literal.
unfoldable pub number_suffix : Text → ℕ → ETk × ℕ
number_suffix src it =
    if get src it == b'u'
    then (ETk.unsigned_literal_, it + 1)
    else if get src it == b'c'
    then (ETk.byte_literal_, it + 1)
    else if find_forward src it ellipsis
    then (ETk.number_literal_, it)
    else if get src it == b'.'
    then (ETk.real_literal_, advance_while is_numeric (length src) src (it + 1))
    else (ETk.number_literal_, it)

unfoldable pub lex_number : Lexer
lex_number src it =
    if is_numeric (get src it)
    then (if get src it == b'1' && peek src it 1 == b'b'
        then some (make_result src ETk.bit_literal_ it (it + 2))
        else if get src it == b'0' && peek src it 1 == b'b'
        then some (make_result src ETk.bit_literal_ it (it + 2))
        else let (kind, end) = number_suffix src (advance_while is_numeric (length src) src it) in
          some (make_result src kind it end))
    else some (make_none_result src it)

unfoldable pub lex_alnumus : Lexer
lex_alnumus src it =
    if is_alpha (get src it)
    then some (make_result src ETk.alnumus_ it (advance_while is_alnumus (length src) src it))
    else some (make_none_result src it)

-- The kind of the first word of the chain that stands at `beg`.
unfoldable pub find_word : Text → ℕ → List (List ℕ × ETk) → Option ETk
find_word src beg [] = none
find_word src beg ((word, kind) ∷ words) =
    if find_forward src beg word then some kind else find_word src beg words

unfoldable pub lex_directive : Lexer
lex_directive src beg =
    if get src beg == b'#'
    then (let end = advance_while is_alus (length src) src (beg + 1) in
        elim (find_word src beg directive_chain) [
          | some kind ↦ some (make_result src kind beg end)
          | none ↦ some (make_invalid_result beg (bytes "Invalid keyword:" ++ slice src beg end))
        ])
    else if is_alpha (get src beg)
    then (let end = advance_while is_alus (length src) src (beg + 1) in
        elim (find_word src beg keyword_chain) [
          | some kind ↦ some (make_result src kind beg end)
          | none ↦ some (make_none_result src beg)
        ])
    else some (make_none_result src beg)
