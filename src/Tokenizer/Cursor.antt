-- ===== src/Tokenizer/Cursor.antt =====
-- Candi_Compiler/tokenizer.hpp, the tokenizer's utility methods. The source text is a list of
-- bytes, and an iterator is its distance from `beg_`.
use cand_lang_proto.Base.{
  ℕ, zero, suc, ◌+◌, Bool, false, List, length, get_or, slice, ltb, if◌then◌else◌, Option, none,
  some,
}
use cand_lang_proto.Expected.{PartialExpected, partial_success, partial_failure}
use cand_lang_proto.Syntax.Keywords.{eofile}
use cand_lang_proto.Syntax.Token.{Tk, literal_eq}
use cand_lang_proto.Syntax.TokenKind.{ETk}

abbrev pub Text : Type 0
Text = List ℕ

-- EOF_CHAR at and behind the end.
unfoldable pub get : Text → ℕ → ℕ
get src it = get_or src it eofile

unfoldable pub peek : Text → ℕ → ℕ → ℕ
peek src it n = if ltb (length src) (it + n) then eofile else get src (it + n)

-- `peek(it, -1)`.
unfoldable pub peek_prev : Text → ℕ → ℕ
peek_prev src zero = eofile
peek_prev src (suc it) = if ltb (length src) it then eofile else get src it

unfoldable pub find_forward : Text → ℕ → List ℕ → Bool
find_forward src it characters =
    if ltb (length src) (it + length characters)
    then false
    else literal_eq (slice src it (it + length characters)) characters

-- `while (p(get(it))) advance(it);`, at most `fuel` rounds.
unfoldable pub advance_while : (ℕ → Bool) → ℕ → Text → ℕ → ℕ
advance_while p zero src it = it
advance_while p (suc fuel) src it =
    let rest = advance_while p fuel src (it + 1) in if p (get src it) then rest else it

-- `while (!p(it)) advance(it);`, for a test that may never hold: `none` when the fuel is used up.
unfoldable pub search_forward : (Text → ℕ → Bool) → ℕ → Text → ℕ → Option ℕ
search_forward p zero src it = none
search_forward p (suc fuel) src it =
    let rest = search_forward p fuel src (it + 1) in if p src it then some it else rest

abbrev pub LexResult : Type 0
LexResult = PartialExpected Tk ℕ

-- `tk(type, beg_it, end_it)`.
abbrev pub tk_between : Text → ETk → ℕ → ℕ → Tk
tk_between src kind beg end = record { kind = kind; literal = slice src beg end; line = 0; col = 0 }

unfoldable pub make_result : Text → ETk → ℕ → ℕ → LexResult
make_result src kind beg end = partial_success end (tk_between src kind beg end)

unfoldable pub make_none_result : Text → ℕ → LexResult
make_none_result src beg = partial_success beg (tk_between src ETk.none_ beg beg)

unfoldable pub make_invalid_result : ℕ → List ℕ → LexResult
make_invalid_result beg error = partial_failure beg error
