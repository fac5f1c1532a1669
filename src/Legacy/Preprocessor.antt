-- ===== src/Legacy/Preprocessor.antt =====
-- Candi_Compiler/preprocessor.hpp. Reading a file and tokenizing it are a parameter: the tokenizer of
-- these tokens is not part of the repository. What is printed is left out.
use cand_lang_proto.Base.{
  ℕ, zero, suc, ◌-◌, Bool, true, false, ◌||◌, List, [], ◌∷◌, ◌++◌, length, take, drop, bytes,
  if◌then◌else◌,
}
use cand_lang_proto.Syntax.Token.{literal_eq}
use cand_lang_proto.Legacy.TokenType.{EType}
use cand_lang_proto.Legacy.Token.{CaocoTk, caoco_type_is}
use cand_lang_proto.Legacy.Macros.{Expansion, cursor_get, cursor_advance, failed}

-- What a file gives: its tokens, the tokenizer's error, or an exception of the tokenizer or of reading
-- the file, with its text.
pub data FileTokens : Type 0 where
  tokens : List CaocoTk → FileTokens
  invalid_tokens tokenizer_threw load_threw : List ℕ → FileTokens

-- How a call ends: it returns, it throws, or its fuel runs out, which the program does not know.
pub data Preprocessed : Type 0 where
  returned : Expansion → Preprocessed
  threw : List ℕ → Preprocessed
  runs_on : Preprocessed

abbrev pub preprocessor_error : List ℕ → List ℕ
preprocessor_error text = bytes "[C&][ERROR][pre-processor] file: " ++ text

abbrev pub not_a_string : List ℕ → List ℕ
not_a_string source_file =
    preprocessor_error source_file
    ++ bytes "#include directive not followed by a string literal file name."

abbrev pub includes_self : List ℕ → List ℕ
includes_self source_file =
    preprocessor_error source_file ++ 10 ∷ bytes "File cannot recursiveley include self."

abbrev pub with_reason : List ℕ → List ℕ → List ℕ
with_reason file_name reason = file_name ++ bytes ": " ++ reason

abbrev pub not_loaded : List ℕ → List ℕ → List ℕ
not_loaded file_name reason =
    bytes "[C&][ERROR][pre-processor] could not find or load file: " ++ with_reason file_name reason

-- `c_str()`, as a text: what stands in front of the first NUL.
unfoldable pub c_str : List ℕ → List ℕ
c_str [] = []
c_str (zero ∷ cs) = []
c_str (suc c ∷ cs) = suc c ∷ c_str cs

-- `substr(1, size() - 2)` of a literal that is not empty: at size 1 the count wraps around, and
-- nothing is left to take.
abbrev pub unquoted : List ℕ → List ℕ
unquoted l = take (length l - 2) (drop 1 l)

unfoldable pub is_included : List ℕ → List (List ℕ) → Bool
is_included name [] = false
is_included name (n ∷ ns) = literal_eq n name || is_included name ns

-- `substr` throws a text of the standard library at an empty literal.
module _ (file : List ℕ → FileTokens) (substr_what : List ℕ) where
  -- `preprocess` is the call for an included file, which is given no files that are included already.
  module _ (preprocess : List CaocoTk → List ℕ → Preprocessed) (source_file : List ℕ) where
    -- The rest of the loop is `continues`, with what the included file adds to the output.
    unfoldable pub include_file :
        List ℕ → List CaocoTk → (List CaocoTk → Preprocessed) → Preprocessed
    include_file file_name output continues = elim (file file_name) [
      | tokens code ↦ elim (preprocess code file_name) [
        | returned r ↦
            if r.success
            then continues (output ++ r.output)
            else returned (failed output (c_str (preprocessor_error r.message)))
        | threw what ↦
            returned (failed output (c_str (preprocessor_error (with_reason file_name what))))
        | runs_on ↦ runs_on
      ]
      | invalid_tokens message ↦
          returned (failed output (c_str (preprocessor_error (with_reason file_name message))))
      | tokenizer_threw what ↦
          returned (failed output (c_str (preprocessor_error (with_reason file_name what))))
      | load_threw what ↦ returned (failed output (c_str (not_loaded file_name what)))
    ]

    -- With the literal behind `#include`. `loop` is the loop from a later token on, `code` what
    -- follows the literal.
    unfoldable pub include_literal :
        (List CaocoTk → List (List ℕ) → List CaocoTk → Preprocessed)
        → List ℕ
        → List CaocoTk
        → List (List ℕ)
        → List CaocoTk
        → Preprocessed
    include_literal loop [] code included output = threw substr_what
    include_literal loop (c ∷ cs) code included output =
        if literal_eq (unquoted (c ∷ cs)) source_file
        then returned (failed output (c_str (includes_self source_file)))
        else if is_included (unquoted (c ∷ cs)) included
        then loop code included output
        else include_file (unquoted (c ∷ cs)) output (loop code (unquoted (c ∷ cs) ∷ included))

    unfoldable pub include_directive :
        (List CaocoTk → List (List ℕ) → List CaocoTk → Preprocessed)
        → List CaocoTk
        → List (List ℕ)
        → List CaocoTk
        → Preprocessed
    include_directive loop code included output =
        if caoco_type_is EType.string_literal_ (cursor_get code)
        then include_literal loop (cursor_get code).literal (cursor_advance code) included output
        else returned (failed output (not_a_string source_file))

    unfoldable pub preprocess_loop : ℕ → List CaocoTk → List (List ℕ) → List CaocoTk → Preprocessed
    preprocess_loop zero code included output = runs_on
    preprocess_loop (suc fuel) [] included output =
        returned (record { output = output; success = true; message = [] })
    preprocess_loop (suc fuel) (t ∷ ts) included output =
        let next = preprocess_loop fuel in
        if caoco_type_is EType.include_ t
        then include_directive next ts included output
        else next ts included (output ++ t ∷ [])

  -- The fuel is the depth of includes. A round takes a token, so that the length of the code is
  -- enough for the loop.
  unfoldable pub preprocess : ℕ → List CaocoTk → List ℕ → List (List ℕ) → Preprocessed
  preprocess zero code source_file already_included_files = runs_on
  preprocess (suc depth) code source_file already_included_files =
      preprocess_loop (λ code' file_name. preprocess depth code' file_name []) source_file
        (suc (length code)) code already_included_files []
