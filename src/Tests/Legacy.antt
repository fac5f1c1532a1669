-- ===== src/Tests/Legacy.antt =====
-- Macros and includes on small inputs.
use cand_lang_proto.Base.{none, List, ℕ, [], ◌∷◌, ◌≡◌, refl, bytes}
use cand_lang_proto.Syntax.Token.{literal_eq}
use cand_lang_proto.Legacy.TokenType.{EType, type_eq}
use cand_lang_proto.Legacy.Token.{CaocoTk, caoco_of_type}
use cand_lang_proto.Legacy.Macros.{Macro, find_macro, expand_loop, macro_expand}
use cand_lang_proto.Legacy.Expands.{
  nothing, copies, invokes, defines, macro_expand-Expands, expand_loop_stuck, Expands, IsCopied,
  done,
}
use cand_lang_proto.Legacy.Preprocessor.{FileTokens, tokens, preprocess, is_included}
use cand_lang_proto.Legacy.Includes
use cand_lang_proto.Legacy.Includes.{preprocess-Includes, IsInclude, succeeded}

abbrev text_token : EType → List ℕ → CaocoTk
text_token k l = record { kind = k; literal = l; line = 0; col = 0 }

abbrev name_x : CaocoTk
name_x = text_token EType.alnumus_ (bytes "x")

abbrev eos : CaocoTk
eos = caoco_of_type EType.eos_

abbrev plus_sign : CaocoTk
plus_sign = caoco_of_type EType.addition_

-- `#macro x + #endmacro x ;`
abbrev macro_code : List CaocoTk
macro_code =
    caoco_of_type EType.macro_
    ∷ name_x
    ∷ plus_sign
    ∷ caoco_of_type EType.endmacro_
    ∷ name_x
    ∷ eos
    ∷ []

eos-IsCopied : IsCopied eos
eos-IsCopied = record { no_macro = unfold type_eq in refl; no_name = unfold type_eq in refl }

abbrev defined : List Macro
defined = record { name = bytes "x"; body = plus_sign ∷ [] } ∷ []

macro_code-Expands : Expands [] macro_code (plus_sign ∷ eos ∷ [])
macro_code-Expands =
    defines [] (caoco_of_type EType.macro_) name_x (caoco_of_type EType.endmacro_) (plus_sign ∷ [])
      (name_x ∷ eos ∷ []) (plus_sign ∷ eos ∷ []) (unfold type_eq in refl) (unfold type_eq in refl)
      (unfold find_macro in refl) (unfold type_eq in refl, tt) (unfold type_eq in refl)
      (invokes defined name_x (plus_sign ∷ []) (eos ∷ []) (eos ∷ []) (unfold type_eq in refl)
        (unfold type_eq in refl) (unfold find_macro literal_eq in refl)
        (copies defined eos [] [] eos-IsCopied (nothing defined)))

macro_expand-Expands_example : macro_expand (bytes "f") macro_code ≡ done (plus_sign ∷ eos ∷ [])
macro_expand-Expands_example =
    macro_expand-Expands (bytes "f") macro_code (plus_sign ∷ eos ∷ []) macro_code-Expands

expand_loop_stuck_example : expand_loop (bytes "f") 100 (eos ∷ name_x ∷ []) [] [] ≡ none
expand_loop_stuck_example =
    expand_loop_stuck (bytes "f") name_x [] (unfold type_eq in refl) (unfold type_eq in refl) 100
      (eos ∷ []) [] [] (eos-IsCopied, tt) (unfold find_macro in refl)

-- Every file holds `;` alone.
abbrev one_token : List ℕ → FileTokens
one_token name = tokens (eos ∷ [])

abbrev include_tk : CaocoTk
include_tk = caoco_of_type EType.include_

abbrev quoted_b : CaocoTk
quoted_b = text_token EType.string_literal_ (bytes "'b'")

abbrev include_code : List CaocoTk
include_code = include_tk ∷ quoted_b ∷ plus_sign ∷ []

quoted_b-IsInclude : IsInclude include_tk (bytes "b") quoted_b
quoted_b-IsInclude = record {
  includes_it = unfold type_eq in refl;
  is_string = unfold type_eq in refl;
  first = b'\'';
  others = bytes "b'";
  literal_is = refl;
  names = refl;
}

include_code-Includes :
    Includes.Includes one_token 1 (bytes "a") [] include_code (eos ∷ plus_sign ∷ [])
include_code-Includes =
    Includes.enters 0 (bytes "a") [] (bytes "b") include_tk quoted_b (eos ∷ []) (eos ∷ [])
      (plus_sign ∷ []) (plus_sign ∷ []) quoted_b-IsInclude (unfold literal_eq in refl)
      (unfold is_included in refl) refl
      (Includes.copies 0 (bytes "b") [] eos [] [] (unfold type_eq in refl)
        (Includes.nothing 0 (bytes "b") []))
      (Includes.copies 1 (bytes "a") (bytes "b" ∷ []) plus_sign [] [] (unfold type_eq in refl)
        (Includes.nothing 1 (bytes "a") (bytes "b" ∷ [])))

preprocess-Includes_example :
    preprocess one_token (bytes "what") 2 include_code (bytes "a") []
    ≡ succeeded (eos ∷ plus_sign ∷ [])
preprocess-Includes_example =
    preprocess-Includes one_token (bytes "what") 1 (bytes "a") [] include_code
      (eos ∷ plus_sign ∷ []) include_code-Includes
