-- ===== src/Legacy/Macros.antt =====
-- Candi_Compiler/macro_expander.hpp. The cursor is the list of the tokens from it to the end; behind
-- the end it reads a token of the type eof_.
use cand_lang_proto.Base.{
  ℕ, zero, suc, Bool, true, false, List, [], ◌∷◌, ◌++◌, length, Option, none, some, bytes,
  if◌then◌else◌,
}
use cand_lang_proto.Syntax.Token.{literal_eq}
use cand_lang_proto.Legacy.TokenType.{EType}
use cand_lang_proto.Legacy.Token.{CaocoTk, caoco_of_type, caoco_type_is}

-- The tuple that is returned.
pub record Expansion : Type 0 where
  pub output : List CaocoTk
  pub success : Bool
  pub message : List ℕ

-- `defined_macros`: names and bodies, the latest first.
pub record Macro : Type 0 where
  pub name : List ℕ
  pub body : List CaocoTk

unfoldable pub find_macro : List ℕ → List Macro → Option (List CaocoTk)
find_macro name [] = none
find_macro name (m ∷ ms) = if literal_eq m.name name then some m.body else find_macro name ms

-- `tk_cursor::get`.
abbrev pub cursor_get : List CaocoTk → CaocoTk
cursor_get [] = caoco_of_type EType.eof_
cursor_get (t ∷ ts) = t

-- `tk_cursor::advance` by one.
abbrev pub cursor_advance : List CaocoTk → List CaocoTk
cursor_advance [] = []
cursor_advance (t ∷ ts) = ts

abbrev pub add_to_body :
    CaocoTk → Option (List CaocoTk × List CaocoTk) → Option (List CaocoTk × List CaocoTk)
add_to_body t none = none
add_to_body t (some (b, rest)) = some (t ∷ b, rest)

-- The body of a macro and what follows its `#endmacro`. At the end of the code the loop goes on for
-- ever.
unfoldable pub macro_body : List CaocoTk → Option (List CaocoTk × List CaocoTk)
macro_body [] = none
macro_body (t ∷ ts) =
    if caoco_type_is EType.endmacro_ t then some ([], ts) else add_to_body t (macro_body ts)

abbrev pub expander_error : List ℕ → List ℕ → List ℕ
expander_error source_file text = bytes "[C&][ERROR][macro-expander] file: " ++ source_file ++ text

abbrev pub failed : List CaocoTk → List ℕ → Expansion
failed output message = record { output = output; success = false; message = message }

-- A round of the loop: what is left of the code, the macros and the output; or a result, or none if
-- the round does not end.
pub data MacroRound : Type 0 where
  goes_on : List CaocoTk → List Macro → List CaocoTk → MacroRound
  returns : Expansion → MacroRound
  runs_on : MacroRound

module _ (source_file : List ℕ) where
  -- Behind `#macro`.
  unfoldable pub define_macro : List CaocoTk → List Macro → List CaocoTk → MacroRound
  define_macro code macros output =
      let name = (cursor_get code).literal in
      if caoco_type_is EType.alnumus_ (cursor_get code)
      then elim (find_macro name macros) [
        | some _ ↦ returns (
            failed output
              (expander_error source_file (bytes "Macro " ++ name ++ bytes " already defined.")))
        | none ↦ elim (macro_body (cursor_advance code)) [
          | some b ↦ goes_on b.1 (record { name = name; body = b.0 } ∷ macros) output
          | none ↦ runs_on
        ]
      ]
      else returns (
          failed output (
            expander_error source_file
              (bytes "#macro directive not followed by a valid identifier.")))

  -- An identifier that names no macro stays at the cursor.
  unfoldable pub invoke_macro : CaocoTk → List CaocoTk → List Macro → List CaocoTk → MacroRound
  invoke_macro t ts macros output = elim (find_macro t.literal macros) [
    | some b ↦ goes_on ts macros (output ++ b)
    | none ↦ goes_on (t ∷ ts) macros output
  ]

  unfoldable pub macro_round : CaocoTk → List CaocoTk → List Macro → List CaocoTk → MacroRound
  macro_round t ts macros output =
      if caoco_type_is EType.macro_ t
      then define_macro ts macros output
      else if caoco_type_is EType.alnumus_ t
      then invoke_macro t ts macros output
      else goes_on ts macros (output ++ t ∷ [])

  -- `none` is the outcome that the rounds do not end within the fuel.
  unfoldable pub expand_loop : ℕ → List CaocoTk → List Macro → List CaocoTk → Option Expansion
  expand_loop zero code macros output = none
  expand_loop (suc fuel) [] macros output =
      some (record { output = output; success = true; message = [] })
  expand_loop (suc fuel) (t ∷ ts) macros output = elim (macro_round t ts macros output) [
    | goes_on code macros' output' ↦ expand_loop fuel code macros' output'
    | returns e ↦ some e
    | runs_on ↦ none
  ]

  -- With one round for each token and the last.
  unfoldable pub macro_expand : List CaocoTk → Option Expansion
  macro_expand code = expand_loop (suc (length code)) code [] []
