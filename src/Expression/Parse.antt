-- ===== src/Expression/Parse.antt =====
-- Candi_Compiler/parenthesizer.hpp, `parse_expression_impl`. The range from the cursor to its end is
-- the list of its tokens; the end token stands behind the last.
use cand_lang_proto.Base.{
  ℕ, zero, suc, ◌==◌, List, [], ◌∷◌, length, drop, slice, bytes, if◌then◌else◌,
}
use cand_lang_proto.Syntax.TokenKind.{ETk}
use cand_lang_proto.Syntax.NodeKind.{EAst}
use cand_lang_proto.Syntax.Operators.{EOperation}
use cand_lang_proto.Syntax.Token.{Tk, type_is, operation}
use cand_lang_proto.Syntax.Ast.{Ast, of_token, leaf_of, push_back}
use cand_lang_proto.Scopes.Iterator.{sentinel_end_token}
use cand_lang_proto.Scopes.Scope.{TkScope, contained_begin, contained_end}
use cand_lang_proto.Scopes.Find.{find_paren, find_brace, find_bracket}
use cand_lang_proto.Expression.Outcome.{Ending, ok, throws, no_fuel, ◌>>=◌}

-- `it.get()`.
abbrev pub first_token : List Tk → Tk
first_token [] = sentinel_end_token
first_token (t ∷ ts) = t

-- The range between the tokens that open and close a scope of the range `ts`.
abbrev pub contained : TkScope → List Tk → List Tk
contained s ts = slice ts (contained_begin s) (contained_end s)

abbrev pub mismatched_operand : List ℕ
mismatched_operand = bytes "Mismatched parentheses in operand."

abbrev pub mismatched_call : List ℕ
mismatched_call = bytes "Mismatched parentheses in function call."

abbrev pub mismatched_index : List ℕ
mismatched_index = bytes "Mismatched braces in index operator."

abbrev pub mismatched_type_call : List ℕ
mismatched_type_call = bytes "Mismatched brackets in type call."

abbrev pub invalid_following : List ℕ
invalid_following = bytes "Invalid token following operand in subexpression."

abbrev pub invalid_start : List ℕ
invalid_start = bytes "Invalid token at start of expression."

-- What a token does in an expression: the operations that the code tests for, and the rest.
pub data Role : Type 0 where
  operand prefix postfix binary no_role : Role

abbrev pub role_of : EOperation → Role
role_of EOperation.none_ = operand
role_of EOperation.prefix_ = prefix
role_of EOperation.postfix_ = postfix
role_of EOperation.binary_ = binary
role_of _ = no_role

abbrev pub role : Tk → Role
role t = role_of (operation t)

-- A call, an index or a type call of `callee`, by the scope at the cursor. Their arguments are
-- not parsed.
unfoldable pub applied : EAst → EAst → List ℕ → Ast → TkScope → Ending Ast
applied k args_kind message callee s =
    if s.valid
    then ok (push_back (push_back (leaf_of k) callee) (leaf_of args_kind))
    else throws message

unfoldable pub parse_postfix : Ast → List Tk → Ending Ast
parse_postfix callee ts =
    if type_is ETk.open_paren_ (first_token ts)
    then applied EAst.function_call_ EAst.arguments_ mismatched_call callee (find_paren ts)
    else if type_is ETk.open_brace_ (first_token ts)
    then applied EAst.index_operator_ EAst.index_arguments_ mismatched_index callee (find_brace ts)
    else if type_is ETk.open_bracket_ (first_token ts)
    then applied EAst.type_call_ EAst.type_arguments_ mismatched_type_call callee (find_bracket ts)
    else ok (push_back (of_token (first_token ts)) callee)

-- The functions that call `parse_expression_impl` again take it as `parse`.
module _ (parse : List Tk → Ending Ast) where
  -- The operand behind a prefix or a binary operator.
  unfoldable pub parse_operand : List Tk → Ending Ast
  parse_operand ts =
      if type_is ETk.open_paren_ (first_token ts)
      then (let s = find_paren ts in
          if s.valid then parse (contained s ts) else throws mismatched_operand)
      else elim (role (first_token ts)) [
        | operand ↦ ok (of_token (first_token ts))
        | _ ↦ throws invalid_following
      ]

  -- The operator behind an operand. The code has this twice, behind a scope and a single operand.
  unfoldable pub parse_operator : Ast → List Tk → Ending Ast
  parse_operator left ts = elim (role (first_token ts)) [
    | postfix ↦ parse_postfix left ts
    | binary ↦ parse_operand (drop 1 ts) >>= λ right.
        ok (push_back (push_back (of_token (first_token ts)) left) right)
    | _ ↦ throws invalid_following
  ]

  unfoldable pub parse_scope : List Tk → TkScope → Ending Ast
  parse_scope ts s =
      if s.valid
      then (if s.end == length ts
          then parse (contained s ts)
          else parse (contained s ts) >>= λ left. parse_operator left (drop s.end ts))
      else throws mismatched_operand

  unfoldable pub parse_first : List Tk → Ending Ast
  parse_first ts =
      if type_is ETk.open_paren_ (first_token ts)
      then parse_scope ts (find_paren ts)
      else elim (role (first_token ts)) [
        | operand ↦
            let rest = drop 1 ts in
            if length rest == 0
            then ok (of_token (first_token ts))
            else parse_operator (of_token (first_token ts)) rest
        | prefix ↦
            parse_operand (drop 1 ts) >>= λ right. ok (push_back (of_token (first_token ts)) right)
        | _ ↦ throws invalid_start
      ]

-- A recursive call is for a shorter range, so that the length of the range is enough fuel.
unfoldable pub parse_within : ℕ → List Tk → Ending Ast
parse_within zero ts = no_fuel
parse_within (suc fuel) ts = parse_first (parse_within fuel) ts

unfoldable pub parse_expression_impl : List Tk → Ending Ast
parse_expression_impl ts = parse_within (suc (length ts)) ts
