-- ===== src/Expression/ParseFuel.antt =====
-- `parse_expression_impl` calls itself on shorter ranges only.
use cand_lang_proto.Base.{
  ℕ, zero, suc, ◌+◌, ◌<◌, ◌≤◌, true, ◌==◌, List, ◌∷◌, ◌++◌, length, length-append, length-drop_le,
  drop, ◌≡◌, ap, ◌∙◌, arith, if◌then◌else◌,
}
use cand_lang_proto.Syntax.TokenKind.{ETk}
use cand_lang_proto.Syntax.NodeKind.{EAst}
use cand_lang_proto.Syntax.Token.{Tk, type_is}
use cand_lang_proto.Syntax.Ast.{Ast, of_token, push_back}
use cand_lang_proto.Scopes.Scope.{TkScope, scope_valid}
use cand_lang_proto.Scopes.Find.{paren, find_paren}
use cand_lang_proto.Scopes.FindSound.{find_scope_sound}
use cand_lang_proto.Scopes.FindComplete.{find_scope_complete}
use cand_lang_proto.Expression.Outcome.{
  Ending, ok, throws, ◌>>=◌, Defined, bind-Defined, Ensures, bind-Ensures, if-Ensures,
  Ensures-Defined,
}
use cand_lang_proto.Expression.Parse.{
  Role, operand, prefix, postfix, binary, no_role, role, first_token, contained, applied,
  parse_postfix, parse_operand, parse_operator, parse_scope, parse_first, parse_within,
  parse_expression_impl, invalid_following, invalid_start,
}
use cand_lang_proto.Expression.ParseSteps.{contained_found}
use cand_lang_proto.Expression.Strip.{strip}
use cand_lang_proto.Expression.Parenthesizer.{parenthesize_expression, parse_expression}
use cand_lang_proto.Expression.Parenthesized.{parenthesize_expression-strip}

-- The outcomes that the program has, for any result.
abbrev Any : Ast → Type 0
Any a = Unit {0}

-- The inside of a scope is shorter than what it is found in.
contained_shorter :
    (ts : List Tk)
    → (find_paren ts).valid ≡ true
    → length (contained (find_paren ts) ts) < length ts
contained_shorter ts h =
    let g = find_scope_sound paren ts h in
    let scope_is : find_paren ts ≡ scope_valid 0 (length g.inner + 2) =
      find_scope_complete paren ts (find_paren ts).end g ∙ ap (scope_valid 0) g.end_is in
    let inner_is : contained (find_paren ts) ts ≡ g.inner =
      ap (λ s. contained s ts) scope_is
      ∙ ap (contained (scope_valid 0 (length g.inner + 2))) g.tokens_are
      ∙ contained_found g.open_token g.close_token g.inner g.rest in
    let size : length ts ≡ length (g.open_token ∷ g.inner ++ g.close_token ∷ g.rest) =
      ap length g.tokens_are in
    rw inner_is (omega (arith, length-append g.inner (g.close_token ∷ g.rest)))

module _ (parse : List Tk → Ending Ast) (bound : ℕ)
    (returns : (ts : List Tk) → length ts < bound → Ensures Any (parse ts)) where
  operand_by_role :
      (r : Role) (t : Tk)
      → Ensures Any (elim r [ operand ↦ ok (of_token t) | _ ↦ throws invalid_following ])
  operand_by_role operand t = tt
  operand_by_role prefix t = tt
  operand_by_role postfix t = tt
  operand_by_role binary t = tt
  operand_by_role no_role t = tt

  parse_operand_returns : (ts : List Tk) → length ts ≤ bound → Ensures Any (parse_operand parse ts)
  unfolding parse_operand
  parse_operand_returns ts h =
      if-Ensures Any (type_is ETk.open_paren_ (first_token ts)) _ _
        (λ opening.
          if-Ensures Any (find_paren ts).valid _ _
            (λ valid.
              let less = contained_shorter ts valid in
              returns (contained (find_paren ts) ts) (omega arith))
            (λ invalid. tt))
        (λ single. operand_by_role (role (first_token ts)) (first_token ts))

  applied_returns :
      (k args_kind : EAst) (message : List ℕ) (callee : Ast) (s : TkScope)
      → Ensures Any (applied k args_kind message callee s)
  unfolding applied
  applied_returns k args_kind message callee s =
      if-Ensures Any s.valid _ _ (λ valid. tt) (λ invalid. tt)

  parse_postfix_returns : (left : Ast) (ts : List Tk) → Ensures Any (parse_postfix left ts)
  unfolding parse_postfix
  parse_postfix_returns left ts =
      let t = first_token ts in
      if-Ensures Any (type_is ETk.open_paren_ t) _ _ (λ a. applied_returns _ _ _ _ _)
        (λ a.
          if-Ensures Any (type_is ETk.open_brace_ t) _ _ (λ b. applied_returns _ _ _ _ _)
            (λ b.
              if-Ensures Any (type_is ETk.open_bracket_ t) _ _ (λ c. applied_returns _ _ _ _ _)
                (λ c. tt)))

  operator_by_role :
      (r : Role) (left : Ast) (t : Tk) (ts us : List Tk)
      → length us ≤ bound
      → Ensures Any (elim r [
        | postfix ↦ parse_postfix left ts
        | binary ↦
            parse_operand parse us >>= λ right. ok (push_back (push_back (of_token t) left) right)
        | _ ↦ throws invalid_following
      ])
  operator_by_role operand left t ts us h = tt
  operator_by_role prefix left t ts us h = tt
  operator_by_role no_role left t ts us h = tt
  operator_by_role postfix left t ts us h = parse_postfix_returns left ts
  operator_by_role binary left t ts us h =
      bind-Ensures Any Any (parse_operand parse us) _ (parse_operand_returns us h) (λ right r. tt)

  parse_operator_returns :
      (left : Ast) (ts : List Tk)
      → length (drop 1 ts) ≤ bound
      → Ensures Any (parse_operator parse left ts)
  unfolding parse_operator
  parse_operator_returns left ts h =
      operator_by_role (role (first_token ts)) left (first_token ts) ts (drop 1 ts) h

  parse_scope_returns :
      (ts : List Tk) → length ts ≤ bound → Ensures Any (parse_scope parse ts (find_paren ts))
  unfolding parse_scope
  parse_scope_returns ts h =
      let s = find_paren ts in
      let rest = drop s.end ts in
      if-Ensures Any s.valid _ _
        (λ valid.
          let less = contained_shorter ts valid in
          let inside = returns (contained s ts) (omega arith) in
          if-Ensures Any (s.end == length ts) _ _ (λ whole. inside)
            (λ part.
              bind-Ensures Any Any (parse (contained s ts)) (λ left. parse_operator parse left rest)
                inside
                (λ left r.
                  parse_operator_returns left rest
                    (omega (arith, length-drop_le 1 rest, length-drop_le s.end ts)))))
        (λ invalid. tt)

  first_by_role :
      (r : Role) (t : Tk) (rest : List Tk)
      → length rest ≤ bound
      → Ensures Any (elim r [
        | operand ↦
            if length rest == 0 then ok (of_token t) else parse_operator parse (of_token t) rest
        | prefix ↦ parse_operand parse rest >>= λ right. ok (push_back (of_token t) right)
        | _ ↦ throws invalid_start
      ])
  first_by_role operand t rest h =
      if-Ensures Any (length rest == 0) _ _ (λ none_left. tt)
        (λ more. parse_operator_returns (of_token t) rest (omega (arith, length-drop_le 1 rest)))
  first_by_role prefix t rest h =
      bind-Ensures Any Any (parse_operand parse rest) _ (parse_operand_returns rest h)
        (λ right r. tt)
  first_by_role postfix t rest h = tt
  first_by_role binary t rest h = tt
  first_by_role no_role t rest h = tt

  parse_first_returns : (ts : List Tk) → length ts ≤ bound → Ensures Any (parse_first parse ts)
  unfolding parse_first
  parse_first_returns ts h =
      if-Ensures Any (type_is ETk.open_paren_ (first_token ts)) _ _
        (λ opening. parse_scope_returns ts h)
        (λ single.
          first_by_role (role (first_token ts)) (first_token ts) (drop 1 ts)
            (omega (arith, length-drop_le 1 ts)))

parse_within_returns :
    (fuel : ℕ) (ts : List Tk) → length ts < fuel → Ensures Any (parse_within fuel ts)
unfolding parse_within
parse_within_returns zero ts h = absurd (omega arith)
parse_within_returns (suc fuel) ts h =
    parse_first_returns (parse_within fuel) fuel (parse_within_returns fuel) ts (omega arith)

parse_expression_impl_returns : (ts : List Tk) → Ensures Any (parse_expression_impl ts)
unfolding parse_expression_impl
parse_expression_impl_returns ts = parse_within_returns (suc (length ts)) ts (omega arith)

-- `parse_expression` ends on every list of tokens, by a tree or by throwing a text: neither
-- parenthesizing nor parsing what is parenthesized runs out of fuel or reaches an undefined step.
pub parse_expression-Defined : (ts : List Tk) → Defined (parse_expression ts)
unfolding parse_expression
parse_expression-Defined ts =
    bind-Defined (parenthesize_expression ts) parse_expression_impl
      (Ensures-Defined (λ us. strip us ≡ strip ts) (parenthesize_expression ts)
        (parenthesize_expression-strip ts))
      (λ us e. Ensures-Defined Any (parse_expression_impl us) (parse_expression_impl_returns us))
