-- ===== src/Expression/ParseSteps.antt =====
-- What `parse_expression_impl` does at each form of an expression, for any function in place of its
-- recursive call.
use cand_lang_proto.Base.{
  ℕ, suc, ◌+◌, ◌-◌, true, false, ◌==◌, List, [], ◌∷◌, ◌++◌, ◌≡◌, ◌≢◌, refl, ap, ◌∙◌, arith, length,
  length-append, take, drop, Bool-cases, inl, inr, append_assoc,
}
use cand_lang_proto.Syntax.TokenKind.{ETk, tk_eq}
use cand_lang_proto.Syntax.Equality.{tk_eq_iff}
use cand_lang_proto.Syntax.Operators.{tk_type_operation}
use cand_lang_proto.Syntax.Token.{Tk, type_is}
use cand_lang_proto.Syntax.Ast.{Ast, of_token, push_back}
use cand_lang_proto.Scopes.Scope.{scope_valid}
use cand_lang_proto.Scopes.Find.{
  Shape, paren, list, frame, opens, closes, other, same_shape, kind_turn, turn, find_scope,
}
use cand_lang_proto.Scopes.Balanced.{Balanced}
use cand_lang_proto.Scopes.FindComplete.{find_scope_complete}
use cand_lang_proto.Scopes.Separated.{open_kind}
use cand_lang_proto.Scopes.SeparatedKinds.{opens_kind}
use cand_lang_proto.Expression.Outcome.{Ending, ok, ◌>>=◌}
use cand_lang_proto.Expression.Parse.{
  operand, prefix, postfix, binary, role, role_of, contained, parse_operand, parse_operator,
  parse_postfix, parse_scope, parse_first, applied, parse_within, parse_expression_impl,
}
use cand_lang_proto.Expression.Spelling.{unary, applied_node}

-- A scope of the shape `s` at the front of a range.
module _ (s : Shape) (o c : Tk) (ts rest : List Tk) (opens_it : turn o ≡ opens s)
    (closes_it : turn c ≡ closes s) (balanced : Balanced ts) where
  pub found : find_scope s (o ∷ ts ++ c ∷ rest) ≡ scope_valid 0 (length ts + 2)
  found = find_scope_complete s (o ∷ ts ++ c ∷ rest) (length ts + 2) (record {
    open_token = o;
    inner = ts;
    close_token = c;
    rest = rest;
    tokens_are = refl;
    opens_it = opens_it;
    closes_it = closes_it;
    balanced = balanced;
    end_is = refl;
  })

pub take-length : (xs ys : List Tk) → take (length xs) (xs ++ ys) ≡ xs
take-length [] ys = refl
take-length (x ∷ xs) ys = ap (◌∷◌ x) (take-length xs ys)

drop-length : (xs ys : List Tk) → drop (length xs) (xs ++ ys) ≡ ys
drop-length [] ys = refl
drop-length (x ∷ xs) ys = drop-length xs ys

pub contained_found :
    (o c : Tk) (ts rest : List Tk)
    → contained (scope_valid 0 (length ts + 2)) (o ∷ ts ++ c ∷ rest) ≡ ts
contained_found o c ts rest =
    let first : ◌≡◌ {A = ℕ} (0 + 1) 1 = omega arith in
    let size : length ts + 2 - 1 - 1 ≡ length ts = omega arith in
    rw (first, size) (take-length ts (c ∷ rest))

pub drop_found : (o c : Tk) (ts rest : List Tk) → drop (length ts + 2) (o ∷ ts ++ c ∷ rest) ≡ rest
drop_found o c ts rest =
    let size : length ts + 2 ≡ suc (length (ts ++ c ∷ [])) =
      omega (arith, length-append ts (c ∷ [])) in
    rw (size, ← append_assoc ts (c ∷ []) rest) (drop-length (ts ++ c ∷ []) rest)

-- The type of a token by its turn or its role.
pub open_paren_is : (o : Tk) → turn o ≡ opens paren → type_is ETk.open_paren_ o ≡ true
open_paren_is o e = (tk_eq_iff o.kind ETk.open_paren_).1 (opens_kind o.kind paren e)

pub kind_differs : (t : Tk) (k : ETk) → (t.kind ≡ k → ⊥) → type_is k t ≡ false
kind_differs t k h = elim (Bool-cases (type_is k t)) [
  | inl same ↦ absurd (h ((tk_eq_iff t.kind k).0 same))
  | inr unlike ↦ unlike
]

pub no_scope : (t : Tk) (s : Shape) → role t ≢ postfix → type_is (open_kind s) t ≡ false
unfolding tk_type_operation
no_scope t paren h =
    kind_differs t ETk.open_paren_ (λ e. h (ap (λ k. role_of (tk_type_operation k)) e))
no_scope t list h =
    kind_differs t ETk.open_brace_ (λ e. h (ap (λ k. role_of (tk_type_operation k)) e))
no_scope t frame h =
    kind_differs t ETk.open_bracket_ (λ e. h (ap (λ k. role_of (tk_type_operation k)) e))

pub no_open : (t : Tk) → role t ≢ postfix → type_is ETk.open_paren_ t ≡ false
no_open t = no_scope t paren

other_open : (t : Tk) (s : Shape) → turn t ≡ other → type_is (open_kind s) t ≡ false
unfolding kind_turn
other_open t paren h = kind_differs t ETk.open_paren_ (λ e. cc (ap kind_turn e))
other_open t list h = kind_differs t ETk.open_brace_ (λ e. cc (ap kind_turn e))
other_open t frame h = kind_differs t ETk.open_bracket_ (λ e. cc (ap kind_turn e))

open_role : (o : Tk) (s : Shape) → turn o ≡ opens s → role o ≡ postfix
unfolding tk_type_operation
open_role o paren e = ap (λ k. role_of (tk_type_operation k)) (opens_kind o.kind paren e)
open_role o list e = ap (λ k. role_of (tk_type_operation k)) (opens_kind o.kind list e)
open_role o frame e = ap (λ k. role_of (tk_type_operation k)) (opens_kind o.kind frame e)

-- The tests of `parse_postfix` tell the shape of the scope that a token opens.
opening_tests :
    (s : Shape) (o : Tk)
    → turn o ≡ opens s
    → (type_is ETk.open_paren_ o ≡ same_shape s paren)
      × (type_is ETk.open_brace_ o ≡ same_shape s list)
      × (type_is ETk.open_bracket_ o ≡ same_shape s frame)
unfolding tk_eq
opening_tests paren o e = rw (opens_kind o.kind paren e) (refl, refl, refl)
opening_tests list o e = rw (opens_kind o.kind list e) (refl, refl, refl)
opening_tests frame o e = rw (opens_kind o.kind frame e) (refl, refl, refl)

postfix_applies :
    (s : Shape) (left : Ast) (o c : Tk) (inner : List Tk)
    → turn o ≡ opens s
    → turn c ≡ closes s
    → Balanced inner
    → parse_postfix left (o ∷ inner ++ c ∷ []) ≡ ok (applied_node s left)
unfolding parse_postfix applied
postfix_applies paren left o c inner e f b =
    rw ((opening_tests paren o e).0, parse_postfix) (rw (found paren o c inner [] e f b) refl)
postfix_applies list left o c inner e f b =
    let (first, second, third) = opening_tests list o e in
    rw (first, second, parse_postfix) (rw (found list o c inner [] e f b) refl)
postfix_applies frame left o c inner e f b =
    let (first, second, third) = opening_tests frame o e in
    rw (first, second, third, parse_postfix) (rw (found frame o c inner [] e f b) refl)

module _ (parse : List Tk → Ending Ast) where
  pub operand_single : (t : Tk) → role t ≡ operand → parse_operand parse (t ∷ []) ≡ ok (of_token t)
  unfolding parse_operand
  operand_single t e = rw (no_open t (λ f. cc), e, parse_operand) refl

  pub operand_group :
      (o c : Tk) (ts : List Tk)
      → turn o ≡ opens paren
      → turn c ≡ closes paren
      → Balanced ts
      → parse_operand parse (o ∷ ts ++ c ∷ []) ≡ parse ts
  unfolding parse_operand
  operand_group o c ts e f b =
      rw (open_paren_is o e, parse_operand)
        (rw (found paren o c ts [] e f b) (ap parse (contained_found o c ts [])))

  pub first_single : (t : Tk) → role t ≡ operand → parse_first parse (t ∷ []) ≡ ok (of_token t)
  unfolding parse_first
  first_single t e = rw (no_open t (λ f. cc), e, parse_first) refl

  pub first_operator :
      (t r : Tk) (rest : List Tk)
      → role t ≡ operand
      → parse_first parse (t ∷ r ∷ rest) ≡ parse_operator parse (of_token t) (r ∷ rest)
  unfolding parse_first
  first_operator t r rest e =
      let more : (suc (length rest) == 0) ≡ false = ground arith in
      rw (no_open t (λ f. cc), e, more, parse_first) refl

  pub first_prefix :
      (p : Tk) (ts : List Tk)
      → role p ≡ prefix
      → parse_first parse (p ∷ ts) ≡ (parse_operand parse ts >>= λ right. ok (unary p right))
  unfolding parse_first
  first_prefix p ts e = rw (no_open p (λ f. cc), e, parse_first) refl

  pub first_group :
      (o c : Tk) (ts : List Tk)
      → turn o ≡ opens paren
      → turn c ≡ closes paren
      → Balanced ts
      → parse_first parse (o ∷ ts ++ c ∷ []) ≡ parse ts
  unfolding parse_first parse_scope
  first_group o c ts e f b =
      let whole : (length ts + 2 == suc (length (ts ++ c ∷ []))) ≡ true =
        ground (arith, length-append ts (c ∷ [])) in
      rw (open_paren_is o e, parse_first)
        (rw (found paren o c ts [] e f b, whole) (ap parse (contained_found o c ts [])))

  pub group_operator :
      (o c r : Tk) (ts rest : List Tk)
      → turn o ≡ opens paren
      → turn c ≡ closes paren
      → Balanced ts
      → parse_first parse (o ∷ ts ++ c ∷ r ∷ rest)
        ≡ (parse ts >>= λ left. parse_operator parse left (r ∷ rest))
  unfolding parse_first parse_scope
  group_operator o c r ts rest e f b =
      let part : (length ts + 2 == suc (length (ts ++ c ∷ r ∷ rest))) ≡ false =
        ground (arith, length-append ts (c ∷ r ∷ rest)) in
      rw (open_paren_is o e, parse_first)
        (rw (found paren o c ts (r ∷ rest) e f b, part)
          (rw (contained_found o c ts (r ∷ rest), drop_found o c ts (r ∷ rest)) refl))

  pub operator_postfix :
      (left : Ast) (q : Tk)
      → role q ≡ postfix
      → turn q ≡ other
      → parse_operator parse left (q ∷ []) ≡ ok (unary q left)
  unfolding parse_operator parse_postfix
  operator_postfix left q e f =
      rw (e, parse_operator)
        (rw (other_open q paren f, other_open q list f, other_open q frame f, parse_postfix) refl)

  pub operator_binary :
      (left : Ast) (b : Tk) (ts : List Tk)
      → role b ≡ binary
      → parse_operator parse left (b ∷ ts)
        ≡ (parse_operand parse ts >>= λ right. ok (push_back (push_back (of_token b) left) right))
  unfolding parse_operator
  operator_binary left b ts e = rw (e, parse_operator) refl

  pub operator_applies :
      (s : Shape) (left : Ast) (o c : Tk) (inner : List Tk)
      → turn o ≡ opens s
      → turn c ≡ closes s
      → Balanced inner
      → parse_operator parse left (o ∷ inner ++ c ∷ []) ≡ ok (applied_node s left)
  unfolding parse_operator
  operator_applies s left o c inner e f b =
      rw (open_role o s e, parse_operator) (postfix_applies s left o c inner e f b)

-- Behind the right operand of a binary operator between two single operands nothing is read: the
-- tree is that of the three tokens, whatever follows them.
pub parse_expression_impl_ignores_rest :
    (a p b : Tk) (rest : List Tk)
    → role a ≡ operand
    → role p ≡ binary
    → role b ≡ operand
    → parse_expression_impl (a ∷ p ∷ b ∷ rest)
      ≡ ok (push_back (push_back (of_token p) (of_token a)) (of_token b))
unfolding parse_expression_impl parse_within parse_operand
parse_expression_impl_ignores_rest a p b rest e f g =
    first_operator (parse_within (suc (suc (suc (length rest))))) a p (b ∷ rest) e
    ∙ operator_binary (parse_within (suc (suc (suc (length rest))))) (of_token a) p (b ∷ rest) f
    ∙ rw (no_open b (λ h. cc), g, parse_operand) refl
