-- ===== src/Expression/Rounds.antt =====
-- A round of `parenthesize_expression` moves tokens from the head to the output, or throws.
use cand_lang_proto.Base.{
  ℕ, zero, suc, ◌+◌, ◌*◌, ◌<◌, ◌≤◌, Bool, true, false, List, [], ◌∷◌, length, length-drop_le, drop,
  ◌≡◌, refl, ap, arith,
}
use cand_lang_proto.Syntax.TokenKind.{ETk}
use cand_lang_proto.Syntax.Equality.{tk_eq_iff}
use cand_lang_proto.Syntax.Operators.{tk_type_operation}
use cand_lang_proto.Syntax.Token.{Tk, type_is}
use cand_lang_proto.Scopes.Find.{Shape, paren, list, frame, find_scope}
use cand_lang_proto.Scopes.Separated.{open_kind}
use cand_lang_proto.Scopes.FindSound.{find_scope_sound}
use cand_lang_proto.Expression.Outcome.{throws, Ensures, if-Ensures, Ensures-weaken}
use cand_lang_proto.Expression.Parse.{
  Role, operand, prefix, postfix, binary, no_role, role, role_of, first_token,
}
use cand_lang_proto.Expression.Parenthesizer.{
  Parenthesizer, ExpectedHead, operative_, operator_, choose_operator, prefix_following,
  operand_following, store_scope, store_or_check,
}
use cand_lang_proto.Expression.OperatorLevels.{acts}
use cand_lang_proto.Expression.Actions.{Keeps, Advanced, store_or_check-Advanced}

-- How many rounds are left at most: one for each turn from an operand to an operator, one for each
-- token, and the last.
abbrev pub measure : Bool → ExpectedHead → ℕ → ℕ
measure true e n = 0
measure false operative_ n = 2 * n + 2
measure false operator_ n = 2 * n + 1

abbrev pub rounds_left : Parenthesizer → ℕ
rounds_left p = measure p.finished p.expected_head (length p.head)

pub record Progress (goal : List Tk) (p p' : Parenthesizer) : Type 0 where
  pub keeps : Keeps goal p'.head p'.lists
  pub fewer : length p'.head ≤ length p.head
  pub falls : rounds_left p' < rounds_left p
  pub ended : p'.finished ≡ true → p'.head ≡ []

takes_token :
    (f f' : Bool) (e e' : ExpectedHead) (n n' : ℕ)
    → f ≡ false
    → f' ≡ f
    → suc n' ≤ n
    → measure f' e' n' < measure f e n
takes_token true f' e e' n n' h h' l = cc
takes_token false true e e' n n' h h' l = cc
takes_token false false operative_ operative_ n n' h h' l = omega arith
takes_token false false operative_ operator_ n n' h h' l = omega arith
takes_token false false operator_ operative_ n n' h h' l = omega arith
takes_token false false operator_ operator_ n n' h h' l = omega arith

pub turns :
    (f f' : Bool) (e : ExpectedHead) (n n' : ℕ)
    → f ≡ false
    → f' ≡ f
    → e ≡ operative_
    → n' ≤ n
    → measure f' operator_ n' < measure f e n
turns true f' e n n' h h' k l = cc
turns false true e n n' h h' k l = cc
turns false false operative_ n n' h h' k l = omega arith
turns false false operator_ n n' h h' k l = cc

length-drop_lt : (n : ℕ) (ts : List Tk) → 0 < n → 0 < length ts → length (drop n ts) < length ts
length-drop_lt zero ts h k = absurd (omega arith)
length-drop_lt (suc n) [] h k = absurd (omega arith)
length-drop_lt (suc n) (t ∷ ts) h k = omega (arith, length-drop_le n ts)

-- The tests of a token's type and its role.
opening_acts : (s : Shape) (t : Tk) → type_is (open_kind s) t ≡ true → acts (role t) ≡ true
unfolding tk_type_operation
opening_acts paren t e =
    ap (λ k. acts (role_of (tk_type_operation k))) ((tk_eq_iff t.kind ETk.open_paren_).0 e)
opening_acts list t e =
    ap (λ k. acts (role_of (tk_type_operation k))) ((tk_eq_iff t.kind ETk.open_brace_).0 e)
opening_acts frame t e =
    ap (λ k. acts (role_of (tk_type_operation k))) ((tk_eq_iff t.kind ETk.open_bracket_).0 e)

module _ (goal : List Tk) (p : Parenthesizer) (going : p.finished ≡ false)
    (more : 0 < length p.head) (k : Keeps goal p.head p.lists) where
  pub store_Round :
      (n : ℕ) (e : ExpectedHead)
      → 0 < n
      → acts (role (first_token p.head)) ≡ true
      → Ensures (Progress goal p) (store_or_check n e p)
  store_Round n e positive a =
      Ensures-weaken (Advanced goal p n e) (Progress goal p) (store_or_check n e p) round
        (store_or_check-Advanced goal n p a k e)
    where
      round : (p' : Parenthesizer) → Advanced goal p n e p' → Progress goal p p'
      round p' s =
          let fall : suc (length p'.head) ≤ length p.head =
            rw s.head_is (length-drop_lt n p.head positive more) in
          record {
            keeps = s.keeps;
            fewer = omega arith;
            falls =
                takes_token p.finished p'.finished p.expected_head p'.expected_head (length p.head)
                  (length p'.head) going s.finished_is fall;
            ended = λ f. cc (s.finished_is, going, f);
          }

  scope_Round :
      (s : Shape) (message : List ℕ)
      → type_is (open_kind s) (first_token p.head) ≡ true
      → Ensures (Progress goal p) (store_scope message (find_scope s p.head) p)
  scope_Round s message e =
      if-Ensures (Progress goal p) (find_scope s p.head).valid _ _
        (λ valid.
          let end_is = (find_scope_sound s p.head valid).end_is in
          store_Round (find_scope s p.head).end operator_ (omega arith)
            (opening_acts s (first_token p.head) e))
        (λ invalid. tt)

  operator_by_role :
      (r : Role)
      → role (first_token p.head) ≡ r
      → Ensures (Progress goal p) (elim r [
        | binary ↦ store_or_check 1 operative_ p
        | postfix ↦ store_or_check 1 operator_ p
        | prefix ↦ throws prefix_following
        | _ ↦ throws operand_following
      ])
  operator_by_role operand e = tt
  operator_by_role prefix e = tt
  operator_by_role postfix e = store_Round 1 operator_ (omega arith) (ap acts e)
  operator_by_role binary e = store_Round 1 operative_ (omega arith) (ap acts e)
  operator_by_role no_role e = tt

  pub choose_operator-Progress : Ensures (Progress goal p) (choose_operator p)
  unfolding choose_operator
  choose_operator-Progress =
      let t = first_token p.head in
      if-Ensures (Progress goal p) (type_is ETk.open_paren_ t) _ _ (scope_Round paren _)
        (λ no_paren.
          if-Ensures (Progress goal p) (type_is ETk.open_brace_ t) _ _ (scope_Round list _)
            (λ no_brace.
              if-Ensures (Progress goal p) (type_is ETk.open_bracket_ t) _ _ (scope_Round frame _)
                (λ no_bracket. operator_by_role (role t) refl)))
