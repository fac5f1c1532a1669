-- ===== src/Expression/OperatorLevels.antt =====
-- The priorities of the tokens that a closure can start with, above those of the sentinel.
use cand_lang_proto.Base.{
  ℕ, ◌<◌, Bool, true, false, not, ◌&&◌, ◌||◌, ◌==◌, ltb, ltb→lt, ◌≡◌, ◌≢◌, refl, ap, if◌then◌else◌,
}
use cand_lang_proto.Syntax.TokenKind.{ETk, tk_eq}
use cand_lang_proto.Syntax.Operators.{
  EAssoc, EPriority, priority_value, tk_type_operation, tk_type_priority, tk_type_assoc,
}
use cand_lang_proto.Syntax.Token.{assoc}
use cand_lang_proto.Expression.Parse.{Role, prefix, postfix, binary, role, role_of}
use cand_lang_proto.Expression.Closure.{Closure, opens_scope, closure_priority, level, token_level}
use cand_lang_proto.Expression.ClosureList.{is_unary}

-- Prefix, postfix and binary operators, among which are `(`, `{` and `[`.
abbrev pub acts : Role → Bool
acts prefix = true
acts postfix = true
acts binary = true
acts _ = false

abbrev kind_opens : ETk → Bool
kind_opens k = tk_eq k ETk.open_paren_ || tk_eq k ETk.open_brace_ || tk_eq k ETk.open_bracket_

abbrev kind_level : ETk → ℕ
kind_level k = priority_value (if kind_opens k then EPriority.postfix_ else tk_type_priority k)

acts_level : (k : ETk) → (not (acts (role_of (tk_type_operation k))) || ltb 0 (kind_level k)) ≡ true
unfolding tk_type_operation tk_type_priority priority_value tk_eq
acts_level ETk.none_ = refl
acts_level _ = refl

abbrev is_binary : Role → Bool
is_binary binary = true
is_binary _ = false

abbrev has_assoc : EAssoc → Bool
has_assoc EAssoc.none_ = false
has_assoc _ = true

abbrev kind_is_unary : ETk → Bool
kind_is_unary k =
    kind_level k == priority_value EPriority.postfix_
    || kind_level k == priority_value EPriority.prefix_

binary_facts :
    (k : ETk)
    → (not (is_binary (role_of (tk_type_operation k)))
        || (not (kind_opens k) && (not (kind_is_unary k) && has_assoc (tk_type_assoc k))))
      ≡ true
unfolding tk_type_operation tk_type_priority tk_type_assoc priority_value tk_eq
binary_facts ETk.none_ = refl
binary_facts _ = refl

implies : (a b : Bool) → (not a || b) ≡ true → a ≡ true → b ≡ true
implies true b h e = h
implies false b h e = cc

both : (a b : Bool) → (not a && b) ≡ true → (a ≡ false) × (b ≡ true)
both true b h = cc
both false b h = (refl, h)

module _ (c : Closure) where
  pub operator_level : acts (role c.front.tk) ≡ true → 0 < level c
  unfolding closure_priority
  operator_level e = ltb→lt 0 (level c) (implies _ _ (acts_level c.front.tk.kind) e)

  binary_tests :
      role c.front.tk ≡ binary
      → (not (opens_scope c.front.tk) && (not (is_unary c) && has_assoc (assoc c.front.tk))) ≡ true
  unfolding closure_priority
  binary_tests e = implies _ _ (binary_facts c.front.tk.kind) (ap is_binary e)

  -- A binary operator is no scope, so that a closure has the priority of its token.
  pub binary_level : role c.front.tk ≡ binary → level c ≡ token_level c.front.tk
  unfolding closure_priority
  binary_level e = rw ((both (opens_scope c.front.tk) _ (binary_tests e)).0) refl

  pub binary-opens_scope : role c.front.tk ≡ binary → opens_scope c.front.tk ≡ false
  binary-opens_scope e = (both (opens_scope c.front.tk) _ (binary_tests e)).0

  pub binary-is_unary : role c.front.tk ≡ binary → is_unary c ≡ false
  binary-is_unary e = (both (is_unary c) _ (both (opens_scope c.front.tk) _ (binary_tests e)).1).0

  pub binary-assoc : role c.front.tk ≡ binary → assoc c.front.tk ≢ EAssoc.none_
  binary-assoc e f =
      let h = (both (is_unary c) _ (both (opens_scope c.front.tk) _ (binary_tests e)).1).1 in
      cc (h, ap has_assoc f)

  pub none_level : c.front.tk.kind ≡ ETk.none_ → level c ≡ 0
  unfolding closure_priority tk_type_priority priority_value tk_eq
  none_level e = ap kind_level e
