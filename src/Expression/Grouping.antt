-- ===== src/Expression/Grouping.antt =====
-- Precedence and associativity: the tree of two binary operators between three operands.
use cand_lang_proto.Base.{
  Bool, true, false, ◌&&◌, ◌||◌, ◌==◌, leb, ltb, [], ◌∷◌, ◌≡◌, refl, arith, Bool-cases, inl, inr,
  if◌then◌else◌,
}
use cand_lang_proto.Syntax.Operators.{EAssoc}
use cand_lang_proto.Syntax.Token.{Tk, assoc}
use cand_lang_proto.Syntax.Ast.{Ast, of_token, push_back}
use cand_lang_proto.Scopes.Find.{paren, opens, closes, kind_turn, turn}
use cand_lang_proto.Expression.Outcome.{ok}
use cand_lang_proto.Expression.Parse.{operand, binary, role}
use cand_lang_proto.Expression.Spelling.{Spells, single, grouped, just, between}
use cand_lang_proto.Expression.ParseRoundTrip.{parse_expression_impl-Spells}
use cand_lang_proto.Expression.Closure.{level, token_level}
use cand_lang_proto.Expression.ClosureList.{open_tk, close_tk}
use cand_lang_proto.Expression.OperatorLevels.{binary_level, binary-assoc}
use cand_lang_proto.Expression.Parenthesizer.{
  parenthesize_within, parenthesize_expression, parse_expression,
}
use cand_lang_proto.Expression.TwoOperators.{
  at, left_tokens, right_tokens, second_stored, second_resolved, enclosed-Ends, both_left,
  both_right, both_higher, two_operators_written,
}

-- The first of two operators has the middle operand if its priority is higher, or if the two have
-- one priority and the second groups to the left.
abbrev pub groups_left : Tk → Tk → Bool
groups_left p q =
    ltb (token_level q) (token_level p)
    || (token_level p == token_level q && (elim (assoc q) [ EAssoc.left_ ↦ true | _ ↦ false ]))

abbrev pub binary_node : Tk → Ast → Ast → Ast
binary_node t x y = push_back (push_back (of_token t) x) y

module _ (a b c p q : Tk) (ra : role a ≡ operand) (rb : role b ≡ operand) (rc : role c ≡ operand)
    (rp : role p ≡ binary) (rq : role q ≡ binary) where
  abbrev Grouped : Type 0
  Grouped =
      parenthesize_expression (a ∷ p ∷ b ∷ q ∷ c ∷ [])
      ≡ ok (if groups_left p q then left_tokens a b c p q else right_tokens a b c p q)

  of_lower : ltb (token_level q) (token_level p) ≡ true → Grouped
  unfolding parenthesize_expression parenthesize_within
  of_lower lower =
      let below : leb (level (at 2 p)) (token_level q) ≡ false =
        ground (arith, binary_level (at 2 p) rp) in
      rw lower (
        two_operators_written (parenthesize_within 5) a b c p q ra rb rc rp rq _ _
          (second_resolved (parenthesize_within 5) a b c p q ra rb rc rp rq below)
          (enclosed-Ends (parenthesize_within 5) a b c p q ra rb rc rp rq))

  of_higher :
      ltb (token_level q) (token_level p) ≡ false
      → (token_level p == token_level q) ≡ false
      → Grouped
  unfolding parenthesize_expression parenthesize_within
  of_higher no_lower differs =
      let above : leb (level (at 2 p)) (token_level q) ≡ true =
        ground (arith, binary_level (at 2 p) rp) in
      rw (no_lower, differs)
        (two_operators_written (parenthesize_within 5) a b c p q ra rb rc rp rq _ _
          (second_stored (parenthesize_within 5) a b c p q ra rb rc rp rq above)
          (both_higher (parenthesize_within 5) a b c p q ra rb rc rp rq
            (rw (binary_level (at 2 p) rp) differs)))

  module _ (no_lower : ltb (token_level q) (token_level p) ≡ false)
      (same : (token_level p == token_level q) ≡ true) where
    above_same : leb (level (at 2 p)) (token_level q) ≡ true
    above_same = ground (arith, binary_level (at 2 p) rp)

    levels : level (at 4 q) ≡ level (at 2 p)
    levels = ground (arith, binary_level (at 2 p) rp, binary_level (at 4 q) rq)

    of_same : (s : EAssoc) → assoc q ≡ s → Grouped
    unfolding parenthesize_expression parenthesize_within
    of_same EAssoc.left_ e =
        rw (no_lower, same, e)
          (two_operators_written (parenthesize_within 5) a b c p q ra rb rc rp rq _ _
            (second_stored (parenthesize_within 5) a b c p q ra rb rc rp rq above_same)
            (both_left (parenthesize_within 5) a b c p q ra rb rc rp rq levels e))
    of_same EAssoc.right_ e =
        rw (no_lower, same, e)
          (two_operators_written (parenthesize_within 5) a b c p q ra rb rc rp rq _ _
            (second_stored (parenthesize_within 5) a b c p q ra rb rc rp rq above_same)
            (both_right (parenthesize_within 5) a b c p q ra rb rc rp rq levels e))
    of_same EAssoc.none_ e = absurd (binary-assoc (at 4 q) rq e)

  parenthesize_grouped : Grouped
  parenthesize_grouped = elim (Bool-cases (ltb (token_level q) (token_level p))) [
    | inl lower ↦ of_lower lower
    | inr no_lower ↦ elim (Bool-cases (token_level p == token_level q)) [
      | inl same ↦ of_same no_lower same (assoc q) refl
      | inr differs ↦ of_higher no_lower differs
    ]
  ]

  open_turn : turn open_tk ≡ opens paren
  unfolding kind_turn
  open_turn = refl

  close_turn : turn close_tk ≡ closes paren
  unfolding kind_turn
  close_turn = refl

  left_Spells :
      Spells
        (left_tokens a b c p q)
        (binary_node q (binary_node p (of_token a) (of_token b)) (of_token c))
  left_Spells = just _ _ (
      grouped open_tk close_tk _ _ open_turn close_turn (
        between q (open_tk ∷ a ∷ p ∷ b ∷ close_tk ∷ []) (c ∷ []) _ _ rq
          (grouped open_tk close_tk (a ∷ p ∷ b ∷ []) _ open_turn close_turn
            (between p (a ∷ []) (b ∷ []) _ _ rp (single a ra) (single b rb)))
          (single c rc)))

  right_Spells :
      Spells
        (right_tokens a b c p q)
        (binary_node p (of_token a) (binary_node q (of_token b) (of_token c)))
  right_Spells = just _ _ (
      grouped open_tk close_tk _ _ open_turn close_turn (
        between p (a ∷ []) (open_tk ∷ b ∷ q ∷ c ∷ close_tk ∷ []) _ _ rp (single a ra) (
          grouped open_tk close_tk (b ∷ q ∷ c ∷ []) _ open_turn close_turn
            (between q (b ∷ []) (c ∷ []) _ _ rq (single b rb) (single c rc)))))

  -- For three operands and two binary operators, of any tokens with these roles, the expression
  -- `a p b q c` is parsed as `(a p b) q c` where `p` has the higher priority, or the same and
  -- `q` groups to the left, and as `a p (b q c)` otherwise.
  pub parse_expression-grouping :
      parse_expression (a ∷ p ∷ b ∷ q ∷ c ∷ [])
      ≡ ok (
          if groups_left p q
          then binary_node q (binary_node p (of_token a) (of_token b)) (of_token c)
          else binary_node p (of_token a) (binary_node q (of_token b) (of_token c)))
  unfolding parse_expression
  parse_expression-grouping = elim (Bool-cases (groups_left p q)) [
    | inl left ↦
        rw parenthesize_grouped
          (rw left (parse_expression_impl-Spells (left_tokens a b c p q) _ left_Spells))
    | inr right ↦
        rw parenthesize_grouped
          (rw right (parse_expression_impl-Spells (right_tokens a b c p q) _ right_Spells))
  ]
