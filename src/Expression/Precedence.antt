-- ===== src/Expression/Precedence.antt =====
-- Two binary operators between three operands: which of them takes the middle operand.
use cand_lang_proto.Base.{
  ℕ, suc, ◌<◌, Bool, true, false, ◌||◌, ◌==◌, leb, List, [], ◌∷◌, length, ◌≡◌, refl, ◌∙◌, arith,
}
use cand_lang_proto.Syntax.TokenKind.{ETk}
use cand_lang_proto.Syntax.Equality.{tk_eq_iff}
use cand_lang_proto.Syntax.Operators.{EAssoc, EPriority}
use cand_lang_proto.Syntax.Token.{Tk, assoc}
use cand_lang_proto.Scopes.Find.{paren, list, frame}
use cand_lang_proto.Expression.Outcome.{Ending, ok}
use cand_lang_proto.Expression.Parse.{operand, binary, role}
use cand_lang_proto.Expression.ParseSteps.{no_scope}
use cand_lang_proto.Expression.Closure.{Node, Closure, level, token_level}
use cand_lang_proto.Expression.ClosureList.{
  ClosureList, output_push_back, resolve_next, resolve_binary, resolve_binary_single, skip_priority,
  has_priority, is_unary, first_is_none, asserted, set_closures, enclose, surround_left,
  surround_right, resolve_binary_left_associative, resolve_binary_right_associative,
  find_backward_consecutive_and_ignore, pop_if_level, same_priority,
}
use cand_lang_proto.Expression.OperatorLevels.{
  binary_level, binary-opens_scope, binary-is_unary, none_level,
}
use cand_lang_proto.Expression.Parenthesizer.{
  operative_, operator_, choose_action, choose_operative, choose_operator, action_skip,
  store_or_check,
}

module _ (parenthesize : List Tk → Ending (List Tk)) (t : Tk) (ts : List Tk) (l : ClosureList)
    (first : Bool) where
  pub operand_round :
      role t ≡ operand
      → choose_action parenthesize (record {
        head = t ∷ ts;
        lists = l;
        expected_head = operative_;
        first_pass = first;
        finished = false;
      })
        ≡ ok (record {
          head = ts;
          lists = output_push_back t l;
          expected_head = operator_;
          first_pass = first;
          finished = false;
        })
  unfolding choose_action choose_operative action_skip
  operand_round e =
      rw (no_scope t paren (λ f. cc), no_scope t list (λ f. cc), e, choose_action, choose_operative)
        (rw (e, action_skip) refl)

  pub operator_round :
      role t ≡ binary
      → choose_action parenthesize (record {
        head = t ∷ ts;
        lists = l;
        expected_head = operator_;
        first_pass = first;
        finished = false;
      })
        ≡ store_or_check 1 operative_ (record {
          head = t ∷ ts;
          lists = l;
          expected_head = operator_;
          first_pass = first;
          finished = false;
        })
  unfolding choose_action choose_operator
  operator_round e =
      rw
        (
          no_scope t paren (λ f. cc),
          no_scope t list (λ f. cc),
          no_scope t frame (λ f. cc),
          e,
          choose_action,
          choose_operator,
        )
        refl

neither : (a b : Bool) → (a || b) ≡ false → (a ≡ false) × (b ≡ false)
neither true b h = cc
neither false b h = (refl, h)

-- The last of two closures at least is a binary operator's, and the first is the sentinel's.
module _ (c d : Closure) (ds : List Closure) (o : List Node) (n : ℕ) (e : role c.front.tk ≡ binary)
    (f : first_is_none (d ∷ ds) ≡ true) where
  abbrev pub stacked_list : ClosureList
  stacked_list = record { output = o; next_id = n; closures = c ∷ d ∷ ds }

  asserted_lem : asserted stacked_list ≡ true
  asserted_lem = let two : leb 2 (suc (suc (length ds))) ≡ true = ground arith in rw two f

  next_is_binary : resolve_next stacked_list ≡ resolve_binary stacked_list
  unfolding resolve_next
  next_is_binary = rw (e, resolve_next) (rw (binary-opens_scope c e) refl)

  pub single_resolves :
      (level d == token_level c.front.tk) ≡ false
      → is_unary d ≡ false
      → resolve_next stacked_list ≡ ok (set_closures (d ∷ ds) (enclose d stacked_list))
  unfolding resolve_binary resolve_binary_single skip_priority
  single_resolves differs u =
      let (no_postfix, no_prefix) =
        neither (has_priority EPriority.postfix_ d) (has_priority EPriority.prefix_ d) u in
      next_is_binary
      ∙ rw (asserted_lem, resolve_binary)
          (rw (differs, resolve_binary_single)
            (rw (no_postfix, skip_priority) (rw (no_prefix, skip_priority) refl)))

-- A run of two closures of one priority, in front of which the sentinel stands.
module _ (c d b : Closure) (o : List Node) (n : ℕ) (e : role c.front.tk ≡ binary)
    (none_first : b.front.tk.kind ≡ ETk.none_) (positive : 0 < level d)
    (same : level c ≡ level d) where
  abbrev pub pair_list : ClosureList
  pair_list = record { output = o; next_id = n; closures = c ∷ d ∷ b ∷ [] }

  pair_found :
      find_backward_consecutive_and_ignore same_priority is_unary (c ∷ d ∷ b ∷ [])
      ≡ ok (record { found = c ∷ d ∷ []; rest = b ∷ [] })
  unfolding find_backward_consecutive_and_ignore
  pair_found =
      let one : same_priority c d ≡ true = ground arith in
      let other : same_priority d b ≡ false = ground (arith, none_level b none_first) in
      let c_binary = binary-is_unary c e in
      let d_binary : is_unary d ≡ false = rw (← same) c_binary in
      rw (c_binary, one, find_backward_consecutive_and_ignore)
        (rw (d_binary, other, find_backward_consecutive_and_ignore) refl)

  pair_popped : pop_if_level (level d) (c ∷ d ∷ b ∷ []) ≡ b ∷ []
  unfolding pop_if_level
  pair_popped =
      let one : (level c == level d) ≡ true = ground arith in
      let two : (level d == level d) ≡ true = ground arith in
      let other : (level b == level d) ≡ false = ground (arith, none_level b none_first) in
      rw (one, pop_if_level) (rw (two, pop_if_level) (rw (other, pop_if_level) refl))

  pair_is_binary : (level d == token_level c.front.tk) ≡ true
  pair_is_binary = ground (arith, binary_level c e)

  pair_asserted : asserted pair_list ≡ true
  pair_asserted =
      asserted_lem c d (b ∷ []) o n e ((tk_eq_iff b.front.tk.kind ETk.none_).1 none_first)

  pub left_resolves :
      assoc c.front.tk ≡ EAssoc.left_
      → resolve_next pair_list
        ≡ ok (set_closures (b ∷ []) (surround_left b c (d ∷ []) (enclose b pair_list)))
  unfolding resolve_binary resolve_binary_left_associative
  left_resolves a =
      next_is_binary c d (b ∷ []) o n e ((tk_eq_iff b.front.tk.kind ETk.none_).1 none_first)
      ∙ rw (pair_asserted, resolve_binary)
          (rw (pair_is_binary, a, resolve_binary_left_associative)
            (rw (pair_found, pair_popped) refl))

  pub right_resolves :
      assoc c.front.tk ≡ EAssoc.right_
      → resolve_next pair_list
        ≡ ok (set_closures (b ∷ []) (surround_right (d ∷ []) (enclose b pair_list)))
  unfolding resolve_binary resolve_binary_right_associative
  right_resolves a =
      next_is_binary c d (b ∷ []) o n e ((tk_eq_iff b.front.tk.kind ETk.none_).1 none_first)
      ∙ rw (pair_asserted, resolve_binary)
          (rw (pair_is_binary, a, resolve_binary_right_associative)
            (rw (pair_found, pair_popped) refl))
