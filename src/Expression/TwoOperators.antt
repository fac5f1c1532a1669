-- ===== src/Expression/TwoOperators.antt =====
-- `parenthesize_expression` and `parse_expression` for two binary operators between three operands.
use cand_lang_proto.Base.{
  ℕ, suc, ◌<◌, Bool, true, false, ◌==◌, leb, ltb, List, [], ◌∷◌, ◌++◌, length, drop, ◌≡◌, refl, ap,
  ◌∙◌, arith,
}
use cand_lang_proto.Syntax.TokenKind.{tk_eq}
use cand_lang_proto.Syntax.Operators.{EAssoc, priority_value, tk_type_priority}
use cand_lang_proto.Syntax.Token.{Tk, assoc}
use cand_lang_proto.Expression.Outcome.{Ending, ok, ◌>>=◌}
use cand_lang_proto.Expression.Parse.{operand, binary, role}
use cand_lang_proto.Expression.Closure.{
  Node, Closure, level, token_level, insert_before, insert_after, closure_priority,
}
use cand_lang_proto.Expression.ClosureList.{
  ClosureList, output_push_back, is_unary, first_is_none, set_closures, enclose, surround_left,
  surround_right, open_tk, close_tk, output_insert_tk_after_closure,
  output_insert_tk_before_closure,
}
use cand_lang_proto.Expression.OperatorLevels.{
  binary_level, binary-is_unary, none_level, operator_level, acts,
}
use cand_lang_proto.Expression.Parenthesizer.{
  Parenthesizer, ExpectedHead, operative_, operator_, choose_action, store_or_check, action_check,
  action_store, action_check_end, resolve_all, resolve_higher, parenthesize_loop, output_push_all,
  last_node, sentinel, sentinel_closure, tokens_of, parenthesized, parenthesizer,
}
use cand_lang_proto.Expression.Precedence.{
  operand_round, operator_round, single_resolves, left_resolves, right_resolves,
}

abbrev pub state : List Tk → ClosureList → ExpectedHead → Bool → Parenthesizer
state ts l e first = record {
  head = ts;
  lists = l;
  expected_head = e;
  first_pass = first;
  finished = false;
}

abbrev pub node : ℕ → Tk → Node
node i t = record { id = i; tk = t }

abbrev pub at : ℕ → Tk → Closure
at i t = record { front = node i t; back = node i t }

abbrev pub lists_of : List Node → ℕ → List Closure → ClosureList
lists_of o n cs = record { output = o; next_id = n; closures = cs }

module _ (parenthesize : List Tk → Ending (List Tk)) where
  run_step :
      (fuel : ℕ) (ts : List Tk) (l : ClosureList) (e : ExpectedHead) (first : Bool)
      (p : Parenthesizer)
      → choose_action parenthesize (state ts l e first) ≡ ok p
      → parenthesize_loop parenthesize (suc fuel) (state ts l e first)
        ≡ parenthesize_loop parenthesize fuel p
  unfolding parenthesize_loop
  run_step fuel ts l e first p h = ap (λ m. m >>= parenthesize_loop parenthesize fuel) h

  -- The last operand and the end.
  last_operand :
      (c : Tk) (l l' : ClosureList) (fuel : ℕ)
      → role c ≡ operand
      → resolve_all (suc (length l.closures)) (output_push_back c l) ≡ ok l'
      → parenthesize_loop parenthesize (suc (suc (suc fuel))) (state (c ∷ []) l operative_ false)
        ≡ ok (record (state [] l' operator_ false) { finished = true })
  unfolding parenthesize_loop choose_action action_check_end output_push_back
  last_operand c l l' fuel e h =
      run_step (suc (suc fuel)) (c ∷ []) l operative_ false _
        (operand_round parenthesize c [] l false e)
      ∙ rw h refl

sentinel_first : first_is_none (sentinel_closure ∷ []) ≡ true
unfolding tk_eq
sentinel_first = refl

sentinel_unary : is_unary sentinel_closure ≡ false
unfolding closure_priority tk_type_priority priority_value tk_eq
sentinel_unary = refl

operator_positive : (i : ℕ) (t : Tk) → role t ≡ binary → 0 < level (at i t)
operator_positive i t e = operator_level (at i t) (ap acts e)

sentinel_differs : (t : Tk) → role t ≡ binary → (level sentinel_closure == token_level t) ≡ false
sentinel_differs t e =
    ground
      (arith, none_level sentinel_closure refl, binary_level (at 0 t) e, operator_positive 0 t e)

-- The two ways to parenthesize the operands `a`, `b` and `c` with the operators `p` and `q` between.
abbrev pub left_tokens : Tk → Tk → Tk → Tk → Tk → List Tk
left_tokens a b c p q = open_tk ∷ open_tk ∷ a ∷ p ∷ b ∷ close_tk ∷ q ∷ c ∷ close_tk ∷ []

abbrev pub right_tokens : Tk → Tk → Tk → Tk → Tk → List Tk
right_tokens a b c p q = open_tk ∷ a ∷ p ∷ open_tk ∷ b ∷ q ∷ c ∷ close_tk ∷ close_tk ∷ []

module _ (parenthesize : List Tk → Ending (List Tk)) (a b c p q : Tk) (ra : role a ≡ operand)
    (rb : role b ≡ operand) (rc : role c ≡ operand) (rp : role p ≡ binary)
    (rq : role q ≡ binary) where
  abbrev pub before_second : ClosureList
  before_second =
      lists_of (sentinel ∷ node 1 a ∷ node 2 p ∷ node 3 b ∷ []) 4 (at 2 p ∷ sentinel_closure ∷ [])

  -- The rounds in front of the second operator.
  first_operator_read :
      (fuel : ℕ)
      → parenthesize_loop parenthesize
          (suc (suc (suc fuel)))
          (parenthesizer (a ∷ p ∷ b ∷ q ∷ c ∷ []))
        ≡ parenthesize_loop parenthesize fuel (state (q ∷ c ∷ []) before_second operator_ false)
  unfolding parenthesizer store_or_check action_store output_push_all output_push_back last_node
  first_operator_read fuel =
      run_step parenthesize (suc (suc fuel)) _ _ operative_ true _ (
        operand_round parenthesize a (p ∷ b ∷ q ∷ c ∷ [])
          (lists_of (sentinel ∷ []) 1 (sentinel_closure ∷ [])) true ra)
      ∙ run_step parenthesize (suc fuel) _ _ operator_ true _ (
          operator_round parenthesize p (b ∷ q ∷ c ∷ [])
            (lists_of (sentinel ∷ node 1 a ∷ []) 2 (sentinel_closure ∷ [])) true rp)
      ∙ run_step parenthesize fuel _ _ operative_ false _ (
          operand_round parenthesize b (q ∷ c ∷ [])
            (lists_of (sentinel ∷ node 1 a ∷ node 2 p ∷ []) 3 (at 2 p ∷ sentinel_closure ∷ []))
            false rb)

  abbrev pub both : ClosureList
  both =
      lists_of (sentinel ∷ node 1 a ∷ node 2 p ∷ node 3 b ∷ node 4 q ∷ []) 5
        (at 4 q ∷ at 2 p ∷ sentinel_closure ∷ [])

  abbrev pub first_enclosed : ClosureList
  first_enclosed =
      lists_of
        (sentinel
          ∷ node 4 open_tk
          ∷ node 1 a
          ∷ node 2 p
          ∷ node 3 b
          ∷ node 5 close_tk
          ∷ node 6 q
          ∷ [])
        7 (at 6 q ∷ sentinel_closure ∷ [])

  pub second_stored :
      leb (level (at 2 p)) (token_level q) ≡ true
      → store_or_check 1 operative_ (state (q ∷ c ∷ []) before_second operator_ false)
        ≡ ok (state (c ∷ []) both operative_ false)
  unfolding store_or_check action_check action_store output_push_all output_push_back last_node
  second_stored h = rw (h, action_check) refl

  abbrev enclosed_lists : ClosureList
  enclosed_lists =
      lists_of (sentinel ∷ node 4 open_tk ∷ node 1 a ∷ node 2 p ∷ node 3 b ∷ node 5 close_tk ∷ []) 6
        (sentinel_closure ∷ [])

  higher_resolved :
      leb (level (at 2 p)) (token_level q) ≡ false
      → resolve_higher 3 (token_level q) before_second ≡ ok enclosed_lists
  unfolding resolve_higher output_insert_tk_after_closure output_push_back insert_after
  higher_resolved h =
      let more : ltb (token_level q) (level (at 2 p)) ≡ true = ground arith in
      let less : ltb (token_level q) (level sentinel_closure) ≡ false =
        ground (arith, none_level sentinel_closure refl) in
      rw (more, resolve_higher)
        (rw
          (single_resolves (at 2 p) sentinel_closure []
            (sentinel ∷ node 1 a ∷ node 2 p ∷ node 3 b ∷ []) 4 rp sentinel_first
            (sentinel_differs p rp) sentinel_unary)
          (rw (less, resolve_higher) refl))

  pub second_resolved :
      leb (level (at 2 p)) (token_level q) ≡ false
      → store_or_check 1 operative_ (state (q ∷ c ∷ []) before_second operator_ false)
        ≡ ok (state (c ∷ []) first_enclosed operative_ false)
  unfolding store_or_check action_check action_store output_push_all output_push_back last_node
  second_resolved h = rw (h, action_check) (rw (higher_resolved h) refl)

  -- The end of the loop, by what is stored and by the priorities.
  abbrev pub Ends : ClosureList → List Tk → Type 0
  Ends l ts =
      (l' : ClosureList) × (resolve_all (suc (length l.closures)) (output_push_back c l) ≡ ok l')
      × (tokens_of (drop 1 l'.output) ≡ ts)

  pub enclosed-Ends : Ends first_enclosed (left_tokens a b c p q)
  unfolding resolve_all output_insert_tk_after_closure output_push_back insert_after
  enclosed-Ends = (
    enclose sentinel_closure
        (lists_of (first_enclosed.output ++ node 7 c ∷ []) 8 (sentinel_closure ∷ [])),
    rw
        (single_resolves (at 6 q) sentinel_closure [] (first_enclosed.output ++ node 7 c ∷ []) 8 rq
          sentinel_first (sentinel_differs q rq) sentinel_unary)
        refl,
    refl,
  )

  pub both_left :
      level (at 4 q) ≡ level (at 2 p) → assoc q ≡ EAssoc.left_ → Ends both (left_tokens a b c p q)
  unfolding resolve_all output_insert_tk_after_closure output_insert_tk_before_closure
      output_push_back insert_after insert_before surround_left
  both_left same left = (
    set_closures (sentinel_closure ∷ []) (
        surround_left sentinel_closure (at 4 q) (at 2 p ∷ [])
          (enclose sentinel_closure (output_push_back c both))),
    rw
        (left_resolves (at 4 q) (at 2 p) sentinel_closure (both.output ++ node 5 c ∷ []) 6 rq refl
          (operator_positive 2 p rp) same left)
        refl,
    refl,
  )

  pub both_right :
      level (at 4 q) ≡ level (at 2 p) → assoc q ≡ EAssoc.right_ → Ends both (right_tokens a b c p q)
  unfolding resolve_all output_insert_tk_after_closure output_push_back insert_after surround_right
  both_right same right = (
    set_closures (sentinel_closure ∷ [])
        (surround_right (at 2 p ∷ []) (enclose sentinel_closure (output_push_back c both))),
    rw
        (right_resolves (at 4 q) (at 2 p) sentinel_closure (both.output ++ node 5 c ∷ []) 6 rq refl
          (operator_positive 2 p rp) same right)
        refl,
    refl,
  )

  pub both_higher : (level (at 2 p) == token_level q) ≡ false → Ends both (right_tokens a b c p q)
  unfolding resolve_all output_insert_tk_after_closure output_push_back insert_after
  both_higher differs = (
    enclose sentinel_closure
        (set_closures (sentinel_closure ∷ []) (enclose (at 2 p) (output_push_back c both))),
    rw
        (single_resolves (at 4 q) (at 2 p) (sentinel_closure ∷ []) (both.output ++ node 5 c ∷ []) 6
          rq sentinel_first differs (binary-is_unary (at 2 p) rp))
        (rw
          (single_resolves (at 2 p) sentinel_closure []
            (enclose (at 2 p) (output_push_back c both)).output 8 rp sentinel_first
            (sentinel_differs p rp) sentinel_unary)
          refl),
    refl,
  )

  pub two_operators_written :
      (l : ClosureList) (ts : List Tk)
      → store_or_check 1 operative_ (state (q ∷ c ∷ []) before_second operator_ false)
        ≡ ok (state (c ∷ []) l operative_ false)
      → Ends l ts
      → (parenthesize_loop parenthesize 13 (parenthesizer (a ∷ p ∷ b ∷ q ∷ c ∷ [])) >>= λ p'.
          ok (parenthesized p'))
        ≡ ok ts
  unfolding parenthesized
  two_operators_written l ts h (l', ended, tokens_are) =
      ap (λ m. m >>= λ p'. ok (parenthesized p'))
        (first_operator_read 10
          ∙ run_step parenthesize 9 (q ∷ c ∷ []) before_second operator_ false _
              (operator_round parenthesize q (c ∷ []) before_second false rq ∙ h)
          ∙ last_operand parenthesize c l l' 6 rc ended)
      ∙ ap (λ us. ok us) tokens_are
