-- ===== src/Expression/Parenthesizer.antt =====
-- Candi_Compiler/parenthesizer.hpp, `class parenthesizer` and `parse_expression`. The range from
-- `head_` to `end_` is the list of its tokens.
use cand_lang_proto.Base.{
  ℕ, zero, suc, ◌+◌, ◌*◌, Bool, true, false, leb, ltb, List, [], ◌∷◌, length, take, drop, map,
  bytes, if◌then◌else◌,
}
use cand_lang_proto.Syntax.TokenKind.{ETk}
use cand_lang_proto.Syntax.Token.{Tk, type_is, of_type}
use cand_lang_proto.Syntax.Ast.{Ast}
use cand_lang_proto.Scopes.Scope.{TkScope}
use cand_lang_proto.Scopes.Find.{find_paren, find_brace, find_bracket}
use cand_lang_proto.Expression.Outcome.{Ending, ok, throws, undefined, no_fuel, ◌>>=◌}
use cand_lang_proto.Expression.Parse.{
  operand, prefix, postfix, binary, role, first_token, contained, mismatched_operand,
  parse_expression_impl,
}
use cand_lang_proto.Expression.Closure.{Node, Closure, level, token_level}
use cand_lang_proto.Expression.ClosureList.{ClosureList, output_push_back, resolve_next}

pub data ExpectedHead : Type 0 where
  operative_ operator_ : ExpectedHead

pub record Parenthesizer : Type 0 where
  pub head : List Tk
  pub lists : ClosureList
  pub expected_head : ExpectedHead
  pub first_pass : Bool
  pub finished : Bool

abbrev pub sentinel : Node
sentinel = record { id = 0; tk = of_type ETk.none_ }

abbrev pub sentinel_closure : Closure
sentinel_closure = record { front = sentinel; back = sentinel }

-- The constructor.
unfoldable pub parenthesizer : List Tk → Parenthesizer
parenthesizer ts = record {
  head = ts;
  lists = record { output = sentinel ∷ []; next_id = 1; closures = sentinel_closure ∷ [] };
  expected_head = operative_;
  first_pass = true;
  finished = false;
}

abbrev pub mismatched_operand_braces : List ℕ
mismatched_operand_braces = bytes "Mismatched braces in operand."

abbrev pub mismatched_operand_brackets : List ℕ
mismatched_operand_brackets = bytes "Mismatched brackets in operand."

abbrev pub no_operand : List ℕ
no_operand = bytes "No operand for operator."

abbrev pub prefix_following : List ℕ
prefix_following = bytes "Prefix following operand in expression."

abbrev pub operand_following : List ℕ
operand_following = bytes "Operand following operand in expression."

unfoldable pub output_push_all : List Tk → ClosureList → ClosureList
output_push_all [] l = l
output_push_all (t ∷ ts) l = output_push_all ts (output_push_back t l)

-- `std::prev(output_.end())`.
unfoldable pub last_node : Node → List Node → Node
last_node n [] = n
last_node n (m ∷ ms) = last_node m ms

abbrev pub tokens_of : List Node → List Tk
tokens_of ns = map (λ (n : Node). n.tk) ns

-- The parameter `n` is the distance of `end` from the head.
unfoldable pub action_store : ℕ → Parenthesizer → Parenthesizer
action_store n p =
    let start : Node = record { id = p.lists.next_id; tk = first_token p.head } in
    let stored = output_push_all (take n p.head) p.lists in
    record p {
      head = drop n p.head;
      lists = record stored {
        closures = record { front = start; back = last_node start stored.output } ∷ stored.closures;
      };
    }

-- The loops of `action_check`. A round resolves a closure at least, so that their number is enough
-- fuel.
unfoldable pub resolve_all : ℕ → ClosureList → Ending ClosureList
resolve_all zero l = no_fuel
resolve_all (suc fuel) l =
    let next = resolve_next l >>= resolve_all fuel in
    if ltb 1 (length l.closures) then next else ok l

unfoldable pub resolve_higher : ℕ → ℕ → ClosureList → Ending ClosureList
resolve_higher zero p l = no_fuel
resolve_higher (suc fuel) p l = elim l.closures [
  | [] ↦ undefined
  | c ∷ _ ↦ if ltb p (level c) then resolve_next l >>= resolve_higher fuel p else ok l
]

abbrev pub set_lists : ClosureList → Parenthesizer → Parenthesizer
set_lists l p = record p { lists = l }

unfoldable pub action_check_end : Parenthesizer → Ending Parenthesizer
action_check_end p = resolve_all (suc (length p.lists.closures)) p.lists >>= λ l. ok (set_lists l p)

unfoldable pub action_check : ℕ → Parenthesizer → Ending Parenthesizer
action_check n p = elim p.lists.closures [
  | [] ↦ undefined
  | c ∷ _ ↦
      if leb (level c) (token_level (first_token p.head))
      then ok (action_store n p)
      else resolve_higher (suc (length p.lists.closures)) (token_level (first_token p.head)) p.lists
        >>= λ l. ok (action_store n (set_lists l p))
]

abbrev pub expect : ExpectedHead → Parenthesizer → Parenthesizer
expect e p = record p { expected_head = e }

-- An operator is stored on the first pass, and checked on the later ones.
unfoldable pub store_or_check : ℕ → ExpectedHead → Parenthesizer → Ending Parenthesizer
store_or_check n e p =
    if p.first_pass
    then ok (record (action_store n p) { first_pass = false; expected_head = e })
    else action_check n p >>= λ p'. ok (record p' { first_pass = false; expected_head = e })

abbrev pub store_scope : List ℕ → TkScope → Parenthesizer → Ending Parenthesizer
store_scope message s p = if s.valid then store_or_check s.end operator_ p else throws message

unfoldable pub choose_operator : Parenthesizer → Ending Parenthesizer
choose_operator p =
    if type_is ETk.open_paren_ (first_token p.head)
    then store_scope mismatched_operand (find_paren p.head) p
    else if type_is ETk.open_brace_ (first_token p.head)
    then store_scope mismatched_operand_braces (find_brace p.head) p
    else if type_is ETk.open_bracket_ (first_token p.head)
    then store_scope mismatched_operand_brackets (find_bracket p.head) p
    else elim (role (first_token p.head)) [
      | binary ↦ store_or_check 1 operative_ p
      | postfix ↦ store_or_check 1 operator_ p
      | prefix ↦ throws prefix_following
      | _ ↦ throws operand_following
    ]

-- `parenthesize` is what a parenthesizer of its own does to the inside of parentheses.
module _ (parenthesize : List Tk → Ending (List Tk)) where
  unfoldable pub action_skip : ℕ → Parenthesizer → Ending Parenthesizer
  action_skip n p = elim (role (first_token p.head)) [
    | operand ↦
        ok
          (record p { head = drop 1 p.head; lists = output_push_back (first_token p.head) p.lists })
    | _ ↦
        if type_is ETk.open_paren_ (first_token p.head)
        then (let s = find_paren (take n p.head) in
            if s.valid
            then (parenthesize (contained s p.head) >>= λ inner.
                ok (record p { head = drop n p.head; lists = output_push_all inner p.lists }))
            else throws mismatched_operand)
        else ok p
  ]

  abbrev pub skip : ℕ → Parenthesizer → Ending Parenthesizer
  skip n p = action_skip n p >>= λ p'. ok (expect operator_ p')

  unfoldable pub choose_operative : Parenthesizer → Ending Parenthesizer
  choose_operative p =
      if type_is ETk.open_paren_ (first_token p.head)
      then (let s = find_paren p.head in
          if s.valid then skip s.end p else throws mismatched_operand)
      else if type_is ETk.open_brace_ (first_token p.head)
      then (let s = find_brace p.head in
          if s.valid then skip s.end p else throws mismatched_operand_braces)
      else elim (role (first_token p.head)) [
        | prefix ↦ store_or_check 1 operative_ p
        | binary ↦ throws no_operand
        | postfix ↦ throws no_operand
        | _ ↦ skip 1 p
      ]

  unfoldable pub choose_action : Parenthesizer → Ending Parenthesizer
  choose_action p = elim p.head [
    | [] ↦ action_check_end p >>= λ p'. ok (record p' { finished = true })
    | _ ∷ _ ↦ elim p.expected_head [
      | operative_ ↦ choose_operative p
      | operator_ ↦ choose_operator p
    ]
  ]

  -- The loop of `parenthesize_expression`.
  unfoldable pub parenthesize_loop : ℕ → Parenthesizer → Ending Parenthesizer
  parenthesize_loop zero p = no_fuel
  parenthesize_loop (suc fuel) p =
      let next = choose_action p >>= parenthesize_loop fuel in if p.finished then ok p else next

unfoldable pub parenthesized : Parenthesizer → List Tk
parenthesized p = tokens_of (drop 1 p.lists.output)

-- A round takes a token at least, or turns from an operand to an operator.
unfoldable pub parenthesize_within : ℕ → List Tk → Ending (List Tk)
parenthesize_within zero ts = no_fuel
parenthesize_within (suc fuel) ts =
    parenthesize_loop (parenthesize_within fuel) (2 * length ts + 3) (parenthesizer ts) >>= λ p.
    ok (parenthesized p)

unfoldable pub parenthesize_expression : List Tk → Ending (List Tk)
parenthesize_expression ts = parenthesize_within (suc (length ts)) ts

unfoldable pub parse_expression : List Tk → Ending Ast
parse_expression ts = parenthesize_expression ts >>= parse_expression_impl
