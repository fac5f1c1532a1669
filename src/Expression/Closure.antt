-- ===== src/Expression/Closure.antt =====
-- Candi_Compiler/parenthesizer.hpp, `class closure`, and the list of tokens that its iterators point
-- into.
use cand_lang_proto.Base.{ℕ, Bool, ◌||◌, ◌==◌, List, [], ◌∷◌, if◌then◌else◌}
use cand_lang_proto.Syntax.TokenKind.{ETk}
use cand_lang_proto.Syntax.Operators.{EAssoc, EOperation, EPriority, priority_value}
use cand_lang_proto.Syntax.Token.{Tk, type_is, operation, priority, assoc}

-- A node of a `tk_list`, and an iterator at it: no node is removed but by `parenthesized`, and no
-- token is written, so that the node's number and its token tell which it is.
pub record Node : Type 0 where
  pub id : ℕ
  pub tk : Tk

pub record Closure : Type 0 where
  pub front : Node
  pub back : Node

-- `(`, `{` or `[`.
abbrev pub opens_scope : Tk → Bool
opens_scope t =
    type_is ETk.open_paren_ t || type_is ETk.open_brace_ t || type_is ETk.open_bracket_ t

unfoldable pub closure_operation : Closure → EOperation
closure_operation c = if opens_scope c.front.tk then EOperation.postfix_ else operation c.front.tk

unfoldable pub closure_priority : Closure → EPriority
closure_priority c = if opens_scope c.front.tk then EPriority.postfix_ else priority c.front.tk

unfoldable pub closure_assoc : Closure → EAssoc
closure_assoc c = assoc c.front.tk

-- Priorities are compared by their values, which differ.
abbrev pub level : Closure → ℕ
level c = priority_value (closure_priority c)

abbrev pub token_level : Tk → ℕ
token_level t = priority_value (priority t)

-- `insert` in front of an iterator, and in front of the one behind it.
unfoldable pub insert_before : ℕ → Node → List Node → List Node
insert_before i n [] = []
insert_before i n (m ∷ ms) = if m.id == i then n ∷ m ∷ ms else m ∷ insert_before i n ms

unfoldable pub insert_after : ℕ → Node → List Node → List Node
insert_after i n [] = []
insert_after i n (m ∷ ms) = if m.id == i then m ∷ n ∷ ms else m ∷ insert_after i n ms
