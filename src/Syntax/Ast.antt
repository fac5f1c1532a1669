-- ===== src/Syntax/Ast.antt =====
-- Candi_Compiler/cand_syntax.hpp, class `ast`: a node of the syntax tree with its children. The
-- pointer to the parent, which the parser does not read, is left out.
use cand_lang_proto.Base.{ℕ, zero, suc, Bool, ◌==◌, List, [], ◌∷◌, ◌++◌, Option, none, some}
use cand_lang_proto.Syntax.NodeKind.{EAst, ast_eq}
use cand_lang_proto.Syntax.Kinds.{ast_type_is_keyword}
use cand_lang_proto.Syntax.Token.{Tk, node_type}

mutual
  pub data Ast : Type 0 where
    node : EAst → List ℕ → Asts → Ast

  -- The list `children_`.
  pub data Asts : Type 0 where
    no_child : Asts
    child : Ast → Asts → Asts

abbrev pub kind : Ast → EAst
kind (node k l cs) = k

abbrev pub literal : Ast → List ℕ
literal (node k l cs) = l

abbrev pub children : Ast → Asts
children (node k l cs) = cs

abbrev pub leaf_of : EAst → Ast
leaf_of k = node k [] no_child

-- `ast(const tk&)`.
abbrev pub of_token : Tk → Ast
of_token t = node (node_type t) t.literal no_child

abbrev pub joined : List Tk → List ℕ
joined [] = []
joined (t ∷ ts) = t.literal ++ joined ts

-- `ast(e_ast, begin, end)`.
abbrev pub of_tokens : EAst → List Tk → Ast
of_tokens k ts = node k (joined ts) no_child

abbrev pub add_last : Asts → Ast → Asts
add_last no_child a = child a no_child
add_last (child x xs) a = child x (add_last xs a)

abbrev pub push_back : Ast → Ast → Ast
push_back (node k l cs) a = node k l (add_last cs a)

abbrev pub push_front : Ast → Ast → Ast
push_front (node k l cs) a = node k l (child a cs)

-- The last child and those before it.
unfoldable pub split_last : Asts → Option (Asts × Ast)
split_last no_child = none
split_last (child x xs) = elim (split_last xs) [
  | none ↦ some (no_child, x)
  | some (init, last) ↦ some (child x init, last)
]

-- `pop_back` and `pop_front`: the node that is left and the child; `none` is the exception.
unfoldable pub pop_back : Ast → Option (Ast × Ast)
pop_back (node k l cs) = elim (split_last cs) [
  | none ↦ none
  | some (init, last) ↦ some (node k l init, last)
]

unfoldable pub pop_front : Ast → Option (Ast × Ast)
pop_front (node k l no_child) = none
pop_front (node k l (child x xs)) = some (node k l xs, x)

abbrev pub count_children : Asts → ℕ
count_children no_child = 0
count_children (child x xs) = suc (count_children xs)

abbrev pub child_at : Asts → ℕ → Option Ast
child_at no_child i = none
child_at (child x xs) zero = some x
child_at (child x xs) (suc i) = child_at xs i

-- `size`, `at` and the index operator, `front`, `back`; `none` is the exception.
abbrev pub ast_size : Ast → ℕ
ast_size a = count_children (children a)

abbrev pub ast_at : Ast → ℕ → Option Ast
ast_at a i = child_at (children a) i

abbrev pub ast_front : Ast → Option Ast
ast_front a = child_at (children a) 0

unfoldable pub ast_back : Ast → Option Ast
ast_back a = elim (split_last (children a)) [ none ↦ none | some (init, last) ↦ some last ]

abbrev pub is_leaf : Ast → Bool
is_leaf a = ast_size a == 0

abbrev pub ast_type_is : EAst → Ast → Bool
ast_type_is k a = ast_eq (kind a) k

abbrev pub ast_is_keyword : Ast → Bool
ast_is_keyword a = ast_type_is_keyword (kind a)
