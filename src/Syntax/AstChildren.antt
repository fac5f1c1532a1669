-- ===== src/Syntax/AstChildren.antt =====
-- The operations on the children of a node.
use cand_lang_proto.Base.{ℕ, zero, suc, ◌<◌, ◌≡◌, refl, arith, some}
use cand_lang_proto.Syntax.Ast.{
  Ast, Asts, node, no_child, child, add_last, push_back, push_front, split_last, pop_back,
  pop_front, count_children, child_at, ast_size, ast_at, ast_back,
}

split_last-add_last : (cs : Asts) (a : Ast) → split_last (add_last cs a) ≡ some (cs, a)
unfolding split_last
split_last-add_last no_child a = refl
split_last-add_last (child x xs) a = rw (split_last-add_last xs a) refl

-- A child that is pushed at either end is popped from there, and the node is as before; the last
-- child is then the pushed one.
pub pop_back-push_back :
    (n a : Ast)
    → (pop_back (push_back n a) ≡ some (n, a))
      × (pop_front (push_front n a) ≡ some (n, a))
      × (ast_back (push_back n a) ≡ some a)
unfolding pop_back pop_front ast_back
pop_back-push_back (node k l cs) a = (
  rw (split_last-add_last cs a, pop_back) refl,
  refl,
  rw (split_last-add_last cs a, ast_back) refl,
)

child_at-add_last :
    (cs : Asts) (a : Ast) (i : ℕ)
    → i < count_children cs
    → child_at (add_last cs a) i ≡ child_at cs i
child_at-add_last no_child a i h = absurd (omega arith)
child_at-add_last (child x xs) a zero h = refl
child_at-add_last (child x xs) a (suc i) h = child_at-add_last xs a i (omega arith)

child_at-last : (cs : Asts) (a : Ast) → child_at (add_last cs a) (count_children cs) ≡ some a
child_at-last no_child a = refl
child_at-last (child x xs) a = child_at-last xs a

-- A push at the back keeps the children before, at their indices, and puts the new one behind them.
pub at-push_back :
    (n a : Ast) (i : ℕ)
    → i < ast_size n
    → (ast_at (push_back n a) i ≡ ast_at n i) × (ast_at (push_back n a) (ast_size n) ≡ some a)
at-push_back (node k l cs) a i h = (child_at-add_last cs a i h, child_at-last cs a)
