-- ===== src/Expression/Spelling.antt =====
-- Which tokens spell which tree, apart from how `parse_expression_impl` reads them: the expressions
-- in which every operand of an operator is a single token or stands in parentheses.
use cand_lang_proto.Base.{List, [], ◌∷◌, ◌++◌, ◌≡◌, ◌≢◌, refl}
use cand_lang_proto.Syntax.TokenKind.{ETk}
use cand_lang_proto.Syntax.NodeKind.{EAst}
use cand_lang_proto.Syntax.Operators.{tk_type_operation}
use cand_lang_proto.Syntax.Token.{Tk}
use cand_lang_proto.Syntax.Ast.{Ast, of_token, push_back, leaf_of}
use cand_lang_proto.Scopes.Find.{Shape, paren, list, frame, opens, closes, other, kind_turn, turn}
use cand_lang_proto.Scopes.Balanced.{Balanced, empty, plain, group, append-Balanced}
use cand_lang_proto.Expression.Parse.{operand, prefix, postfix, binary, role, role_of}

-- The nodes of what stands in a scope behind an operand, by its shape.
abbrev pub applied_kind : Shape → EAst
applied_kind paren = EAst.function_call_
applied_kind list = EAst.index_operator_
applied_kind frame = EAst.type_call_

abbrev pub arguments_kind : Shape → EAst
arguments_kind paren = EAst.arguments_
arguments_kind list = EAst.index_arguments_
arguments_kind frame = EAst.type_arguments_

abbrev pub unary : Tk → Ast → Ast
unary t a = push_back (of_token t) a

abbrev pub applied_node : Shape → Ast → Ast
applied_node s a = push_back (push_back (leaf_of (applied_kind s)) a) (leaf_of (arguments_kind s))

mutual
  -- An operand: a token, or an expression in parentheses.
  pub data Operand : List Tk → Ast → Type 0 where
    single : (t : Tk) → role t ≡ operand → Operand (t ∷ []) (of_token t)
    grouped :
        (o c : Tk) (ts : List Tk) (a : Ast)
        → turn o ≡ opens paren
        → turn c ≡ closes paren
        → Spells ts a
        → Operand (o ∷ ts ++ c ∷ []) a

  pub data Spells : List Tk → Ast → Type 0 where
    just : (ts : List Tk) (a : Ast) → Operand ts a → Spells ts a
    before :
        (p : Tk) (ts : List Tk) (a : Ast)
        → role p ≡ prefix
        → Operand ts a
        → Spells (p ∷ ts) (unary p a)
    behind :
        (q : Tk) (ts : List Tk) (a : Ast)
        → role q ≡ postfix
        → turn q ≡ other
        → Operand ts a
        → Spells (ts ++ q ∷ []) (unary q a)
    applies :
        (s : Shape) (o c : Tk) (ts inner : List Tk) (a : Ast)
        → turn o ≡ opens s
        → turn c ≡ closes s
        → Balanced inner
        → Operand ts a
        → Spells (ts ++ o ∷ (inner ++ c ∷ [])) (applied_node s a)
    between :
        (b : Tk) (xs ys : List Tk) (x y : Ast)
        → role b ≡ binary
        → Operand xs x
        → Operand ys y
        → Spells (xs ++ b ∷ ys) (push_back (push_back (of_token b) x) y)

-- Operands, prefix and binary operators neither open nor close a scope.
role_turn : (k : ETk) → role_of (tk_type_operation k) ≢ postfix → kind_turn k ≡ other
unfolding tk_type_operation kind_turn
role_turn ETk.open_paren_ h = absurd (h refl)
role_turn ETk.close_paren_ h = absurd (h refl)
role_turn ETk.open_brace_ h = absurd (h refl)
role_turn ETk.close_brace_ h = absurd (h refl)
role_turn ETk.open_bracket_ h = absurd (h refl)
role_turn ETk.close_bracket_ h = absurd (h refl)
role_turn _ h = refl

mutual
  pub Operand-Balanced : {ts : List Tk} {a : Ast} → Operand ts a → Balanced ts
  Operand-Balanced (single t e) = plain (role_turn t.kind (λ f. cc)) empty
  Operand-Balanced (grouped o c ts a e f s) = group paren o c ts [] e f (Spells-Balanced s) empty

  pub Spells-Balanced : {ts : List Tk} {a : Ast} → Spells ts a → Balanced ts
  Spells-Balanced (just ts a u) = Operand-Balanced u
  Spells-Balanced (before p ts a e u) = plain (role_turn p.kind (λ f. cc)) (Operand-Balanced u)
  Spells-Balanced (behind q ts a e o u) = append-Balanced (Operand-Balanced u) (plain o empty)
  Spells-Balanced (applies s o c ts inner a e f b u) =
      append-Balanced (Operand-Balanced u) (group s o c inner [] e f b empty)
  Spells-Balanced (between b xs ys x y e u v) =
      append-Balanced (Operand-Balanced u) (plain (role_turn b.kind (λ f. cc)) (Operand-Balanced v))
