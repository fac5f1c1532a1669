-- ===== src/Syntax/Token.antt =====
-- Candi_Compiler/cand_syntax.hpp, `class tk`. A literal is its list of bytes; the constructors
-- from two iterators take the bytes between them.
use cand_lang_proto.Base.{ℕ, Bool, true, false, not, ◌&&◌, List, [], ◌∷◌, ◌==◌, length}
use cand_lang_proto.Syntax.TokenKind.{ETk, tk_eq}
use cand_lang_proto.Syntax.NodeKind.{EAst}
use cand_lang_proto.Syntax.Operators.{
  EAssoc, EOperation, EPriority, tk_type_assoc, tk_type_operation, tk_type_priority,
}
use cand_lang_proto.Syntax.Kinds.{
  tk_type_is_keyword, tk_type_is_opening_scope, tk_type_is_closing_scope,
  tk_type_is_closing_scope_of,
}
use cand_lang_proto.Syntax.TokenNode.{tk_type_to_astnode_type}

pub record Tk : Type 0 where
  pub kind : ETk
  pub literal : List ℕ
  pub line : ℕ
  pub col : ℕ

-- `std::u8string`'s `operator==`.
unfoldable pub literal_eq : List ℕ → List ℕ → Bool
literal_eq [] [] = true
literal_eq (x ∷ xs) (y ∷ ys) = x == y && literal_eq xs ys
literal_eq _ _ = false

-- `tk(e_tk)`, and `tk(e_tk, literal)` at line and column 0.
abbrev pub of_type : ETk → Tk
of_type k = record { kind = k; literal = []; line = 0; col = 0 }

abbrev pub of_literal : ETk → List ℕ → Tk
of_literal k l = record { kind = k; literal = l; line = 0; col = 0 }

abbrev pub set_line : ℕ → Tk → Tk
set_line n t = record t { line = n }

abbrev pub set_col : ℕ → Tk → Tk
set_col n t = record t { col = n }

abbrev pub size : Tk → ℕ
size t = length t.literal

abbrev pub node_type : Tk → EAst
node_type t = tk_type_to_astnode_type t.kind

abbrev pub priority : Tk → EPriority
priority t = tk_type_priority t.kind

abbrev pub assoc : Tk → EAssoc
assoc t = tk_type_assoc t.kind

abbrev pub operation : Tk → EOperation
operation t = tk_type_operation t.kind

abbrev pub type_is : ETk → Tk → Bool
type_is k t = tk_eq t.kind k

abbrev pub type_and_lit_is : ETk → List ℕ → Tk → Bool
type_and_lit_is k l t = tk_eq t.kind k && literal_eq t.literal l

abbrev pub is_keyword : Tk → Bool
is_keyword t = tk_type_is_keyword t.kind

abbrev pub is_opening_scope : Tk → Bool
is_opening_scope t = tk_type_is_opening_scope t.kind

abbrev pub is_closing_scope : Tk → Bool
is_closing_scope t = tk_type_is_closing_scope t.kind

abbrev pub is_closing_scope_of : ETk → Tk → Bool
is_closing_scope_of topen t = tk_type_is_closing_scope_of topen t.kind

-- `operator==` and `operator!=`: the position is not compared.
abbrev pub equal : Tk → Tk → Bool
equal a b = tk_eq a.kind b.kind && literal_eq a.literal b.literal

abbrev pub not_equal : Tk → Tk → Bool
not_equal a b = not (equal a b)
