-- ===== src/Syntax/Tables.antt =====
-- The tables of cand_syntax.hpp agree with one another.
use cand_lang_proto.Base.{List, [], ◌∷◌, ◌≡◌, ◌≢◌, ap, refl, some, arith, get_elem?, if◌then◌else◌}
use cand_lang_proto.Syntax.TokenKind.{ETk, tk_eq}
use cand_lang_proto.Syntax.NodeKind.{ast_code}
use cand_lang_proto.Syntax.TokenNode.{tk_type_to_astnode_type}
use cand_lang_proto.Syntax.Kinds.{tk_type_is_keyword, ast_type_is_keyword}
use cand_lang_proto.Syntax.Names
use cand_lang_proto.Syntax.NodeNames
use cand_lang_proto.Syntax.Operators.{
  EAssoc, EOperation, EPriority, tk_type_assoc, tk_type_operation, tk_type_priority,
}

-- The token kinds in the order of the node kinds of the same name.
abbrev node_kinds : List ETk
node_kinds =
    ETk.none_ ∷ ETk.invalid_ ∷ ETk.eof_ ∷ ETk.line_comment_ ∷ ETk.block_comment_ ∷ ETk.newline_
    ∷ ETk.whitespace_ ∷ ETk.string_literal_ ∷ ETk.number_literal_ ∷ ETk.real_literal_
    ∷ ETk.byte_literal_ ∷ ETk.bit_literal_ ∷ ETk.unsigned_literal_ ∷ ETk.alnumus_
    ∷ ETk.simple_assignment_ ∷ ETk.addition_assignment_ ∷ ETk.subtraction_assignment_
    ∷ ETk.multiplication_assignment_ ∷ ETk.division_assignment_ ∷ ETk.remainder_assignment_
    ∷ ETk.bitwise_and_assignment_ ∷ ETk.bitwise_or_assignment_ ∷ ETk.bitwise_xor_assignment_
    ∷ ETk.left_shift_assignment_ ∷ ETk.right_shift_assignment_ ∷ ETk.increment_ ∷ ETk.decrement_
    ∷ ETk.addition_ ∷ ETk.subtraction_ ∷ ETk.multiplication_ ∷ ETk.division_ ∷ ETk.remainder_
    ∷ ETk.bitwise_and_ ∷ ETk.bitwise_or_ ∷ ETk.bitwise_xor_ ∷ ETk.bitwise_left_shift_
    ∷ ETk.bitwise_right_shift_ ∷ ETk.bitwise_not_ ∷ ETk.negation_ ∷ ETk.logical_and_
    ∷ ETk.logical_or_ ∷ ETk.equal_ ∷ ETk.not_equal_ ∷ ETk.less_than_ ∷ ETk.greater_than_
    ∷ ETk.less_than_or_equal_ ∷ ETk.greater_than_or_equal_ ∷ ETk.three_way_comparison_
    ∷ ETk.open_paren_ ∷ ETk.close_paren_ ∷ ETk.open_brace_ ∷ ETk.close_brace_ ∷ ETk.open_bracket_
    ∷ ETk.close_bracket_ ∷ ETk.semicolon_ ∷ ETk.colon_ ∷ ETk.comma_ ∷ ETk.period_ ∷ ETk.ellipsis_
    ∷ ETk.commerical_at_ ∷ ETk.none_literal_ ∷ ETk.true_literal_ ∷ ETk.false_literal_ ∷ ETk.type_
    ∷ ETk.identity_ ∷ ETk.value_ ∷ ETk.int_ ∷ ETk.uint_ ∷ ETk.real_ ∷ ETk.byte_ ∷ ETk.bit_
    ∷ ETk.str_ ∷ ETk.array_ ∷ ETk.pointer_ ∷ ETk.memory_ ∷ ETk.function_ ∷ ETk.include_ ∷ ETk.macro_
    ∷ ETk.endmacro_ ∷ ETk.enter_ ∷ ETk.start_ ∷ ETk.use_ ∷ ETk.class_ ∷ ETk.obj_ ∷ ETk.print_
    ∷ ETk.private_ ∷ ETk.public_ ∷ ETk.const_ ∷ ETk.static_ ∷ ETk.ref_ ∷ ETk.if_ ∷ ETk.else_
    ∷ ETk.elif_ ∷ ETk.while_ ∷ ETk.for_ ∷ ETk.switch_ ∷ ETk.case_ ∷ ETk.default_ ∷ ETk.break_
    ∷ ETk.continue_ ∷ ETk.return_ ∷ []

node_kinds_lem : (t : ETk) → get_elem? node_kinds (ast_code (tk_type_to_astnode_type t)) ≡ some t
unfolding ast_code tk_type_to_astnode_type
node_kinds_lem ETk.none_ = refl
node_kinds_lem _ = refl

-- Distinct token kinds have distinct node kinds.
pub tk_type_to_astnode_type-injective :
    (a b : ETk) → tk_type_to_astnode_type a ≡ tk_type_to_astnode_type b → a ≡ b
tk_type_to_astnode_type-injective a b h =
    cc (node_kinds_lem a, node_kinds_lem b, ap (λ k. get_elem? node_kinds (ast_code k)) h)

-- A token kind and its node kind are keywords together, and they are printed alike, but for the two
-- parentheses: a node kind prints the name of those, the token kind the character.
pub tk_type_to_astnode_type_lem :
    (t : ETk)
    → (ast_type_is_keyword (tk_type_to_astnode_type t) ≡ tk_type_is_keyword t)
      × (NodeNames.to_str (tk_type_to_astnode_type t) ≡ (
          if tk_eq t ETk.open_paren_
          then "open_paren"
          else if tk_eq t ETk.close_paren_
          then "close_paren"
          else Names.to_str t))
      × (Names.to_str ETk.open_paren_ ≡ "(")
      × (Names.to_str ETk.close_paren_ ≡ ")")
unfolding tk_type_to_astnode_type ast_type_is_keyword tk_type_is_keyword Names.to_str
    NodeNames.to_str tk_eq
tk_type_to_astnode_type_lem ETk.none_ = (refl, refl, refl, refl)
tk_type_to_astnode_type_lem _ = (refl, refl, refl, refl)

-- The associativity of the binary operators of one priority.
abbrev group_assoc : EPriority → EAssoc
group_assoc EPriority.assignment_ = EAssoc.right_
group_assoc EPriority.max_ = EAssoc.right_
group_assoc _ = EAssoc.left_

binary-group_assoc :
    (t : ETk)
    → tk_type_operation t ≡ EOperation.binary_
    → tk_type_assoc t ≡ group_assoc (tk_type_priority t)
unfolding tk_type_operation tk_type_assoc tk_type_priority
binary-group_assoc ETk.simple_assignment_ h = refl
binary-group_assoc _ h = ground arith

-- Binary operators of one priority group the same way, and each groups to the left or to the
-- right: the two cases in which a run of them is resolved.
pub binary_assoc :
    (a b : ETk)
    → tk_type_operation a ≡ EOperation.binary_
    → tk_type_operation b ≡ EOperation.binary_
    → tk_type_priority a ≡ tk_type_priority b
    → (tk_type_assoc a ≡ tk_type_assoc b) × (tk_type_assoc a ≢ EAssoc.none_)
binary_assoc a b h k e = ground (arith, binary-group_assoc a h, binary-group_assoc b k)

-- A prefix operator groups to the right.
prefix_assoc :
    (a : ETk) → tk_type_operation a ≡ EOperation.prefix_ → tk_type_assoc a ≡ EAssoc.right_
unfolding tk_type_operation tk_type_assoc
prefix_assoc ETk.negation_ h = refl
prefix_assoc _ h = ground arith
