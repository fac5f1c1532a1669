-- ===== src/Syntax/Operators.antt =====
-- Candi_Compiler/cand_syntax.hpp: associativity, operation and priority of token kinds.
use cand_lang_proto.Base.{ℕ}
use cand_lang_proto.Syntax.TokenKind.{ETk}
use cand_lang_proto.Syntax.NodeKind.{EAst}

pub data EAssoc : Type 0 where
  none_ left_ right_ : EAssoc

pub data EOperation : Type 0 where
  none_ binary_ binary_or_prefix_ prefix_ postfix_ variadic_ scope_entry_ scope_exit_ : EOperation

pub data EPriority : Type 0 where
  none_ assignment_ logical_or_ logical_and_ bitwise_or_ bitwise_xor_ bitwise_and_ : EPriority
  equality_ three_way_equality_ comparison_ bitshift_ term_ factor_ prefix_ : EPriority
  postfix_ functional_ access_ max_ : EPriority

-- The enumerators' values; `max_` is INT_MAX of a 32-bit int.
unfoldable pub priority_value : EPriority → ℕ
priority_value EPriority.none_ = 0
priority_value EPriority.assignment_ = 20000
priority_value EPriority.logical_or_ = 60000
priority_value EPriority.logical_and_ = 70000
priority_value EPriority.bitwise_or_ = 80000
priority_value EPriority.bitwise_xor_ = 85000
priority_value EPriority.bitwise_and_ = 90000
priority_value EPriority.equality_ = 100000
priority_value EPriority.three_way_equality_ = 110000
priority_value EPriority.comparison_ = 120000
priority_value EPriority.bitshift_ = 130000
priority_value EPriority.term_ = 140000
priority_value EPriority.factor_ = 150000
priority_value EPriority.prefix_ = 160000
priority_value EPriority.postfix_ = 170000
priority_value EPriority.functional_ = 180000
priority_value EPriority.access_ = 190000
priority_value EPriority.max_ = 2147483647

unfoldable pub tk_type_assoc : ETk → EAssoc
tk_type_assoc ETk.simple_assignment_ = EAssoc.right_
tk_type_assoc ETk.addition_assignment_ = EAssoc.right_
tk_type_assoc ETk.subtraction_assignment_ = EAssoc.right_
tk_type_assoc ETk.multiplication_assignment_ = EAssoc.right_
tk_type_assoc ETk.division_assignment_ = EAssoc.right_
tk_type_assoc ETk.remainder_assignment_ = EAssoc.right_
tk_type_assoc ETk.bitwise_and_assignment_ = EAssoc.right_
tk_type_assoc ETk.bitwise_or_assignment_ = EAssoc.right_
tk_type_assoc ETk.bitwise_xor_assignment_ = EAssoc.right_
tk_type_assoc ETk.left_shift_assignment_ = EAssoc.right_
tk_type_assoc ETk.right_shift_assignment_ = EAssoc.right_
tk_type_assoc ETk.negation_ = EAssoc.right_
tk_type_assoc ETk.bitwise_not_ = EAssoc.right_
tk_type_assoc ETk.addition_ = EAssoc.left_
tk_type_assoc ETk.subtraction_ = EAssoc.left_
tk_type_assoc ETk.multiplication_ = EAssoc.left_
tk_type_assoc ETk.division_ = EAssoc.left_
tk_type_assoc ETk.remainder_ = EAssoc.left_
tk_type_assoc ETk.bitwise_and_ = EAssoc.left_
tk_type_assoc ETk.bitwise_or_ = EAssoc.left_
tk_type_assoc ETk.bitwise_xor_ = EAssoc.left_
tk_type_assoc ETk.bitwise_left_shift_ = EAssoc.left_
tk_type_assoc ETk.bitwise_right_shift_ = EAssoc.left_
tk_type_assoc ETk.logical_and_ = EAssoc.left_
tk_type_assoc ETk.logical_or_ = EAssoc.left_
tk_type_assoc ETk.equal_ = EAssoc.left_
tk_type_assoc ETk.not_equal_ = EAssoc.left_
tk_type_assoc ETk.less_than_ = EAssoc.left_
tk_type_assoc ETk.greater_than_ = EAssoc.left_
tk_type_assoc ETk.less_than_or_equal_ = EAssoc.left_
tk_type_assoc ETk.greater_than_or_equal_ = EAssoc.left_
tk_type_assoc ETk.three_way_comparison_ = EAssoc.left_
tk_type_assoc ETk.increment_ = EAssoc.left_
tk_type_assoc ETk.decrement_ = EAssoc.left_
tk_type_assoc ETk.period_ = EAssoc.left_
tk_type_assoc ETk.ellipsis_ = EAssoc.right_
tk_type_assoc ETk.commerical_at_ = EAssoc.right_
tk_type_assoc _ = EAssoc.none_

unfoldable pub tk_type_operation : ETk → EOperation
tk_type_operation ETk.simple_assignment_ = EOperation.binary_
tk_type_operation ETk.addition_assignment_ = EOperation.binary_
tk_type_operation ETk.subtraction_assignment_ = EOperation.binary_
tk_type_operation ETk.multiplication_assignment_ = EOperation.binary_
tk_type_operation ETk.division_assignment_ = EOperation.binary_
tk_type_operation ETk.remainder_assignment_ = EOperation.binary_
tk_type_operation ETk.bitwise_and_assignment_ = EOperation.binary_
tk_type_operation ETk.bitwise_or_assignment_ = EOperation.binary_
tk_type_operation ETk.bitwise_xor_assignment_ = EOperation.binary_
tk_type_operation ETk.left_shift_assignment_ = EOperation.binary_
tk_type_operation ETk.right_shift_assignment_ = EOperation.binary_
tk_type_operation ETk.increment_ = EOperation.postfix_
tk_type_operation ETk.decrement_ = EOperation.postfix_
tk_type_operation ETk.addition_ = EOperation.binary_
tk_type_operation ETk.subtraction_ = EOperation.binary_
tk_type_operation ETk.multiplication_ = EOperation.binary_
tk_type_operation ETk.division_ = EOperation.binary_
tk_type_operation ETk.remainder_ = EOperation.binary_
tk_type_operation ETk.bitwise_and_ = EOperation.binary_
tk_type_operation ETk.bitwise_or_ = EOperation.binary_
tk_type_operation ETk.bitwise_xor_ = EOperation.binary_
tk_type_operation ETk.bitwise_left_shift_ = EOperation.binary_
tk_type_operation ETk.bitwise_right_shift_ = EOperation.binary_
tk_type_operation ETk.negation_ = EOperation.prefix_
tk_type_operation ETk.bitwise_not_ = EOperation.prefix_
tk_type_operation ETk.logical_and_ = EOperation.binary_
tk_type_operation ETk.logical_or_ = EOperation.binary_
tk_type_operation ETk.equal_ = EOperation.binary_
tk_type_operation ETk.not_equal_ = EOperation.binary_
tk_type_operation ETk.less_than_ = EOperation.binary_
tk_type_operation ETk.greater_than_ = EOperation.binary_
tk_type_operation ETk.less_than_or_equal_ = EOperation.binary_
tk_type_operation ETk.greater_than_or_equal_ = EOperation.binary_
tk_type_operation ETk.three_way_comparison_ = EOperation.binary_
tk_type_operation ETk.open_paren_ = EOperation.postfix_
tk_type_operation ETk.close_paren_ = EOperation.postfix_
tk_type_operation ETk.open_brace_ = EOperation.postfix_
tk_type_operation ETk.close_brace_ = EOperation.postfix_
tk_type_operation ETk.open_bracket_ = EOperation.postfix_
tk_type_operation ETk.close_bracket_ = EOperation.postfix_
tk_type_operation ETk.period_ = EOperation.binary_
tk_type_operation ETk.ellipsis_ = EOperation.binary_
tk_type_operation ETk.commerical_at_ = EOperation.prefix_
tk_type_operation _ = EOperation.none_

unfoldable pub tk_type_priority : ETk → EPriority
tk_type_priority ETk.none_ = EPriority.none_
tk_type_priority ETk.invalid_ = EPriority.none_
tk_type_priority ETk.eof_ = EPriority.none_
tk_type_priority ETk.line_comment_ = EPriority.none_
tk_type_priority ETk.block_comment_ = EPriority.none_
tk_type_priority ETk.newline_ = EPriority.none_
tk_type_priority ETk.whitespace_ = EPriority.none_
tk_type_priority ETk.simple_assignment_ = EPriority.assignment_
tk_type_priority ETk.addition_assignment_ = EPriority.assignment_
tk_type_priority ETk.subtraction_assignment_ = EPriority.assignment_
tk_type_priority ETk.multiplication_assignment_ = EPriority.assignment_
tk_type_priority ETk.division_assignment_ = EPriority.assignment_
tk_type_priority ETk.remainder_assignment_ = EPriority.assignment_
tk_type_priority ETk.bitwise_and_assignment_ = EPriority.assignment_
tk_type_priority ETk.bitwise_or_assignment_ = EPriority.assignment_
tk_type_priority ETk.bitwise_xor_assignment_ = EPriority.assignment_
tk_type_priority ETk.left_shift_assignment_ = EPriority.assignment_
tk_type_priority ETk.right_shift_assignment_ = EPriority.assignment_
tk_type_priority ETk.increment_ = EPriority.postfix_
tk_type_priority ETk.decrement_ = EPriority.postfix_
tk_type_priority ETk.addition_ = EPriority.term_
tk_type_priority ETk.subtraction_ = EPriority.term_
tk_type_priority ETk.multiplication_ = EPriority.factor_
tk_type_priority ETk.division_ = EPriority.factor_
tk_type_priority ETk.remainder_ = EPriority.factor_
tk_type_priority ETk.negation_ = EPriority.prefix_
tk_type_priority ETk.bitwise_not_ = EPriority.prefix_
tk_type_priority ETk.bitwise_and_ = EPriority.comparison_
tk_type_priority ETk.bitwise_or_ = EPriority.comparison_
tk_type_priority ETk.bitwise_xor_ = EPriority.comparison_
tk_type_priority ETk.bitwise_left_shift_ = EPriority.comparison_
tk_type_priority ETk.bitwise_right_shift_ = EPriority.comparison_
tk_type_priority ETk.logical_and_ = EPriority.comparison_
tk_type_priority ETk.logical_or_ = EPriority.comparison_
tk_type_priority ETk.equal_ = EPriority.comparison_
tk_type_priority ETk.not_equal_ = EPriority.comparison_
tk_type_priority ETk.less_than_ = EPriority.comparison_
tk_type_priority ETk.greater_than_ = EPriority.comparison_
tk_type_priority ETk.less_than_or_equal_ = EPriority.comparison_
tk_type_priority ETk.greater_than_or_equal_ = EPriority.comparison_
tk_type_priority ETk.three_way_comparison_ = EPriority.comparison_
tk_type_priority ETk.open_paren_ = EPriority.postfix_
tk_type_priority ETk.close_paren_ = EPriority.postfix_
tk_type_priority ETk.open_brace_ = EPriority.postfix_
tk_type_priority ETk.close_brace_ = EPriority.postfix_
tk_type_priority ETk.open_bracket_ = EPriority.postfix_
tk_type_priority ETk.close_bracket_ = EPriority.postfix_
tk_type_priority ETk.period_ = EPriority.access_
tk_type_priority _ = EPriority.max_

-- Nodes have no operator traits of their own.
unfoldable pub ast_type_assoc : EAst → EAssoc
ast_type_assoc a = EAssoc.none_

unfoldable pub ast_type_operation : EAst → EOperation
ast_type_operation a = EOperation.none_

unfoldable pub ast_type_priority : EAst → EPriority
ast_type_priority a = EPriority.none_
