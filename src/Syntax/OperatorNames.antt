-- ===== src/Syntax/OperatorNames.antt =====
-- Candi_Compiler/cand_syntax.hpp, `sl::to_str` of the operator enumerations.
use cand_lang_proto.Base.{String}
use cand_lang_proto.Syntax.Operators.{EAssoc, EOperation, EPriority}

unfoldable pub assoc_to_str : EAssoc → String
assoc_to_str EAssoc.none_ = "none"
assoc_to_str EAssoc.left_ = "left"
assoc_to_str EAssoc.right_ = "right"

unfoldable pub operation_to_str : EOperation → String
operation_to_str EOperation.none_ = "none"
operation_to_str EOperation.binary_ = "binary"
operation_to_str EOperation.binary_or_prefix_ = "binary_or_prefix"
operation_to_str EOperation.prefix_ = "prefix"
operation_to_str EOperation.postfix_ = "postfix"
operation_to_str EOperation.variadic_ = "variadic"
operation_to_str EOperation.scope_entry_ = "scope_entry"
operation_to_str EOperation.scope_exit_ = "scope_exit"

unfoldable pub priority_to_str : EPriority → String
priority_to_str EPriority.none_ = "none"
priority_to_str EPriority.assignment_ = "assignment"
priority_to_str EPriority.logical_or_ = "logical_or"
priority_to_str EPriority.logical_and_ = "logical_and"
priority_to_str EPriority.bitwise_or_ = "bitwise_or"
priority_to_str EPriority.bitwise_xor_ = "bitwise_xor"
priority_to_str EPriority.bitwise_and_ = "bitwise_and"
priority_to_str EPriority.equality_ = "equality"
priority_to_str EPriority.three_way_equality_ = "three_way_equality"
priority_to_str EPriority.comparison_ = "comparison"
priority_to_str EPriority.bitshift_ = "bitshift"
priority_to_str EPriority.term_ = "term"
priority_to_str EPriority.factor_ = "factor"
priority_to_str EPriority.prefix_ = "prefix"
priority_to_str EPriority.postfix_ = "postfix"
priority_to_str EPriority.functional_ = "functional"
priority_to_str EPriority.access_ = "access"
priority_to_str EPriority.max_ = "max"
