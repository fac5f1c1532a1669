-- ===== src/Syntax/TokenNode.antt =====
-- Candi_Compiler/cand_syntax.hpp, `tk_type_to_astnode_type`: the node kind of a token.
use cand_lang_proto.Syntax.TokenKind.{ETk}
use cand_lang_proto.Syntax.NodeKind.{EAst}

unfoldable pub tk_type_to_astnode_type : ETk → EAst
tk_type_to_astnode_type ETk.none_ = EAst.none_
tk_type_to_astnode_type ETk.invalid_ = EAst.invalid_
tk_type_to_astnode_type ETk.eof_ = EAst.eof_
tk_type_to_astnode_type ETk.line_comment_ = EAst.line_comment_
tk_type_to_astnode_type ETk.block_comment_ = EAst.block_comment_
tk_type_to_astnode_type ETk.newline_ = EAst.newline_
tk_type_to_astnode_type ETk.whitespace_ = EAst.whitespace_
tk_type_to_astnode_type ETk.string_literal_ = EAst.string_literal_
tk_type_to_astnode_type ETk.number_literal_ = EAst.number_literal_
tk_type_to_astnode_type ETk.real_literal_ = EAst.real_literal_
tk_type_to_astnode_type ETk.byte_literal_ = EAst.byte_literal_
tk_type_to_astnode_type ETk.bit_literal_ = EAst.bit_literal_
tk_type_to_astnode_type ETk.unsigned_literal_ = EAst.unsigned_literal_
tk_type_to_astnode_type ETk.alnumus_ = EAst.alnumus_
tk_type_to_astnode_type ETk.simple_assignment_ = EAst.simple_assignment_
tk_type_to_astnode_type ETk.addition_assignment_ = EAst.addition_assignment_
tk_type_to_astnode_type ETk.subtraction_assignment_ = EAst.subtraction_assignment_
tk_type_to_astnode_type ETk.multiplication_assignment_ = EAst.multiplication_assignment_
tk_type_to_astnode_type ETk.division_assignment_ = EAst.division_assignment_
tk_type_to_astnode_type ETk.remainder_assignment_ = EAst.remainder_assignment_
tk_type_to_astnode_type ETk.bitwise_and_assignment_ = EAst.bitwise_and_assignment_
tk_type_to_astnode_type ETk.bitwise_or_assignment_ = EAst.bitwise_or_assignment_
tk_type_to_astnode_type ETk.bitwise_xor_assignment_ = EAst.bitwise_xor_assignment_
tk_type_to_astnode_type ETk.left_shift_assignment_ = EAst.left_shift_assignment_
tk_type_to_astnode_type ETk.right_shift_assignment_ = EAst.right_shift_assignment_
tk_type_to_astnode_type ETk.increment_ = EAst.increment_
tk_type_to_astnode_type ETk.decrement_ = EAst.decrement_
tk_type_to_astnode_type ETk.addition_ = EAst.addition_
tk_type_to_astnode_type ETk.subtraction_ = EAst.subtraction_
tk_type_to_astnode_type ETk.multiplication_ = EAst.multiplication_
tk_type_to_astnode_type ETk.division_ = EAst.division_
tk_type_to_astnode_type ETk.remainder_ = EAst.remainder_
tk_type_to_astnode_type ETk.bitwise_not_ = EAst.bitwise_not_
tk_type_to_astnode_type ETk.bitwise_and_ = EAst.bitwise_and_
tk_type_to_astnode_type ETk.bitwise_or_ = EAst.bitwise_or_
tk_type_to_astnode_type ETk.bitwise_xor_ = EAst.bitwise_xor_
tk_type_to_astnode_type ETk.bitwise_left_shift_ = EAst.bitwise_left_shift_
tk_type_to_astnode_type ETk.bitwise_right_shift_ = EAst.bitwise_right_shift_
tk_type_to_astnode_type ETk.negation_ = EAst.negation_
tk_type_to_astnode_type ETk.logical_and_ = EAst.logical_and_
tk_type_to_astnode_type ETk.logical_or_ = EAst.logical_or_
tk_type_to_astnode_type ETk.equal_ = EAst.equal_
tk_type_to_astnode_type ETk.not_equal_ = EAst.not_equal_
tk_type_to_astnode_type ETk.less_than_ = EAst.less_than_
tk_type_to_astnode_type ETk.greater_than_ = EAst.greater_than_
tk_type_to_astnode_type ETk.less_than_or_equal_ = EAst.less_than_or_equal_
tk_type_to_astnode_type ETk.greater_than_or_equal_ = EAst.greater_than_or_equal_
tk_type_to_astnode_type ETk.three_way_comparison_ = EAst.three_way_comparison_
tk_type_to_astnode_type ETk.open_paren_ = EAst.open_paren_
tk_type_to_astnode_type ETk.close_paren_ = EAst.close_paren_
tk_type_to_astnode_type ETk.open_brace_ = EAst.open_brace_
tk_type_to_astnode_type ETk.close_brace_ = EAst.close_brace_
tk_type_to_astnode_type ETk.open_bracket_ = EAst.open_bracket_
tk_type_to_astnode_type ETk.close_bracket_ = EAst.close_bracket_
tk_type_to_astnode_type ETk.semicolon_ = EAst.semicolon_
tk_type_to_astnode_type ETk.colon_ = EAst.colon_
tk_type_to_astnode_type ETk.comma_ = EAst.comma_
tk_type_to_astnode_type ETk.period_ = EAst.period_
tk_type_to_astnode_type ETk.ellipsis_ = EAst.ellipsis_
tk_type_to_astnode_type ETk.commerical_at_ = EAst.commerical_at_
tk_type_to_astnode_type ETk.none_literal_ = EAst.none_literal_
tk_type_to_astnode_type ETk.true_literal_ = EAst.true_literal_
tk_type_to_astnode_type ETk.false_literal_ = EAst.false_literal_
tk_type_to_astnode_type ETk.type_ = EAst.type_
tk_type_to_astnode_type ETk.identity_ = EAst.identity_
tk_type_to_astnode_type ETk.value_ = EAst.value_
tk_type_to_astnode_type ETk.int_ = EAst.int_
tk_type_to_astnode_type ETk.uint_ = EAst.uint_
tk_type_to_astnode_type ETk.real_ = EAst.real_
tk_type_to_astnode_type ETk.byte_ = EAst.byte_
tk_type_to_astnode_type ETk.bit_ = EAst.bit_
tk_type_to_astnode_type ETk.str_ = EAst.str_
tk_type_to_astnode_type ETk.array_ = EAst.array_
tk_type_to_astnode_type ETk.pointer_ = EAst.pointer_
tk_type_to_astnode_type ETk.memory_ = EAst.memory_
tk_type_to_astnode_type ETk.function_ = EAst.function_
tk_type_to_astnode_type ETk.include_ = EAst.include_
tk_type_to_astnode_type ETk.macro_ = EAst.macro_
tk_type_to_astnode_type ETk.endmacro_ = EAst.endmacro_
tk_type_to_astnode_type ETk.enter_ = EAst.enter_
tk_type_to_astnode_type ETk.start_ = EAst.start_
tk_type_to_astnode_type ETk.use_ = EAst.use_
tk_type_to_astnode_type ETk.class_ = EAst.class_
tk_type_to_astnode_type ETk.obj_ = EAst.obj_
tk_type_to_astnode_type ETk.print_ = EAst.print_
tk_type_to_astnode_type ETk.private_ = EAst.private_
tk_type_to_astnode_type ETk.public_ = EAst.public_
tk_type_to_astnode_type ETk.const_ = EAst.const_
tk_type_to_astnode_type ETk.static_ = EAst.static_
tk_type_to_astnode_type ETk.ref_ = EAst.ref_
tk_type_to_astnode_type ETk.if_ = EAst.if_
tk_type_to_astnode_type ETk.else_ = EAst.else_
tk_type_to_astnode_type ETk.elif_ = EAst.elif_
tk_type_to_astnode_type ETk.while_ = EAst.while_
tk_type_to_astnode_type ETk.for_ = EAst.for_
tk_type_to_astnode_type ETk.switch_ = EAst.switch_
tk_type_to_astnode_type ETk.case_ = EAst.case_
tk_type_to_astnode_type ETk.default_ = EAst.default_
tk_type_to_astnode_type ETk.break_ = EAst.break_
tk_type_to_astnode_type ETk.continue_ = EAst.continue_
tk_type_to_astnode_type ETk.return_ = EAst.return_
