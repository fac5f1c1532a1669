-- ===== src/Syntax/NodeNames.antt =====
-- Candi_Compiler/cand_syntax.hpp, `sl::to_str(e_ast)`.
use cand_lang_proto.Base.{String}
use cand_lang_proto.Syntax.NodeKind.{EAst}

unfoldable pub to_str : EAst → String
to_str EAst.none_ = "none"
to_str EAst.invalid_ = "invalid"
to_str EAst.eof_ = "eof"
to_str EAst.line_comment_ = "line_comment"
to_str EAst.block_comment_ = "block_comment"
to_str EAst.newline_ = "newline"
to_str EAst.whitespace_ = "whitespace"
to_str EAst.string_literal_ = "string_literal"
to_str EAst.number_literal_ = "number_literal"
to_str EAst.real_literal_ = "real_literal"
to_str EAst.byte_literal_ = "byte_literal"
to_str EAst.bit_literal_ = "bit_literal"
to_str EAst.unsigned_literal_ = "unsigned_literal"
to_str EAst.alnumus_ = "alnumus"
to_str EAst.simple_assignment_ = "simple_assignment"
to_str EAst.addition_assignment_ = "addition_assignment"
to_str EAst.subtraction_assignment_ = "subtraction_assignment"
to_str EAst.multiplication_assignment_ = "multiplication_assignment"
to_str EAst.division_assignment_ = "division_assignment"
to_str EAst.remainder_assignment_ = "remainder_assignment"
to_str EAst.bitwise_and_assignment_ = "bitwise_and_assignment"
to_str EAst.bitwise_or_assignment_ = "bitwise_or_assignment"
to_str EAst.bitwise_xor_assignment_ = "bitwise_xor_assignment"
to_str EAst.left_shift_assignment_ = "left_shift_assignment"
to_str EAst.right_shift_assignment_ = "right_shift_assignment"
to_str EAst.increment_ = "increment"
to_str EAst.decrement_ = "decrement"
to_str EAst.addition_ = "addition"
to_str EAst.subtraction_ = "subtraction"
to_str EAst.multiplication_ = "multiplication"
to_str EAst.division_ = "division"
to_str EAst.remainder_ = "remainder"
to_str EAst.bitwise_not_ = "bitwise_not"
to_str EAst.bitwise_and_ = "bitwise_and"
to_str EAst.bitwise_or_ = "bitwise_or"
to_str EAst.bitwise_xor_ = "bitwise_xor"
to_str EAst.bitwise_left_shift_ = "bitwise_left_shift"
to_str EAst.bitwise_right_shift_ = "bitwise_right_shift"
to_str EAst.negation_ = "negation"
to_str EAst.logical_and_ = "logical_and"
to_str EAst.logical_or_ = "logical_or"
to_str EAst.equal_ = "equal"
to_str EAst.not_equal_ = "not_equal"
to_str EAst.less_than_ = "less_than"
to_str EAst.greater_than_ = "greater_than"
to_str EAst.less_than_or_equal_ = "less_than_or_equal"
to_str EAst.greater_than_or_equal_ = "greater_than_or_equal"
to_str EAst.three_way_comparison_ = "three_way_comparison"
to_str EAst.open_paren_ = "open_paren"
to_str EAst.close_paren_ = "close_paren"
to_str EAst.open_brace_ = "open_brace"
to_str EAst.close_brace_ = "close_brace"
to_str EAst.open_bracket_ = "open_bracket"
to_str EAst.close_bracket_ = "close_bracket"
to_str EAst.semicolon_ = "semicolon"
to_str EAst.colon_ = "colon"
to_str EAst.comma_ = "comma"
to_str EAst.period_ = "period"
to_str EAst.ellipsis_ = "ellipsis"
to_str EAst.commerical_at_ = "commerical_at"
to_str EAst.none_literal_ = "none_literal"
to_str EAst.true_literal_ = "true_literal"
to_str EAst.false_literal_ = "false_literal"
to_str EAst.type_ = "type"
to_str EAst.identity_ = "identity"
to_str EAst.value_ = "value"
to_str EAst.int_ = "int"
to_str EAst.uint_ = "uint"
to_str EAst.real_ = "real"
to_str EAst.byte_ = "byte"
to_str EAst.bit_ = "bit"
to_str EAst.str_ = "str"
to_str EAst.array_ = "array"
to_str EAst.pointer_ = "pointer"
to_str EAst.memory_ = "memory"
to_str EAst.function_ = "function"
to_str EAst.include_ = "include"
to_str EAst.macro_ = "macro"
to_str EAst.endmacro_ = "endmacro"
to_str EAst.enter_ = "enter"
to_str EAst.start_ = "start"
to_str EAst.use_ = "use"
to_str EAst.class_ = "class"
to_str EAst.obj_ = "obj"
to_str EAst.print_ = "print"
to_str EAst.private_ = "private"
to_str EAst.public_ = "public"
to_str EAst.const_ = "const"
to_str EAst.static_ = "static"
to_str EAst.ref_ = "ref"
to_str EAst.if_ = "if"
to_str EAst.else_ = "else"
to_str EAst.elif_ = "elif"
to_str EAst.while_ = "while"
to_str EAst.for_ = "for"
to_str EAst.switch_ = "switch"
to_str EAst.case_ = "case"
to_str EAst.default_ = "default"
to_str EAst.break_ = "break"
to_str EAst.continue_ = "continue"
to_str EAst.return_ = "return"
to_str EAst.statement_ = "statement"
to_str EAst.expression_ = "expression"
to_str EAst.program_ = "program"
to_str EAst.pragmatic_block_ = "pragmatic_block"
to_str EAst.functional_block_ = "functional_block"
to_str EAst.conditional_block_ = "conditional_block"
to_str EAst.iterative_block_ = "iterative_block"
to_str EAst.arguments_ = "arguments"
to_str EAst.parameter_ = "parameter"
to_str EAst.parameter_list_ = "parameter_list"
to_str EAst.type_constraints_ = "type_constraints"
to_str EAst.capture_list_ = "capture_list"
to_str EAst.subexpression_ = "subexpression"
to_str EAst.type_list_ = "type_list"
to_str EAst.generic_list_ = "generic_list"
to_str EAst.function_call_ = "function_call"
to_str EAst.type_call_ = "type_call"
to_str EAst.type_arguments_ = "type_arguments"
to_str EAst.index_operator_ = "index_operator"
to_str EAst.index_arguments_ = "index_arguments"
to_str EAst.unary_minus_ = "unary_minus"
to_str EAst.dereference_ = "dereference"
to_str EAst.address_of_ = "address_of"
