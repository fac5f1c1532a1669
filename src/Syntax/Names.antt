-- ===== src/Syntax/Names.antt =====
-- Candi_Compiler/cand_syntax.hpp, `sl::to_str(e_tk)`.
use cand_lang_proto.Base.{String}
use cand_lang_proto.Syntax.TokenKind.{ETk}

unfoldable pub to_str : ETk → String
to_str ETk.none_ = "none"
to_str ETk.invalid_ = "invalid"
to_str ETk.eof_ = "eof"
to_str ETk.line_comment_ = "line_comment"
to_str ETk.block_comment_ = "block_comment"
to_str ETk.newline_ = "newline"
to_str ETk.whitespace_ = "whitespace"
to_str ETk.string_literal_ = "string_literal"
to_str ETk.number_literal_ = "number_literal"
to_str ETk.real_literal_ = "real_literal"
to_str ETk.byte_literal_ = "byte_literal"
to_str ETk.bit_literal_ = "bit_literal"
to_str ETk.unsigned_literal_ = "unsigned_literal"
to_str ETk.alnumus_ = "alnumus"
to_str ETk.simple_assignment_ = "simple_assignment"
to_str ETk.addition_assignment_ = "addition_assignment"
to_str ETk.subtraction_assignment_ = "subtraction_assignment"
to_str ETk.multiplication_assignment_ = "multiplication_assignment"
to_str ETk.division_assignment_ = "division_assignment"
to_str ETk.remainder_assignment_ = "remainder_assignment"
to_str ETk.bitwise_and_assignment_ = "bitwise_and_assignment"
to_str ETk.bitwise_or_assignment_ = "bitwise_or_assignment"
to_str ETk.bitwise_xor_assignment_ = "bitwise_xor_assignment"
to_str ETk.left_shift_assignment_ = "left_shift_assignment"
to_str ETk.right_shift_assignment_ = "right_shift_assignment"
to_str ETk.increment_ = "increment"
to_str ETk.decrement_ = "decrement"
to_str ETk.addition_ = "addition"
to_str ETk.subtraction_ = "subtraction"
to_str ETk.multiplication_ = "multiplication"
to_str ETk.division_ = "division"
to_str ETk.remainder_ = "remainder"
to_str ETk.bitwise_not_ = "bitwise_not"
to_str ETk.bitwise_and_ = "bitwise_and"
to_str ETk.bitwise_or_ = "bitwise_or"
to_str ETk.bitwise_xor_ = "bitwise_xor"
to_str ETk.bitwise_left_shift_ = "bitwise_left_shift"
to_str ETk.bitwise_right_shift_ = "bitwise_right_shift"
to_str ETk.negation_ = "negation"
to_str ETk.logical_and_ = "logical_and"
to_str ETk.logical_or_ = "logical_or"
to_str ETk.equal_ = "equal"
to_str ETk.not_equal_ = "not_equal"
to_str ETk.less_than_ = "less_than"
to_str ETk.greater_than_ = "greater_than"
to_str ETk.less_than_or_equal_ = "less_than_or_equal"
to_str ETk.greater_than_or_equal_ = "greater_than_or_equal"
to_str ETk.three_way_comparison_ = "three_way_comparison"
to_str ETk.open_paren_ = "("
to_str ETk.close_paren_ = ")"
to_str ETk.open_brace_ = "open_brace"
to_str ETk.close_brace_ = "close_brace"
to_str ETk.open_bracket_ = "open_bracket"
to_str ETk.close_bracket_ = "close_bracket"
to_str ETk.semicolon_ = "semicolon"
to_str ETk.colon_ = "colon"
to_str ETk.comma_ = "comma"
to_str ETk.period_ = "period"
to_str ETk.ellipsis_ = "ellipsis"
to_str ETk.commerical_at_ = "commerical_at"
to_str ETk.none_literal_ = "none_literal"
to_str ETk.true_literal_ = "true_literal"
to_str ETk.false_literal_ = "false_literal"
to_str ETk.type_ = "type"
to_str ETk.identity_ = "identity"
to_str ETk.value_ = "value"
to_str ETk.int_ = "int"
to_str ETk.uint_ = "uint"
to_str ETk.real_ = "real"
to_str ETk.byte_ = "byte"
to_str ETk.bit_ = "bit"
to_str ETk.str_ = "str"
to_str ETk.array_ = "array"
to_str ETk.pointer_ = "pointer"
to_str ETk.memory_ = "memory"
to_str ETk.function_ = "function"
to_str ETk.include_ = "include"
to_str ETk.macro_ = "macro"
to_str ETk.endmacro_ = "endmacro"
to_str ETk.enter_ = "enter"
to_str ETk.start_ = "start"
to_str ETk.use_ = "use"
to_str ETk.class_ = "class"
to_str ETk.obj_ = "obj"
to_str ETk.print_ = "print"
to_str ETk.private_ = "private"
to_str ETk.public_ = "public"
to_str ETk.const_ = "const"
to_str ETk.static_ = "static"
to_str ETk.ref_ = "ref"
to_str ETk.if_ = "if"
to_str ETk.else_ = "else"
to_str ETk.elif_ = "elif"
to_str ETk.while_ = "while"
to_str ETk.for_ = "for"
to_str ETk.switch_ = "switch"
to_str ETk.case_ = "case"
to_str ETk.default_ = "default"
to_str ETk.break_ = "break"
to_str ETk.continue_ = "continue"
to_str ETk.return_ = "return"
