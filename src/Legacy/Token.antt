-- ===== src/Legacy/Token.antt =====
-- Candi_Compiler/token.hpp, `caoco::tk`. The iterators into the text serve for the literal alone.
use cand_lang_proto.Base.{ℕ, Bool, true, false, not, ◌&&◌, List, [], length, bytes}
use cand_lang_proto.Syntax.Token.{literal_eq}
use cand_lang_proto.Legacy.TokenType.{EType, type_eq}

pub record CaocoTk : Type 0 where
  pub kind : EType
  pub literal : List ℕ
  pub line : ℕ
  pub col : ℕ

abbrev pub caoco_of_type : EType → CaocoTk
caoco_of_type k = record { kind = k; literal = []; line = 0; col = 0 }

abbrev pub caoco_size : CaocoTk → ℕ
caoco_size t = length t.literal

abbrev pub caoco_type_is : EType → CaocoTk → Bool
caoco_type_is k t = type_eq t.kind k

-- `operator==` and `operator!=`.
abbrev pub caoco_equal : CaocoTk → CaocoTk → Bool
caoco_equal a b = type_eq a.kind b.kind && literal_eq a.literal b.literal

abbrev pub caoco_not_equal : CaocoTk → CaocoTk → Bool
caoco_not_equal a b = not (caoco_equal a b)

unfoldable pub type_is_directive : EType → Bool
type_is_directive EType.atype_ = true
type_is_directive EType.aidentity_ = true
type_is_directive EType.avalue_ = true
type_is_directive EType.aint_ = true
type_is_directive EType.auint_ = true
type_is_directive EType.areal_ = true
type_is_directive EType.abyte_ = true
type_is_directive EType.abit_ = true
type_is_directive EType.astr_ = true
type_is_directive EType.aarray_ = true
type_is_directive EType.apointer_ = true
type_is_directive EType.amemory_ = true
type_is_directive EType.afunction_ = true
type_is_directive EType.enter_ = true
type_is_directive EType.start_ = true
type_is_directive EType.include_ = true
type_is_directive EType.type_ = true
type_is_directive EType.var_ = true
type_is_directive EType.class_ = true
type_is_directive EType.func_ = true
type_is_directive EType.print_ = true
type_is_directive EType.none_literal_ = true
type_is_directive EType.obj_ = true
type_is_directive EType.private_ = true
type_is_directive EType.macro_ = true
type_is_directive EType.public_ = true
type_is_directive EType.const_ = true
type_is_directive EType.static_ = true
type_is_directive EType.ref_ = true
type_is_directive EType.if_ = true
type_is_directive EType.else_ = true
type_is_directive EType.elif_ = true
type_is_directive EType.while_ = true
type_is_directive EType.for_ = true
type_is_directive EType.switch_ = true
type_is_directive EType.case_ = true
type_is_directive EType.default_ = true
type_is_directive EType.break_ = true
type_is_directive EType.continue_ = true
type_is_directive EType.return_ = true
type_is_directive EType.into_ = true
type_is_directive EType.on_ = true
type_is_directive _ = false

abbrev pub is_directive : CaocoTk → Bool
is_directive t = type_is_directive t.kind

abbrev not_convertible : List ℕ
not_convertible =
    bytes
      "This token type is not string-convertible. Please implement a string conversion for this token type in the token_type_to_string function in test.cpp."

unfoldable pub type_to_string : EType → List ℕ
type_to_string EType.none_ = bytes "none"
type_to_string EType.invalid_ = bytes "invalid"
type_to_string EType.eof_ = bytes "eof"
type_to_string EType.line_comment_ = bytes "line_comment"
type_to_string EType.block_comment_ = bytes "block_comment"
type_to_string EType.string_literal_ = bytes "string_literal"
type_to_string EType.number_literal_ = bytes "number_literal"
type_to_string EType.real_literal_ = bytes "real_literal"
type_to_string EType.newline_ = bytes "newline"
type_to_string EType.whitespace_ = bytes "whitespace"
type_to_string EType.alnumus_ = bytes "alnumus"
type_to_string EType.simple_assignment_ = bytes "simple_assignment"
type_to_string EType.addition_assignment_ = bytes "addition_assignment"
type_to_string EType.subtraction_assignment_ = bytes "subtraction_assignment"
type_to_string EType.multiplication_assignment_ = bytes "multiplication_assignment"
type_to_string EType.division_assignment_ = bytes "division_assignment"
type_to_string EType.remainder_assignment_ = bytes "remainder_assignment"
type_to_string EType.bitwise_and_assignment_ = bytes "bitwise_and_assignment"
type_to_string EType.bitwise_or_assignment_ = bytes "bitwise_or_assignment"
type_to_string EType.bitwise_xor_assignment_ = bytes "bitwise_xor_assignment"
type_to_string EType.left_shift_assignment_ = bytes "left_shift_assignment"
type_to_string EType.right_shift_assignment_ = bytes "right_shift_assignment"
type_to_string EType.increment_ = bytes "increment"
type_to_string EType.decrement_ = bytes "decrement"
type_to_string EType.addition_ = bytes "addition"
type_to_string EType.subtraction_ = bytes "subtraction"
type_to_string EType.multiplication_ = bytes "multiplication"
type_to_string EType.division_ = bytes "division"
type_to_string EType.remainder_ = bytes "remainder"
type_to_string EType.bitwise_not_ = bytes "bitwise_NOT"
type_to_string EType.bitwise_and_ = bytes "bitwise_AND"
type_to_string EType.bitwise_or_ = bytes "bitwise_OR"
type_to_string EType.bitwise_xor_ = bytes "bitwise_XOR"
type_to_string EType.bitwise_left_shift_ = bytes "bitwise_left_shift"
type_to_string EType.bitwise_right_shift_ = bytes "bitwise_right_shift"
type_to_string EType.negation_ = bytes "negation"
type_to_string EType.logical_and_ = bytes "logical_AND"
type_to_string EType.logical_or_ = bytes "logical_OR"
type_to_string EType.equal_ = bytes "equal"
type_to_string EType.not_equal_ = bytes "not_equal"
type_to_string EType.less_than_ = bytes "less_than"
type_to_string EType.greater_than_ = bytes "greater_than"
type_to_string EType.less_than_or_equal_ = bytes "less_than_or_equal"
type_to_string EType.greater_than_or_equal_ = bytes "greater_than_or_equal"
type_to_string EType.three_way_comparison_ = bytes "three_way_comparison"
type_to_string EType.open_scope_ = bytes "open_scope"
type_to_string EType.close_scope_ = bytes "close_scope"
type_to_string EType.open_list_ = bytes "open_list"
type_to_string EType.close_list_ = bytes "close_list"
type_to_string EType.open_frame_ = bytes "open_frame"
type_to_string EType.close_frame_ = bytes "close_frame"
type_to_string EType.eos_ = bytes "eos"
type_to_string EType.comma_ = bytes "comma"
type_to_string EType.period_ = bytes "period"
type_to_string EType.ellipsis_ = bytes "ellipsis"
type_to_string EType.atype_ = bytes "atype_"
type_to_string EType.aidentity_ = bytes "aidentity_"
type_to_string EType.avalue_ = bytes "avalue_"
type_to_string EType.aint_ = bytes "aint_"
type_to_string EType.auint_ = bytes "auint_"
type_to_string EType.areal_ = bytes "areal_"
type_to_string EType.abyte_ = bytes "abyte_"
type_to_string EType.abit_ = bytes "abit_"
type_to_string EType.aarray_ = bytes "aarray_"
type_to_string EType.apointer_ = bytes "apointer_"
type_to_string EType.amemory_ = bytes "amemory_"
type_to_string EType.afunction_ = bytes "afunction_"
type_to_string EType.enter_ = bytes "enter_"
type_to_string EType.start_ = bytes "start_"
type_to_string EType.type_ = bytes "type_"
type_to_string EType.var_ = bytes "var_"
type_to_string EType.class_ = bytes "class_"
type_to_string EType.func_ = bytes "func_"
type_to_string EType.print_ = bytes "print_"
type_to_string EType.public_ = bytes "public_"
type_to_string EType.const_ = bytes "const_"
type_to_string EType.static_ = bytes "static_"
type_to_string EType.ref_ = bytes "ref_"
type_to_string EType.if_ = bytes "if_"
type_to_string EType.else_ = bytes "else_"
type_to_string EType.elif_ = bytes "elif_"
type_to_string EType.while_ = bytes "while_"
type_to_string EType.for_ = bytes "for_"
type_to_string EType.switch_ = bytes "switch_"
type_to_string EType.case_ = bytes "case_"
type_to_string _ = not_convertible
