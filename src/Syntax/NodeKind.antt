-- ===== src/Syntax/NodeKind.antt =====
-- Candi_Compiler/cand_syntax.hpp, `enum class e_ast`: the kinds of syntax tree nodes, in the
-- source's order; those of tokens come first.
use cand_lang_proto.Base.{ℕ, Bool, ◌==◌}

pub data EAst : Type 0 where
  none_ invalid_ eof_ line_comment_ block_comment_ newline_ whitespace_ : EAst
  string_literal_ number_literal_ real_literal_ byte_literal_ bit_literal_ : EAst
  unsigned_literal_ alnumus_ simple_assignment_ addition_assignment_ : EAst
  subtraction_assignment_ multiplication_assignment_ division_assignment_ : EAst
  remainder_assignment_ bitwise_and_assignment_ bitwise_or_assignment_ : EAst
  bitwise_xor_assignment_ left_shift_assignment_ right_shift_assignment_ : EAst
  increment_ decrement_ addition_ subtraction_ multiplication_ division_ : EAst
  remainder_ bitwise_and_ bitwise_or_ bitwise_xor_ bitwise_left_shift_ : EAst
  bitwise_right_shift_ bitwise_not_ negation_ logical_and_ logical_or_ equal_ : EAst
  not_equal_ less_than_ greater_than_ less_than_or_equal_ greater_than_or_equal_ : EAst
  three_way_comparison_ open_paren_ close_paren_ open_brace_ close_brace_ : EAst
  open_bracket_ close_bracket_ semicolon_ colon_ comma_ period_ ellipsis_ : EAst
  commerical_at_ none_literal_ true_literal_ false_literal_ type_ identity_ : EAst
  value_ int_ uint_ real_ byte_ bit_ str_ array_ pointer_ memory_ function_ : EAst
  include_ macro_ endmacro_ enter_ start_ use_ class_ obj_ print_ private_ : EAst
  public_ const_ static_ ref_ if_ else_ elif_ while_ for_ switch_ case_ default_ : EAst
  break_ continue_ return_ statement_ expression_ program_ pragmatic_block_ : EAst
  functional_block_ conditional_block_ iterative_block_ parameter_ : EAst
  parameter_list_ type_constraints_ capture_list_ subexpression_ type_list_ : EAst
  generic_list_ function_call_ arguments_ type_call_ type_arguments_ : EAst
  index_operator_ index_arguments_ unary_minus_ dereference_ address_of_ : EAst

-- The enumerator's integer value plus one: the source's values begin at -1.
unfoldable pub ast_code : EAst → ℕ
ast_code EAst.none_ = 0
ast_code EAst.invalid_ = 1
ast_code EAst.eof_ = 2
ast_code EAst.line_comment_ = 3
ast_code EAst.block_comment_ = 4
ast_code EAst.newline_ = 5
ast_code EAst.whitespace_ = 6
ast_code EAst.string_literal_ = 7
ast_code EAst.number_literal_ = 8
ast_code EAst.real_literal_ = 9
ast_code EAst.byte_literal_ = 10
ast_code EAst.bit_literal_ = 11
ast_code EAst.unsigned_literal_ = 12
ast_code EAst.alnumus_ = 13
ast_code EAst.simple_assignment_ = 14
ast_code EAst.addition_assignment_ = 15
ast_code EAst.subtraction_assignment_ = 16
ast_code EAst.multiplication_assignment_ = 17
ast_code EAst.division_assignment_ = 18
ast_code EAst.remainder_assignment_ = 19
ast_code EAst.bitwise_and_assignment_ = 20
ast_code EAst.bitwise_or_assignment_ = 21
ast_code EAst.bitwise_xor_assignment_ = 22
ast_code EAst.left_shift_assignment_ = 23
ast_code EAst.right_shift_assignment_ = 24
ast_code EAst.increment_ = 25
ast_code EAst.decrement_ = 26
ast_code EAst.addition_ = 27
ast_code EAst.subtraction_ = 28
ast_code EAst.multiplication_ = 29
ast_code EAst.division_ = 30
ast_code EAst.remainder_ = 31
ast_code EAst.bitwise_and_ = 32
ast_code EAst.bitwise_or_ = 33
ast_code EAst.bitwise_xor_ = 34
ast_code EAst.bitwise_left_shift_ = 35
ast_code EAst.bitwise_right_shift_ = 36
ast_code EAst.bitwise_not_ = 37
ast_code EAst.negation_ = 38
ast_code EAst.logical_and_ = 39
ast_code EAst.logical_or_ = 40
ast_code EAst.equal_ = 41
ast_code EAst.not_equal_ = 42
ast_code EAst.less_than_ = 43
ast_code EAst.greater_than_ = 44
ast_code EAst.less_than_or_equal_ = 45
ast_code EAst.greater_than_or_equal_ = 46
ast_code EAst.three_way_comparison_ = 47
ast_code EAst.open_paren_ = 48
ast_code EAst.close_paren_ = 49
ast_code EAst.open_brace_ = 50
ast_code EAst.close_brace_ = 51
ast_code EAst.open_bracket_ = 52
ast_code EAst.close_bracket_ = 53
ast_code EAst.semicolon_ = 54
ast_code EAst.colon_ = 55
ast_code EAst.comma_ = 56
ast_code EAst.period_ = 57
ast_code EAst.ellipsis_ = 58
ast_code EAst.commerical_at_ = 59
ast_code EAst.none_literal_ = 60
ast_code EAst.true_literal_ = 61
ast_code EAst.false_literal_ = 62
ast_code EAst.type_ = 63
ast_code EAst.identity_ = 64
ast_code EAst.value_ = 65
ast_code EAst.int_ = 66
ast_code EAst.uint_ = 67
ast_code EAst.real_ = 68
ast_code EAst.byte_ = 69
ast_code EAst.bit_ = 70
ast_code EAst.str_ = 71
ast_code EAst.array_ = 72
ast_code EAst.pointer_ = 73
ast_code EAst.memory_ = 74
ast_code EAst.function_ = 75
ast_code EAst.include_ = 76
ast_code EAst.macro_ = 77
ast_code EAst.endmacro_ = 78
ast_code EAst.enter_ = 79
ast_code EAst.start_ = 80
ast_code EAst.use_ = 81
ast_code EAst.class_ = 82
ast_code EAst.obj_ = 83
ast_code EAst.print_ = 84
ast_code EAst.private_ = 85
ast_code EAst.public_ = 86
ast_code EAst.const_ = 87
ast_code EAst.static_ = 88
ast_code EAst.ref_ = 89
ast_code EAst.if_ = 90
ast_code EAst.else_ = 91
ast_code EAst.elif_ = 92
ast_code EAst.while_ = 93
ast_code EAst.for_ = 94
ast_code EAst.switch_ = 95
ast_code EAst.case_ = 96
ast_code EAst.default_ = 97
ast_code EAst.break_ = 98
ast_code EAst.continue_ = 99
ast_code EAst.return_ = 100
ast_code EAst.statement_ = 101
ast_code EAst.expression_ = 102
ast_code EAst.program_ = 103
ast_code EAst.pragmatic_block_ = 104
ast_code EAst.functional_block_ = 105
ast_code EAst.conditional_block_ = 106
ast_code EAst.iterative_block_ = 107
ast_code EAst.parameter_ = 108
ast_code EAst.parameter_list_ = 109
ast_code EAst.type_constraints_ = 110
ast_code EAst.capture_list_ = 111
ast_code EAst.subexpression_ = 112
ast_code EAst.type_list_ = 113
ast_code EAst.generic_list_ = 114
ast_code EAst.function_call_ = 115
ast_code EAst.arguments_ = 116
ast_code EAst.type_call_ = 117
ast_code EAst.type_arguments_ = 118
ast_code EAst.index_operator_ = 119
ast_code EAst.index_arguments_ = 120
ast_code EAst.unary_minus_ = 121
ast_code EAst.dereference_ = 122
ast_code EAst.address_of_ = 123

-- `operator==` of the enumeration.
unfoldable pub ast_eq : EAst → EAst → Bool
unfolding ast_code
ast_eq a b = ast_code a == ast_code b
