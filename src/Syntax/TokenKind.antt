-- ===== src/Syntax/TokenKind.antt =====
-- Candi_Compiler/cand_syntax.hpp, `enum class e_tk`: the kinds of tokens, in the source's order.
use cand_lang_proto.Base.{ℕ, Bool, ◌==◌}

pub data ETk : Type 0 where
  none_ invalid_ eof_ line_comment_ block_comment_ newline_ whitespace_ : ETk
  string_literal_ number_literal_ real_literal_ byte_literal_ bit_literal_ : ETk
  unsigned_literal_ alnumus_ simple_assignment_ addition_assignment_ : ETk
  subtraction_assignment_ multiplication_assignment_ division_assignment_ : ETk
  remainder_assignment_ bitwise_and_assignment_ bitwise_or_assignment_ : ETk
  bitwise_xor_assignment_ left_shift_assignment_ right_shift_assignment_ : ETk
  increment_ decrement_ addition_ subtraction_ multiplication_ division_ : ETk
  remainder_ bitwise_and_ bitwise_or_ bitwise_xor_ bitwise_left_shift_ : ETk
  bitwise_right_shift_ negation_ bitwise_not_ logical_and_ logical_or_ equal_ : ETk
  not_equal_ less_than_ greater_than_ less_than_or_equal_ greater_than_or_equal_ : ETk
  three_way_comparison_ open_paren_ close_paren_ open_brace_ close_brace_ : ETk
  open_bracket_ close_bracket_ semicolon_ colon_ comma_ period_ ellipsis_ : ETk
  commerical_at_ none_literal_ true_literal_ false_literal_ type_ identity_ : ETk
  value_ int_ uint_ real_ byte_ bit_ str_ array_ pointer_ memory_ function_ : ETk
  include_ macro_ endmacro_ enter_ start_ use_ class_ obj_ print_ private_ : ETk
  public_ const_ static_ ref_ if_ else_ elif_ while_ for_ switch_ case_ default_ : ETk
  break_ continue_ return_ : ETk

-- The enumerator's integer value plus one: the source's values begin at -1.
unfoldable pub tk_code : ETk → ℕ
tk_code ETk.none_ = 0
tk_code ETk.invalid_ = 1
tk_code ETk.eof_ = 2
tk_code ETk.line_comment_ = 3
tk_code ETk.block_comment_ = 4
tk_code ETk.newline_ = 5
tk_code ETk.whitespace_ = 6
tk_code ETk.string_literal_ = 7
tk_code ETk.number_literal_ = 8
tk_code ETk.real_literal_ = 9
tk_code ETk.byte_literal_ = 10
tk_code ETk.bit_literal_ = 11
tk_code ETk.unsigned_literal_ = 12
tk_code ETk.alnumus_ = 13
tk_code ETk.simple_assignment_ = 14
tk_code ETk.addition_assignment_ = 15
tk_code ETk.subtraction_assignment_ = 16
tk_code ETk.multiplication_assignment_ = 17
tk_code ETk.division_assignment_ = 18
tk_code ETk.remainder_assignment_ = 19
tk_code ETk.bitwise_and_assignment_ = 20
tk_code ETk.bitwise_or_assignment_ = 21
tk_code ETk.bitwise_xor_assignment_ = 22
tk_code ETk.left_shift_assignment_ = 23
tk_code ETk.right_shift_assignment_ = 24
tk_code ETk.increment_ = 25
tk_code ETk.decrement_ = 26
tk_code ETk.addition_ = 27
tk_code ETk.subtraction_ = 28
tk_code ETk.multiplication_ = 29
tk_code ETk.division_ = 30
tk_code ETk.remainder_ = 31
tk_code ETk.bitwise_and_ = 32
tk_code ETk.bitwise_or_ = 33
tk_code ETk.bitwise_xor_ = 34
tk_code ETk.bitwise_left_shift_ = 35
tk_code ETk.bitwise_right_shift_ = 36
tk_code ETk.negation_ = 37
tk_code ETk.bitwise_not_ = 38
tk_code ETk.logical_and_ = 39
tk_code ETk.logical_or_ = 40
tk_code ETk.equal_ = 41
tk_code ETk.not_equal_ = 42
tk_code ETk.less_than_ = 43
tk_code ETk.greater_than_ = 44
tk_code ETk.less_than_or_equal_ = 45
tk_code ETk.greater_than_or_equal_ = 46
tk_code ETk.three_way_comparison_ = 47
tk_code ETk.open_paren_ = 48
tk_code ETk.close_paren_ = 49
tk_code ETk.open_brace_ = 50
tk_code ETk.close_brace_ = 51
tk_code ETk.open_bracket_ = 52
tk_code ETk.close_bracket_ = 53
tk_code ETk.semicolon_ = 54
tk_code ETk.colon_ = 55
tk_code ETk.comma_ = 56
tk_code ETk.period_ = 57
tk_code ETk.ellipsis_ = 58
tk_code ETk.commerical_at_ = 59
tk_code ETk.none_literal_ = 60
tk_code ETk.true_literal_ = 61
tk_code ETk.false_literal_ = 62
tk_code ETk.type_ = 63
tk_code ETk.identity_ = 64
tk_code ETk.value_ = 65
tk_code ETk.int_ = 66
tk_code ETk.uint_ = 67
tk_code ETk.real_ = 68
tk_code ETk.byte_ = 69
tk_code ETk.bit_ = 70
tk_code ETk.str_ = 71
tk_code ETk.array_ = 72
tk_code ETk.pointer_ = 73
tk_code ETk.memory_ = 74
tk_code ETk.function_ = 75
tk_code ETk.include_ = 76
tk_code ETk.macro_ = 77
tk_code ETk.endmacro_ = 78
tk_code ETk.enter_ = 79
tk_code ETk.start_ = 80
tk_code ETk.use_ = 81
tk_code ETk.class_ = 82
tk_code ETk.obj_ = 83
tk_code ETk.print_ = 84
tk_code ETk.private_ = 85
tk_code ETk.public_ = 86
tk_code ETk.const_ = 87
tk_code ETk.static_ = 88
tk_code ETk.ref_ = 89
tk_code ETk.if_ = 90
tk_code ETk.else_ = 91
tk_code ETk.elif_ = 92
tk_code ETk.while_ = 93
tk_code ETk.for_ = 94
tk_code ETk.switch_ = 95
tk_code ETk.case_ = 96
tk_code ETk.default_ = 97
tk_code ETk.break_ = 98
tk_code ETk.continue_ = 99
tk_code ETk.return_ = 100

-- `operator==` of the enumeration.
unfoldable pub tk_eq : ETk → ETk → Bool
unfolding tk_code
tk_eq a b = tk_code a == tk_code b
