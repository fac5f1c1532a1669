-- ===== src/Legacy/TokenType.antt =====
-- Candi_Compiler/token.hpp, `tk::e_type`: the kinds of tokens of the older parser, the macro expander
-- and the preprocessor, in the source's order.
use cand_lang_proto.Base.{
  ℕ, Bool, true, ◌==◌, ==_iff, List, [], ◌∷◌, some, get_elem?, ◌≡◌, ◌↔◌, refl, ap,
}

pub data EType : Type 0 where
  none_ invalid_ eof_ line_comment_ block_comment_ string_literal_ : EType
  number_literal_ real_literal_ byte_literal_ bit_literal_ unsigned_literal_ : EType
  newline_ whitespace_ alnumus_ simple_assignment_ addition_assignment_ : EType
  subtraction_assignment_ multiplication_assignment_ division_assignment_ : EType
  remainder_assignment_ bitwise_and_assignment_ bitwise_or_assignment_ : EType
  bitwise_xor_assignment_ left_shift_assignment_ right_shift_assignment_ : EType
  increment_ decrement_ addition_ subtraction_ multiplication_ division_ : EType
  remainder_ bitwise_not_ bitwise_and_ bitwise_or_ bitwise_xor_ : EType
  bitwise_left_shift_ bitwise_right_shift_ negation_ logical_and_ logical_or_ : EType
  equal_ not_equal_ less_than_ greater_than_ less_than_or_equal_ : EType
  greater_than_or_equal_ three_way_comparison_ open_scope_ close_scope_ : EType
  open_list_ close_list_ open_frame_ close_frame_ eos_ comma_ period_ ellipsis_ : EType
  at_operator_ atype_ aidentity_ avalue_ aint_ auint_ areal_ abyte_ abit_ astr_ : EType
  aarray_ apointer_ amemory_ afunction_ enter_ start_ include_ type_ use_ var_ : EType
  class_ func_ print_ none_literal_ obj_ private_ macro_ endmacro_ public_ : EType
  const_ static_ ref_ if_ else_ elif_ while_ for_ switch_ case_ default_ break_ : EType
  continue_ return_ into_ on_ : EType

-- The enumerator's integer value plus one: the source's values begin at -1.
unfoldable pub type_code : EType → ℕ
type_code EType.none_ = 0
type_code EType.invalid_ = 1
type_code EType.eof_ = 2
type_code EType.line_comment_ = 3
type_code EType.block_comment_ = 4
type_code EType.string_literal_ = 5
type_code EType.number_literal_ = 6
type_code EType.real_literal_ = 7
type_code EType.byte_literal_ = 8
type_code EType.bit_literal_ = 9
type_code EType.unsigned_literal_ = 10
type_code EType.newline_ = 11
type_code EType.whitespace_ = 12
type_code EType.alnumus_ = 13
type_code EType.simple_assignment_ = 14
type_code EType.addition_assignment_ = 15
type_code EType.subtraction_assignment_ = 16
type_code EType.multiplication_assignment_ = 17
type_code EType.division_assignment_ = 18
type_code EType.remainder_assignment_ = 19
type_code EType.bitwise_and_assignment_ = 20
type_code EType.bitwise_or_assignment_ = 21
type_code EType.bitwise_xor_assignment_ = 22
type_code EType.left_shift_assignment_ = 23
type_code EType.right_shift_assignment_ = 24
type_code EType.increment_ = 25
type_code EType.decrement_ = 26
type_code EType.addition_ = 27
type_code EType.subtraction_ = 28
type_code EType.multiplication_ = 29
type_code EType.division_ = 30
type_code EType.remainder_ = 31
type_code EType.bitwise_not_ = 32
type_code EType.bitwise_and_ = 33
type_code EType.bitwise_or_ = 34
type_code EType.bitwise_xor_ = 35
type_code EType.bitwise_left_shift_ = 36
type_code EType.bitwise_right_shift_ = 37
type_code EType.negation_ = 38
type_code EType.logical_and_ = 39
type_code EType.logical_or_ = 40
type_code EType.equal_ = 41
type_code EType.not_equal_ = 42
type_code EType.less_than_ = 43
type_code EType.greater_than_ = 44
type_code EType.less_than_or_equal_ = 45
type_code EType.greater_than_or_equal_ = 46
type_code EType.three_way_comparison_ = 47
type_code EType.open_scope_ = 48
type_code EType.close_scope_ = 49
type_code EType.open_list_ = 50
type_code EType.close_list_ = 51
type_code EType.open_frame_ = 52
type_code EType.close_frame_ = 53
type_code EType.eos_ = 54
type_code EType.comma_ = 55
type_code EType.period_ = 56
type_code EType.ellipsis_ = 57
type_code EType.at_operator_ = 58
type_code EType.atype_ = 59
type_code EType.aidentity_ = 60
type_code EType.avalue_ = 61
type_code EType.aint_ = 62
type_code EType.auint_ = 63
type_code EType.areal_ = 64
type_code EType.abyte_ = 65
type_code EType.abit_ = 66
type_code EType.astr_ = 67
type_code EType.aarray_ = 68
type_code EType.apointer_ = 69
type_code EType.amemory_ = 70
type_code EType.afunction_ = 71
type_code EType.enter_ = 72
type_code EType.start_ = 73
type_code EType.include_ = 74
type_code EType.type_ = 75
type_code EType.use_ = 76
type_code EType.var_ = 77
type_code EType.class_ = 78
type_code EType.func_ = 79
type_code EType.print_ = 80
type_code EType.none_literal_ = 81
type_code EType.obj_ = 82
type_code EType.private_ = 83
type_code EType.macro_ = 84
type_code EType.endmacro_ = 85
type_code EType.public_ = 86
type_code EType.const_ = 87
type_code EType.static_ = 88
type_code EType.ref_ = 89
type_code EType.if_ = 90
type_code EType.else_ = 91
type_code EType.elif_ = 92
type_code EType.while_ = 93
type_code EType.for_ = 94
type_code EType.switch_ = 95
type_code EType.case_ = 96
type_code EType.default_ = 97
type_code EType.break_ = 98
type_code EType.continue_ = 99
type_code EType.return_ = 100
type_code EType.into_ = 101
type_code EType.on_ = 102

-- `operator==` of the enumeration.
unfoldable pub type_eq : EType → EType → Bool
unfolding type_code
type_eq a b = type_code a == type_code b

abbrev types : List EType
types =
    EType.none_ ∷ EType.invalid_ ∷ EType.eof_ ∷ EType.line_comment_ ∷ EType.block_comment_
    ∷ EType.string_literal_ ∷ EType.number_literal_ ∷ EType.real_literal_ ∷ EType.byte_literal_
    ∷ EType.bit_literal_ ∷ EType.unsigned_literal_ ∷ EType.newline_ ∷ EType.whitespace_
    ∷ EType.alnumus_ ∷ EType.simple_assignment_ ∷ EType.addition_assignment_
    ∷ EType.subtraction_assignment_ ∷ EType.multiplication_assignment_ ∷ EType.division_assignment_
    ∷ EType.remainder_assignment_ ∷ EType.bitwise_and_assignment_ ∷ EType.bitwise_or_assignment_
    ∷ EType.bitwise_xor_assignment_ ∷ EType.left_shift_assignment_ ∷ EType.right_shift_assignment_
    ∷ EType.increment_ ∷ EType.decrement_ ∷ EType.addition_ ∷ EType.subtraction_
    ∷ EType.multiplication_ ∷ EType.division_ ∷ EType.remainder_ ∷ EType.bitwise_not_
    ∷ EType.bitwise_and_ ∷ EType.bitwise_or_ ∷ EType.bitwise_xor_ ∷ EType.bitwise_left_shift_
    ∷ EType.bitwise_right_shift_ ∷ EType.negation_ ∷ EType.logical_and_ ∷ EType.logical_or_
    ∷ EType.equal_ ∷ EType.not_equal_ ∷ EType.less_than_ ∷ EType.greater_than_
    ∷ EType.less_than_or_equal_ ∷ EType.greater_than_or_equal_ ∷ EType.three_way_comparison_
    ∷ EType.open_scope_ ∷ EType.close_scope_ ∷ EType.open_list_ ∷ EType.close_list_
    ∷ EType.open_frame_ ∷ EType.close_frame_ ∷ EType.eos_ ∷ EType.comma_ ∷ EType.period_
    ∷ EType.ellipsis_ ∷ EType.at_operator_ ∷ EType.atype_ ∷ EType.aidentity_ ∷ EType.avalue_
    ∷ EType.aint_ ∷ EType.auint_ ∷ EType.areal_ ∷ EType.abyte_ ∷ EType.abit_ ∷ EType.astr_
    ∷ EType.aarray_ ∷ EType.apointer_ ∷ EType.amemory_ ∷ EType.afunction_ ∷ EType.enter_
    ∷ EType.start_ ∷ EType.include_ ∷ EType.type_ ∷ EType.use_ ∷ EType.var_ ∷ EType.class_
    ∷ EType.func_ ∷ EType.print_ ∷ EType.none_literal_ ∷ EType.obj_ ∷ EType.private_ ∷ EType.macro_
    ∷ EType.endmacro_ ∷ EType.public_ ∷ EType.const_ ∷ EType.static_ ∷ EType.ref_ ∷ EType.if_
    ∷ EType.else_ ∷ EType.elif_ ∷ EType.while_ ∷ EType.for_ ∷ EType.switch_ ∷ EType.case_
    ∷ EType.default_ ∷ EType.break_ ∷ EType.continue_ ∷ EType.return_ ∷ EType.into_ ∷ EType.on_ ∷ []

types_lem : (t : EType) → get_elem? types (type_code t) ≡ some t
unfolding type_code
types_lem EType.none_ = refl
types_lem _ = refl

type_code-injective : (a b : EType) → type_code a ≡ type_code b → a ≡ b
type_code-injective a b h = cc (types_lem a, types_lem b, ap (get_elem? types) h)

pub type_eq_iff : (a b : EType) → (type_eq a b ≡ true) ↔ (a ≡ b)
unfolding type_eq
type_eq_iff a b =
    (λ h. type_code-injective a b ((==_iff _ _).0 h), λ e. (==_iff _ _).1 (ap type_code e))
