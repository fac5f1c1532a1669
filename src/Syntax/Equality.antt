-- ===== src/Syntax/Equality.antt =====
-- The comparisons of kinds and literals decide equality.
use cand_lang_proto.Base.{
  ℕ, true, List, [], ◌∷◌, ◌≡◌, refl, ap, ◌↔◌, some, arith, ==_iff, get_elem?,
}
use cand_lang_proto.Syntax.TokenKind.{ETk, tk_code, tk_eq}
use cand_lang_proto.Syntax.Token.{literal_eq}

-- Every kind, in the order of its code.
abbrev kinds : List ETk
kinds =
    ETk.none_ ∷ ETk.invalid_ ∷ ETk.eof_ ∷ ETk.line_comment_ ∷ ETk.block_comment_ ∷ ETk.newline_
    ∷ ETk.whitespace_ ∷ ETk.string_literal_ ∷ ETk.number_literal_ ∷ ETk.real_literal_
    ∷ ETk.byte_literal_ ∷ ETk.bit_literal_ ∷ ETk.unsigned_literal_ ∷ ETk.alnumus_
    ∷ ETk.simple_assignment_ ∷ ETk.addition_assignment_ ∷ ETk.subtraction_assignment_
    ∷ ETk.multiplication_assignment_ ∷ ETk.division_assignment_ ∷ ETk.remainder_assignment_
    ∷ ETk.bitwise_and_assignment_ ∷ ETk.bitwise_or_assignment_ ∷ ETk.bitwise_xor_assignment_
    ∷ ETk.left_shift_assignment_ ∷ ETk.right_shift_assignment_ ∷ ETk.increment_ ∷ ETk.decrement_
    ∷ ETk.addition_ ∷ ETk.subtraction_ ∷ ETk.multiplication_ ∷ ETk.division_ ∷ ETk.remainder_
    ∷ ETk.bitwise_and_ ∷ ETk.bitwise_or_ ∷ ETk.bitwise_xor_ ∷ ETk.bitwise_left_shift_
    ∷ ETk.bitwise_right_shift_ ∷ ETk.negation_ ∷ ETk.bitwise_not_ ∷ ETk.logical_and_
    ∷ ETk.logical_or_ ∷ ETk.equal_ ∷ ETk.not_equal_ ∷ ETk.less_than_ ∷ ETk.greater_than_
    ∷ ETk.less_than_or_equal_ ∷ ETk.greater_than_or_equal_ ∷ ETk.three_way_comparison_
    ∷ ETk.open_paren_ ∷ ETk.close_paren_ ∷ ETk.open_brace_ ∷ ETk.close_brace_ ∷ ETk.open_bracket_
    ∷ ETk.close_bracket_ ∷ ETk.semicolon_ ∷ ETk.colon_ ∷ ETk.comma_ ∷ ETk.period_ ∷ ETk.ellipsis_
    ∷ ETk.commerical_at_ ∷ ETk.none_literal_ ∷ ETk.true_literal_ ∷ ETk.false_literal_ ∷ ETk.type_
    ∷ ETk.identity_ ∷ ETk.value_ ∷ ETk.int_ ∷ ETk.uint_ ∷ ETk.real_ ∷ ETk.byte_ ∷ ETk.bit_
    ∷ ETk.str_ ∷ ETk.array_ ∷ ETk.pointer_ ∷ ETk.memory_ ∷ ETk.function_ ∷ ETk.include_ ∷ ETk.macro_
    ∷ ETk.endmacro_ ∷ ETk.enter_ ∷ ETk.start_ ∷ ETk.use_ ∷ ETk.class_ ∷ ETk.obj_ ∷ ETk.print_
    ∷ ETk.private_ ∷ ETk.public_ ∷ ETk.const_ ∷ ETk.static_ ∷ ETk.ref_ ∷ ETk.if_ ∷ ETk.else_
    ∷ ETk.elif_ ∷ ETk.while_ ∷ ETk.for_ ∷ ETk.switch_ ∷ ETk.case_ ∷ ETk.default_ ∷ ETk.break_
    ∷ ETk.continue_ ∷ ETk.return_ ∷ []

kinds_lem : (t : ETk) → get_elem? kinds (tk_code t) ≡ some t
unfolding tk_code
kinds_lem ETk.none_ = refl
kinds_lem _ = refl

tk_code-injective : (a b : ETk) → tk_code a ≡ tk_code b → a ≡ b
tk_code-injective a b h = cc (kinds_lem a, kinds_lem b, ap (get_elem? kinds) h)

pub tk_eq_iff : (a b : ETk) → (tk_eq a b ≡ true) ↔ (a ≡ b)
unfolding tk_eq
tk_eq_iff a b = (λ h. tk_code-injective a b ((==_iff _ _).0 h), λ e. (==_iff _ _).1 (ap tk_code e))

pub literal_eq_iff : (a b : List ℕ) → (literal_eq a b ≡ true) ↔ (a ≡ b)
unfolding literal_eq
literal_eq_iff [] [] = ground arith
literal_eq_iff (x ∷ a) (y ∷ b) = ground (arith, literal_eq_iff a b)
literal_eq_iff _ _ = ground arith
