-- ===== src/Tokenizer/LongestOperator.antt =====
-- `lex_operator` of Candi_Compiler/tokenizer.hpp takes the longest operator at a place.
use cand_lang_proto.Base.{
  ℕ, ◌≤◌, Bool, true, false, ◌≡◌, ◌≢◌, refl, arith, List, [], ◌∷◌, length, take, leb, leb→le,
  Option, none, some,
}
use cand_lang_proto.Syntax.TokenKind.{ETk}
use cand_lang_proto.Tokenizer.Operators.{operator_at}
use cand_lang_proto.Tokenizer.Spelling.{spelling}

-- An operator of at least `m` bytes is recognised.
abbrev pub covers : ℕ → Option (ETk × ℕ) → Bool
covers m none = false
covers m (some (k, n)) = leb m n

first : {x y : ℕ} {xs ys : List ℕ} → x ∷ xs ≡ y ∷ ys → x ≡ y
first e = cc

second : {x y z w : ℕ} {xs ys : List ℕ} → x ∷ y ∷ xs ≡ z ∷ w ∷ ys → y ≡ w
second e = cc

third : {x y z u v w : ℕ} {xs ys : List ℕ} → x ∷ y ∷ z ∷ xs ≡ u ∷ v ∷ w ∷ ys → z ≡ w
third e = cc

operator_at-covers :
    (k : ETk) (c0 c1 c2 : ℕ)
    → spelling k ≢ []
    → take (length (spelling k)) (c0 ∷ c1 ∷ c2 ∷ []) ≡ spelling k
    → covers (length (spelling k)) (operator_at c0 c1 c2) ≡ true
unfolding operator_at
operator_at-covers ETk.equal_ c0 c1 c2 h e = rw (first e, second e) (ground arith)
operator_at-covers ETk.simple_assignment_ c0 c1 c2 h e = rw (first e) (ground arith)
operator_at-covers ETk.increment_ c0 c1 c2 h e = rw (first e, second e) (ground arith)
operator_at-covers ETk.addition_assignment_ c0 c1 c2 h e = rw (first e, second e) (ground arith)
operator_at-covers ETk.addition_ c0 c1 c2 h e = rw (first e) (ground arith)
operator_at-covers ETk.decrement_ c0 c1 c2 h e = rw (first e, second e) (ground arith)
operator_at-covers ETk.subtraction_assignment_ c0 c1 c2 h e = rw (first e, second e) (ground arith)
operator_at-covers ETk.subtraction_ c0 c1 c2 h e = rw (first e) (ground arith)
operator_at-covers ETk.multiplication_assignment_ c0 c1 c2 h e =
    rw (first e, second e) (ground arith)
operator_at-covers ETk.multiplication_ c0 c1 c2 h e = rw (first e) (ground arith)
operator_at-covers ETk.division_assignment_ c0 c1 c2 h e = rw (first e, second e) (ground arith)
operator_at-covers ETk.division_ c0 c1 c2 h e = rw (first e) (ground arith)
operator_at-covers ETk.remainder_assignment_ c0 c1 c2 h e = rw (first e, second e) (ground arith)
operator_at-covers ETk.remainder_ c0 c1 c2 h e = rw (first e) (ground arith)
operator_at-covers ETk.bitwise_and_assignment_ c0 c1 c2 h e = rw (first e, second e) (ground arith)
operator_at-covers ETk.logical_and_ c0 c1 c2 h e = rw (first e, second e) (ground arith)
operator_at-covers ETk.bitwise_and_ c0 c1 c2 h e = rw (first e) (ground arith)
operator_at-covers ETk.bitwise_or_assignment_ c0 c1 c2 h e = rw (first e, second e) (ground arith)
operator_at-covers ETk.logical_or_ c0 c1 c2 h e = rw (first e, second e) (ground arith)
operator_at-covers ETk.bitwise_or_ c0 c1 c2 h e = rw (first e) (ground arith)
operator_at-covers ETk.bitwise_xor_assignment_ c0 c1 c2 h e = rw (first e, second e) (ground arith)
operator_at-covers ETk.bitwise_xor_ c0 c1 c2 h e = rw (first e) (ground arith)
operator_at-covers ETk.left_shift_assignment_ c0 c1 c2 h e =
    rw (first e, second e, third e) (ground arith)
operator_at-covers ETk.bitwise_left_shift_ c0 c1 c2 h e = rw (first e, second e) (ground arith)
operator_at-covers ETk.three_way_comparison_ c0 c1 c2 h e =
    rw (first e, second e, third e) (ground arith)
operator_at-covers ETk.less_than_or_equal_ c0 c1 c2 h e = rw (first e, second e) (ground arith)
operator_at-covers ETk.less_than_ c0 c1 c2 h e = rw (first e) (ground arith)
operator_at-covers ETk.right_shift_assignment_ c0 c1 c2 h e =
    rw (first e, second e, third e) (ground arith)
operator_at-covers ETk.bitwise_right_shift_ c0 c1 c2 h e = rw (first e, second e) (ground arith)
operator_at-covers ETk.greater_than_or_equal_ c0 c1 c2 h e = rw (first e, second e) (ground arith)
operator_at-covers ETk.greater_than_ c0 c1 c2 h e = rw (first e) (ground arith)
operator_at-covers ETk.not_equal_ c0 c1 c2 h e = rw (first e, second e) (ground arith)
operator_at-covers ETk.negation_ c0 c1 c2 h e = rw (first e) (ground arith)
operator_at-covers ETk.bitwise_not_ c0 c1 c2 h e = rw (first e) (ground arith)
operator_at-covers ETk.commerical_at_ c0 c1 c2 h e = rw (first e) (ground arith)
operator_at-covers _ c0 c1 c2 h e = absurd (h refl)

covered :
    (m : ℕ) (o : Option (ETk × ℕ))
    → covers m o ≡ true
    → (k : ETk) × (n : ℕ) × (o ≡ some (k, n)) × (m ≤ n)
covered m none h = cc
covered m (some (k, n)) h = (k, n, refl, leb→le m n h)

-- Where an operator stands at three bytes, one at least as long is recognised there.
pub operator_at_longest :
    (k : ETk) (c0 c1 c2 : ℕ)
    → spelling k ≢ []
    → take (length (spelling k)) (c0 ∷ c1 ∷ c2 ∷ []) ≡ spelling k
    → (k' : ETk) × (n : ℕ) × (operator_at c0 c1 c2 ≡ some (k', n)) × (length (spelling k) ≤ n)
operator_at_longest k c0 c1 c2 h e =
    covered (length (spelling k)) (operator_at c0 c1 c2) (operator_at-covers k c0 c1 c2 h e)
