-- ===== src/Tokenizer/Spelling.antt =====
-- The operators that `lex_operator` of Candi_Compiler/tokenizer.hpp knows, by how they are spelt, and
-- that it takes the longest.
use cand_lang_proto.Base.{
  ℕ, Bool, true, false, ◌≡◌, refl, List, [], ◌∷◌, bytes, ◌||◌, take, ◌==◌, ==_iff, if◌then◌else◌,
  Option, none, some,
}
use cand_lang_proto.Syntax.TokenKind.{ETk}
use cand_lang_proto.Tokenizer.Operators.{operator_at, bitwise_at, less_at, greater_at}

-- How an operator is written; nothing for the other kinds of tokens.
abbrev pub spelling : ETk → List ℕ
spelling ETk.equal_ = bytes "=="
spelling ETk.simple_assignment_ = bytes "="
spelling ETk.increment_ = bytes "++"
spelling ETk.addition_assignment_ = bytes "+="
spelling ETk.addition_ = bytes "+"
spelling ETk.decrement_ = bytes "--"
spelling ETk.subtraction_assignment_ = bytes "-="
spelling ETk.subtraction_ = bytes "-"
spelling ETk.multiplication_assignment_ = bytes "*="
spelling ETk.multiplication_ = bytes "*"
spelling ETk.division_assignment_ = bytes "/="
spelling ETk.division_ = bytes "/"
spelling ETk.remainder_assignment_ = bytes "%="
spelling ETk.remainder_ = bytes "%"
spelling ETk.bitwise_and_assignment_ = bytes "&="
spelling ETk.logical_and_ = bytes "&&"
spelling ETk.bitwise_and_ = bytes "&"
spelling ETk.bitwise_or_assignment_ = bytes "|="
spelling ETk.logical_or_ = bytes "||"
spelling ETk.bitwise_or_ = bytes "|"
spelling ETk.bitwise_xor_assignment_ = bytes "^="
spelling ETk.bitwise_xor_ = bytes "^"
spelling ETk.left_shift_assignment_ = bytes "<<="
spelling ETk.bitwise_left_shift_ = bytes "<<"
spelling ETk.three_way_comparison_ = bytes "<=>"
spelling ETk.less_than_or_equal_ = bytes "<="
spelling ETk.less_than_ = bytes "<"
spelling ETk.right_shift_assignment_ = bytes ">>="
spelling ETk.bitwise_right_shift_ = bytes ">>"
spelling ETk.greater_than_or_equal_ = bytes ">="
spelling ETk.greater_than_ = bytes ">"
spelling ETk.not_equal_ = bytes "!="
spelling ETk.negation_ = bytes "!"
spelling ETk.bitwise_not_ = bytes "~"
spelling ETk.commerical_at_ = bytes "@"
spelling _ = []

-- What is recognised at three bytes is spelt by the first of them.
data Spelt (c0 c1 c2 : ℕ) : Option (ETk × ℕ) → Type 0 where
  no_operator : Spelt c0 c1 c2 none
  spelt : {k : ETk} {n : ℕ} → take n (c0 ∷ c1 ∷ c2 ∷ []) ≡ spelling k → Spelt c0 c1 c2 (some (k, n))

module _ (c0 c1 c2 : ℕ) where
  Spelt-if :
      (b : Bool) {x y : Option (ETk × ℕ)}
      → (b ≡ true → Spelt c0 c1 c2 x)
      → (b ≡ false → Spelt c0 c1 c2 y)
      → Spelt c0 c1 c2 (if b then x else y)
  Spelt-if true f g = f refl
  Spelt-if false f g = g refl

  Spelt-some_if :
      (b : Bool) {x y : ETk × ℕ}
      → (b ≡ true → Spelt c0 c1 c2 (some x))
      → (b ≡ false → Spelt c0 c1 c2 (some y))
      → Spelt c0 c1 c2 (some (if b then x else y))
  Spelt-some_if true f g = f refl
  Spelt-some_if false f g = g refl

  one : (k : ETk) (a : ℕ) → spelling k ≡ a ∷ [] → (c0 == a) ≡ true → Spelt c0 c1 c2 (some (k, 1))
  one k a e h = spelt (rw (e, (==_iff c0 a).0 h) refl)

  two :
      (k : ETk) (a b : ℕ)
      → spelling k ≡ a ∷ b ∷ []
      → (c0 == a) ≡ true
      → (c1 == b) ≡ true
      → Spelt c0 c1 c2 (some (k, 2))
  two k a b e h g = spelt (rw (e, (==_iff c0 a).0 h, (==_iff c1 b).0 g) refl)

  three :
      (k : ETk) (a b c : ℕ)
      → spelling k ≡ a ∷ b ∷ c ∷ []
      → (c0 == a) ≡ true
      → (c1 == b) ≡ true
      → (c2 == c) ≡ true
      → Spelt c0 c1 c2 (some (k, 3))
  three k a b c e h g f =
      spelt (rw (e, (==_iff c0 a).0 h, (==_iff c1 b).0 g, (==_iff c2 c).0 f) refl)

  bitwise-Spelt : Spelt c0 c1 c2 (bitwise_at c0 c1)
  bitwise-Spelt =
      Spelt-if (c0 == b'&')
        (λ a.
          Spelt-if (c1 == b'=') (λ b. two ETk.bitwise_and_assignment_ b'&' b'=' refl a b)
            (λ _.
              Spelt-if (c1 == b'&') (λ b. two ETk.logical_and_ b'&' b'&' refl a b)
                (λ _. one ETk.bitwise_and_ b'&' refl a)))
        (λ _.
          Spelt-if (c0 == b'|')
            (λ a.
              Spelt-if (c1 == b'=') (λ b. two ETk.bitwise_or_assignment_ b'|' b'=' refl a b)
                (λ _.
                  Spelt-if (c1 == b'|') (λ b. two ETk.logical_or_ b'|' b'|' refl a b)
                    (λ _. one ETk.bitwise_or_ b'|' refl a)))
            (λ _.
              Spelt-if (c0 == b'^')
                (λ a.
                  Spelt-if (c1 == b'=') (λ b. two ETk.bitwise_xor_assignment_ b'^' b'=' refl a b)
                    (λ _. one ETk.bitwise_xor_ b'^' refl a))
                (λ _. no_operator)))

  less-Spelt : (c0 == b'<') ≡ true → Spelt c0 c1 c2 (some (less_at c1 c2))
  less-Spelt a =
      Spelt-some_if (c1 == b'<')
        (λ b.
          Spelt-some_if (c2 == b'=')
            (λ c. three ETk.left_shift_assignment_ b'<' b'<' b'=' refl a b c)
            (λ _. two ETk.bitwise_left_shift_ b'<' b'<' refl a b))
        (λ _.
          Spelt-some_if (c1 == b'=')
            (λ b.
              Spelt-some_if (c2 == b'>')
                (λ c. three ETk.three_way_comparison_ b'<' b'=' b'>' refl a b c)
                (λ _. two ETk.less_than_or_equal_ b'<' b'=' refl a b))
            (λ _. one ETk.less_than_ b'<' refl a))

  greater-Spelt : (c0 == b'>') ≡ true → Spelt c0 c1 c2 (some (greater_at c1 c2))
  greater-Spelt a =
      Spelt-some_if (c1 == b'>')
        (λ b.
          Spelt-some_if (c2 == b'=')
            (λ c. three ETk.right_shift_assignment_ b'>' b'>' b'=' refl a b c)
            (λ _. two ETk.bitwise_right_shift_ b'>' b'>' refl a b))
        (λ _.
          Spelt-some_if (c1 == b'=') (λ b. two ETk.greater_than_or_equal_ b'>' b'=' refl a b)
            (λ _. one ETk.greater_than_ b'>' refl a))

  operator-Spelt : Spelt c0 c1 c2 (operator_at c0 c1 c2)
  unfolding operator_at
  operator-Spelt =
      Spelt-if (c0 == b'=')
        (λ a.
          Spelt-if (c1 == b'=') (λ b. two ETk.equal_ b'=' b'=' refl a b)
            (λ _. one ETk.simple_assignment_ b'=' refl a))
        (λ _.
          Spelt-if (c0 == b'+')
            (λ a.
              Spelt-if (c1 == b'+') (λ b. two ETk.increment_ b'+' b'+' refl a b)
                (λ _.
                  Spelt-if (c1 == b'=') (λ b. two ETk.addition_assignment_ b'+' b'=' refl a b)
                    (λ _. one ETk.addition_ b'+' refl a)))
            (λ _.
              Spelt-if (c0 == b'-')
                (λ a.
                  Spelt-if (c1 == b'-') (λ b. two ETk.decrement_ b'-' b'-' refl a b)
                    (λ _.
                      Spelt-if (c1 == b'=')
                        (λ b. two ETk.subtraction_assignment_ b'-' b'=' refl a b)
                        (λ _. one ETk.subtraction_ b'-' refl a)))
                (λ _.
                  Spelt-if (c0 == b'*')
                    (λ a.
                      Spelt-if (c1 == b'=')
                        (λ b. two ETk.multiplication_assignment_ b'*' b'=' refl a b)
                        (λ _. one ETk.multiplication_ b'*' refl a))
                    (λ _.
                      Spelt-if (c0 == b'/')
                        (λ a.
                          Spelt-if (c1 == b'=')
                            (λ b. two ETk.division_assignment_ b'/' b'=' refl a b)
                            (λ _. one ETk.division_ b'/' refl a))
                        (λ _.
                          Spelt-if (c0 == b'%')
                            (λ a.
                              Spelt-if (c1 == b'=')
                                (λ b. two ETk.remainder_assignment_ b'%' b'=' refl a b)
                                (λ _. one ETk.remainder_ b'%' refl a))
                            (λ _.
                              Spelt-if (c0 == b'&' || c0 == b'|' || c0 == b'^') (λ _. bitwise-Spelt)
                                (λ _.
                                  Spelt-if (c0 == b'<') (λ a. less-Spelt a)
                                    (λ _.
                                      Spelt-if (c0 == b'>') (λ a. greater-Spelt a)
                                        (λ _.
                                          Spelt-if (c0 == b'!')
                                            (λ a.
                                              Spelt-if (c1 == b'=')
                                                (λ b. two ETk.not_equal_ b'!' b'=' refl a b)
                                                (λ _. one ETk.negation_ b'!' refl a))
                                            (λ _.
                                              Spelt-if (c0 == b'~')
                                                (λ a. one ETk.bitwise_not_ b'~' refl a)
                                                (λ _.
                                                  Spelt-if (c0 == b'@')
                                                    (λ a. one ETk.commerical_at_ b'@' refl a)
                                                    (λ _. no_operator))))))))))))

Spelt-some :
    {c0 c1 c2 n : ℕ} {k : ETk} (o : Option (ETk × ℕ))
    → Spelt c0 c1 c2 o
    → o ≡ some (k, n)
    → take n (c0 ∷ c1 ∷ c2 ∷ []) ≡ spelling k
Spelt-some none no_operator e = cc
Spelt-some (some (k', n')) (spelt h) e = cc

-- The bytes that an operator is recognised at are its spelling.
pub operator_at-spelling :
    (c0 c1 c2 : ℕ) (k : ETk) (n : ℕ)
    → operator_at c0 c1 c2 ≡ some (k, n)
    → take n (c0 ∷ c1 ∷ c2 ∷ []) ≡ spelling k
operator_at-spelling c0 c1 c2 k n e = Spelt-some (operator_at c0 c1 c2) (operator-Spelt c0 c1 c2) e
