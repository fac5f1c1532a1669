-- ===== src/Tokenizer/Bounds/Numbers.antt =====
-- `lex_number` is sound.
use cand_lang_proto.Base.{ℕ, ◌+◌, ◌≤◌, ◌<◌, true, ◌&&◌, ◌≡◌, ◌≢◌, refl, arith, length, ◌==◌, some}
use cand_lang_proto.Chars.{is_numeric}
use cand_lang_proto.Syntax.TokenKind.{ETk}
use cand_lang_proto.Syntax.Keywords.{ellipsis}
use cand_lang_proto.Tokenizer.Cursor.{Text, get, peek, advance_while, make_result}
use cand_lang_proto.Tokenizer.Lexers.{number_suffix, lex_number}
use cand_lang_proto.Tokenizer.Scan.{
  get-lt, peek_lem, find_forward-slice, advance_while-le-length, le-advance_while, lt-advance_while,
}
use cand_lang_proto.Tokenizer.Sound.{Sound, Sound-if, Sound-result, Sound-none}

number_suffix_bounds :
    (src : Text) (it : ℕ)
    → it ≤ length src
    → (it ≤ (number_suffix src it).1)
      × ((number_suffix src it).1 ≤ length src)
      × ((number_suffix src it).0 ≢ ETk.none_)
unfolding number_suffix
number_suffix_bounds src it h = ground (
  arith,
  get-lt src it,
  find_forward-slice src it ellipsis,
  le-advance_while is_numeric src (length src) (it + 1),
  advance_while-le-length is_numeric (unfold is_numeric in refl) src (length src) (it + 1),
)

-- A number that is no bit literal.
number :
    (src : Text) (it : ℕ)
    → it < length src
    → is_numeric (get src it) ≡ true
    → Sound src it (
        some (
          let (kind, end) = number_suffix src (advance_while is_numeric (length src) src it) in
          make_result src kind it end))
number src it h digit =
    let digits = advance_while is_numeric (length src) src it in
    let inside =
      advance_while-le-length is_numeric (unfold is_numeric in refl) src (length src) it
        (omega arith) in
    let longer = lt-advance_while is_numeric src (length src) it digit (omega arith) in
    let bounds = number_suffix_bounds src digits inside in
    Sound-result src it _ _ bounds.2 (omega (arith, longer, bounds.0)) bounds.1

pub lex_number-Sound : (src : Text) (it : ℕ) → it < length src → Sound src it (lex_number src it)
unfolding lex_number
lex_number-Sound src it h =
    Sound-if src it (is_numeric (get src it))
      (λ digit.
        Sound-if src it (get src it == b'1' && peek src it 1 == b'b')
          (λ bit. Sound-result src it ETk.bit_literal_ (it + 2) (cc) (omega arith) (two b'1' bit))
          (λ _.
            Sound-if src it (get src it == b'0' && peek src it 1 == b'b')
              (λ bit.
                Sound-result src it ETk.bit_literal_ (it + 2) (cc) (omega arith) (two b'0' bit))
              (λ _. number src it h digit)))
      (λ _. Sound-none src it)
  where
    two : (c : ℕ) → (get src it == c && peek src it 1 == b'b') ≡ true → it + 2 ≤ length src
    two c e = ground (arith, peek_lem src it 1, get-lt src (it + 1))
