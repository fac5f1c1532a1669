-- ===== src/Tokenizer/Bounds/Identifiers.antt =====
-- `lex_alnumus` and `lex_directive` are sound.
use cand_lang_proto.Base.{
  ℕ, ◌+◌, ◌<◌, Bool, true, not, ◌&&◌, List, [], ◌∷◌, ◌≡◌, ◌≢◌, refl, arith, length, ◌==◌,
  Bool-cases, Option, none, some, inl, inr,
}
use cand_lang_proto.Chars.{is_alpha, is_alus, is_alnumus}
use cand_lang_proto.Syntax.TokenKind.{ETk, tk_code, tk_eq}
use cand_lang_proto.Tokenizer.Cursor.{
  find_forward, Text, LexResult, get, advance_while, make_result, make_invalid_result,
}
use cand_lang_proto.Tokenizer.Lexers.{lex_alnumus, find_word, lex_directive}
use cand_lang_proto.Tokenizer.Words.{keyword_chain, directive_chain}
use cand_lang_proto.Tokenizer.Scan.{advance_while-le-length, le-advance_while}
use cand_lang_proto.Tokenizer.Sound.{Sound, sound, Sound-if, Sound-result, Sound-none, Sound-loop}

-- A letter may stand in an identifier.
pub alpha-alnumus : (c : ℕ) → is_alpha c ≡ true → is_alnumus c ≡ true
unfolding is_alnumus
alpha-alnumus c h = rw h

pub alpha-alus : (c : ℕ) → is_alpha c ≡ true → is_alus c ≡ true
unfolding is_alus
alpha-alus c h = rw h

pub lex_alnumus-Sound : (src : Text) (it : ℕ) → it < length src → Sound src it (lex_alnumus src it)
unfolding lex_alnumus
lex_alnumus-Sound src it h =
    Sound-if src it (is_alpha (get src it))
      (λ go.
        Sound-loop is_alnumus (unfold is_alnumus in refl) src it ETk.alnumus_ (cc) h
          (alpha-alnumus (get src it) go))
      (λ _. Sound-none src it)

-- No word of a chain stands for `none_`.
none_free : List (List ℕ × ETk) → Bool
none_free [] = true
none_free ((word, kind) ∷ words) = not (tk_eq kind ETk.none_) && none_free words

none_free-cons :
    (word : List ℕ) (k : ETk) (words : List (List ℕ × ETk))
    → none_free ((word, k) ∷ words) ≡ true
    → (k ≢ ETk.none_) × (none_free words ≡ true)
unfolding none_free tk_eq tk_code
none_free-cons word ETk.none_ words h = cc
none_free-cons word _ words h = (cc, h)

find_word-ne :
    (src : Text) (it : ℕ) (words : List (List ℕ × ETk)) (kind : ETk)
    → none_free words ≡ true
    → find_word src it words ≡ some kind
    → kind ≢ ETk.none_
unfolding find_word
find_word-ne src it [] kind h e = cc
find_word-ne src it ((word, k) ∷ words) kind h e = elim (Bool-cases (find_forward src it word)) [
  | inl here ↦ λ z. (none_free-cons word k words h).0 (cc (z, rw here at e))
  | inr later ↦ find_word-ne src it words kind (none_free-cons word k words h).1 (rw later at e)
]

keyword_chain-none_free : none_free keyword_chain ≡ true
unfolding keyword_chain none_free tk_eq
keyword_chain-none_free = refl

directive_chain-none_free : none_free directive_chain ≡ true
unfolding directive_chain none_free tk_eq
directive_chain-none_free = refl

-- The word from `it`, after the chain of tests on its start.
worded :
    (src : Text) (it : ℕ) (found : Option ETk) (other : Option LexResult)
    → ((kind : ETk) → found ≡ some kind → kind ≢ ETk.none_)
    → it < length src
    → Sound src it other
    → Sound src it (elim found [
      | some kind ↦ some (make_result src kind it (advance_while is_alus (length src) src (it + 1)))
      | none ↦ other
    ])
worded src it none other ne h o = o
worded src it (some kind) other ne h o =
    Sound-result src it kind _ (ne kind refl)
      (omega (arith, le-advance_while is_alus src (length src) (it + 1)))
      (advance_while-le-length is_alus (unfold is_alus in refl) src (length src) (it + 1)
        (omega arith))

invalid-Sound :
    (src : Text) (it : ℕ) (error : List ℕ) → Sound src it (some (make_invalid_result it error))
unfolding make_invalid_result
invalid-Sound src it error = sound _ tt

pub lex_directive-Sound :
    (src : Text) (it : ℕ) → it < length src → Sound src it (lex_directive src it)
unfolding lex_directive
lex_directive-Sound src it h =
    Sound-if src it (get src it == b'#')
      (λ _.
        worded src it (find_word src it directive_chain) _
          (λ kind e. find_word-ne src it directive_chain kind directive_chain-none_free e) h
          (invalid-Sound src it _))
      (λ _.
        Sound-if src it (is_alpha (get src it))
          (λ _.
            worded src it (find_word src it keyword_chain) _
              (λ kind e. find_word-ne src it keyword_chain kind keyword_chain-none_free e) h
              (Sound-none src it))
          (λ _. Sound-none src it))
