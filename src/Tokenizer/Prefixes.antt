-- ===== src/Tokenizer/Prefixes.antt =====
-- The keyword tests of `lex_directive` in Candi_Compiler/tokenizer.hpp compare a prefix of the word.
use cand_lang_proto.Base.{
  Bool, not, ◌&&◌, ◌==◌, ◌++◌, refl, ℕ, zero, suc, ◌+◌, ◌-◌, true, false, List, [], ◌∷◌, ◌≡◌, ◌≢◌,
  ap, ◌∙◌, arith, length, take, drop, get_or, Bool-cases, inl, inr, some,
}
use cand_lang_proto.Chars.{is_alpha, is_alus}
use cand_lang_proto.Syntax.Keywords
use cand_lang_proto.Syntax.TokenKind.{ETk}
use cand_lang_proto.Tokenizer.Cursor.{Text, get, find_forward, advance_while, make_result}
use cand_lang_proto.Tokenizer.Lexers.{find_word, lex_directive}
use cand_lang_proto.Tokenizer.Words.{keyword_chain}
use cand_lang_proto.Tokenizer.Scan.{find_forward-slice}

get_or-drop :
    (src : Text) (i n x : ℕ) (w : List ℕ) → take (suc n) (drop i src) ≡ x ∷ w → get_or src i 0 ≡ x
get_or-drop [] zero n x w e = cc
get_or-drop [] (suc i) n x w e = cc
get_or-drop (c ∷ src) zero n x w e = cc
get_or-drop (c ∷ src) (suc i) n x w e = get_or-drop src i n x w e

-- The first byte of a word that is found.
find_forward-get :
    (src : Text) (beg x : ℕ) (w : List ℕ) → find_forward src beg (x ∷ w) ≡ true → get src beg ≡ x
unfolding get
find_forward-get src beg x w h =
    let size : beg + suc (length w) - beg ≡ suc (length w) = omega arith in
    get_or-drop src beg (length w) x w (rw size at ((find_forward-slice src beg (x ∷ w) h).1))

skips :
    (src : Text) (beg x : ℕ) (w : List ℕ) → get src beg ≢ x → find_forward src beg (x ∷ w) ≡ false
skips src beg x w h = elim (Bool-cases (find_forward src beg (x ∷ w))) [
  | inl found ↦ absurd (h (find_forward-get src beg x w found))
  | inr missed ↦ missed
]

-- None of the words starts with `c`.
none_starts : ℕ → List (List ℕ × ETk) → Bool
none_starts c [] = true
none_starts c (([], k) ∷ words) = false
none_starts c ((x ∷ w, k) ∷ words) = not (x == c) && none_starts c words

-- The search passes over such words.
find_word-append :
    (src : Text) (beg c : ℕ) (front rest : List (List ℕ × ETk))
    → get src beg ≡ c
    → none_starts c front ≡ true
    → find_word src beg (front ++ rest) ≡ find_word src beg rest
unfolding find_word none_starts
find_word-append src beg c [] rest e h = refl
find_word-append src beg c (([], k) ∷ words) rest e h = cc
find_word-append src beg c ((x ∷ w, k) ∷ words) rest e h =
    let unlike : get src beg ≢ x = λ same. ground (arith, e, same, h) in
    let later : none_starts c words ≡ true = ground (arith, h) in
    rw (skips src beg x w unlike) (find_word-append src beg c words rest e later)

find_for :
    (src : Text) (beg : ℕ)
    → find_forward src beg Keywords.for_ ≡ true
    → find_word src beg keyword_chain ≡ some ETk.for_
unfolding keyword_chain find_word none_starts
find_for src beg h =
    find_word-append src beg b'f' (take 16 keyword_chain) (drop 16 keyword_chain)
      (find_forward-get src beg _ _ h) refl
    ∙ rw h refl

-- Every word of letters and underscores that starts with `for` becomes the token of the keyword
-- `for`, with the whole word as its literal.
pub for_prefix :
    (src : Text) (beg : ℕ)
    → find_forward src beg Keywords.for_ ≡ true
    → lex_directive src beg
      ≡ some (make_result src ETk.for_ beg (advance_while is_alus (length src) src (beg + 1)))
unfolding lex_directive
for_prefix src beg h =
    let first : get src beg ≡ b'f' = find_forward-get src beg _ _ h in
    let no_hash : (get src beg == b'#') ≡ false = ground arith in
    let letter : is_alpha (get src beg) ≡ true = ap is_alpha first ∙ unfold is_alpha in refl in
    rw (no_hash, letter, find_for src beg h) refl
