-- ===== src/Tokenizer/Sound.antt =====
-- What a lexer of Candi_Compiler/tokenizer.hpp may give when it is started inside the text: a
-- token that is not empty, lies inside the text and holds the bytes that it spans; or none.
use cand_lang_proto.Base.{
  ℕ, ◌≤◌, ◌<◌, Bool, true, false, ◌≡◌, ◌≢◌, refl, arith, length, slice, ◌==◌, if◌then◌else◌, Option,
  none, some, ◌⊎◌, inl, inr,
}
use cand_lang_proto.Syntax.Token.{Tk}
use cand_lang_proto.Syntax.TokenKind.{ETk}
use cand_lang_proto.Tokenizer.Cursor.{
  Text, LexResult, get, advance_while, make_result, make_none_result,
}
use cand_lang_proto.Tokenizer.Scan.{get-lt, advance_while-le-length, lt-advance_while}

-- A token from `it` to `end`.
pub record Spans (src : Text) (it : ℕ) (end : ℕ) (t : Tk) : Type 0 where
  pub nonempty : it < end
  pub inside : end ≤ length src
  pub literal_is : t.literal ≡ slice src it end
  pub kind_ne : t.kind ≢ ETk.none_

abbrev pub SoundToken : Text → ℕ → ℕ → Option Tk → Type 0
SoundToken src it end none = Unit {0}
SoundToken src it end (some t) = (t.kind ≡ ETk.none_) ⊎ Spans src it end t

-- What a lexer started at `it` may give: nothing, if it does not return.
pub data Sound (src : Text) (it : ℕ) : Option LexResult → Type 0 where
  stuck : Sound src it none
  sound : (r : LexResult) → SoundToken src it r.always r.expected → Sound src it (some r)

module _ (src : Text) (it : ℕ) where
  pub Sound-if :
      (b : Bool) {x y : Option LexResult}
      → (b ≡ true → Sound src it x)
      → (b ≡ false → Sound src it y)
      → Sound src it (if b then x else y)
  Sound-if true f g = f refl
  Sound-if false f g = g refl

  pub Sound-result :
      (kind : ETk) (end : ℕ)
      → kind ≢ ETk.none_
      → it < end
      → end ≤ length src
      → Sound src it (some (make_result src kind it end))
  unfolding make_result
  Sound-result kind end k h l =
      sound _ (inr (record { nonempty = h; inside = l; literal_is = refl; kind_ne = k }))

  pub Sound-none : Sound src it (some (make_none_result src it))
  unfolding make_none_result
  Sound-none = sound _ (inl refl)

  -- A test of the byte at `it` against a character that is not EOF_CHAR.
  pub byte_inside : (c : ℕ) → (get src it == c) ≡ true → c ≢ 0 → it < length src
  byte_inside c h k = get-lt src it (ground arith)

-- A loop from `it` over bytes that are not EOF_CHAR, whose first test passes.
module _ (p : ℕ → Bool) (p_eof : p 0 ≡ false) (src : Text) (it : ℕ) (kind : ETk) where
  pub Sound-loop :
      kind ≢ ETk.none_
      → it < length src
      → p (get src it) ≡ true
      → Sound src it (some (make_result src kind it (advance_while p (length src) src it)))
  Sound-loop k h go =
      Sound-result src it kind _ k (lt-advance_while p src (length src) it go (omega arith))
        (advance_while-le-length p p_eof src (length src) it (omega arith))
