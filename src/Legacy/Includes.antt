-- ===== src/Legacy/Includes.antt =====
-- What a program with includes is preprocessed to, apart from the loop of the preprocessor.
use cand_lang_proto.Base.{
  ℕ, zero, suc, ◌<◌, true, false, List, [], ◌∷◌, ◌++◌, length, append-nil, append_assoc, ◌≡◌, refl,
  sym, ap, ◌∙◌, arith,
}
use cand_lang_proto.Syntax.Token.{literal_eq}
use cand_lang_proto.Legacy.TokenType.{EType}
use cand_lang_proto.Legacy.Token.{CaocoTk, caoco_type_is}
use cand_lang_proto.Legacy.Preprocessor.{
  FileTokens, tokens, Preprocessed, returned, unquoted, is_included, include_file, include_literal,
  include_directive, preprocess_loop, preprocess,
}

-- An include directive: `#include` and a literal, which is a text and not empty.
pub record IsInclude (t : CaocoTk) (l : List ℕ) (q : CaocoTk) : Type 0 where
  pub includes_it : caoco_type_is EType.include_ t ≡ true
  pub is_string : caoco_type_is EType.string_literal_ q ≡ true
  pub first : ℕ
  pub others : List ℕ
  pub literal_is : q.literal ≡ first ∷ others
  pub names : unquoted (first ∷ others) ≡ l

module _ (file : List ℕ → FileTokens) where
  -- The code of the file `source`, with the files that it has included before, and the tokens that
  -- are left: those of an included file in the place of its directive, and nothing for a file that
  -- is included again. The number bounds the depth of includes.
  pub data Includes : ℕ → List ℕ → List (List ℕ) → List CaocoTk → List CaocoTk → Type 0 where
    nothing :
        (d : ℕ) (source : List ℕ) (included : List (List ℕ)) → Includes d source included [] []
    copies :
        (d : ℕ) (source : List ℕ) (included : List (List ℕ)) (t : CaocoTk)
        (code output : List CaocoTk)
        → caoco_type_is EType.include_ t ≡ false
        → Includes d source included code output
        → Includes d source included (t ∷ code) (t ∷ output)
    again :
        (d : ℕ) (source : List ℕ) (included : List (List ℕ)) (name : List ℕ) (t q : CaocoTk)
        (code output : List CaocoTk)
        → IsInclude t name q
        → literal_eq name source ≡ false
        → is_included name included ≡ true
        → Includes d source included code output
        → Includes d source included (t ∷ q ∷ code) output
    enters :
        (d : ℕ) (source : List ℕ) (included : List (List ℕ)) (name : List ℕ) (t q : CaocoTk)
        (inner inner_output code output : List CaocoTk)
        → IsInclude t name q
        → literal_eq name source ≡ false
        → is_included name included ≡ false
        → file name ≡ tokens inner
        → Includes d name [] inner inner_output
        → Includes (suc d) source (name ∷ included) code output
        → Includes (suc d) source included (t ∷ q ∷ code) (inner_output ++ output)

abbrev pub succeeded : List CaocoTk → Preprocessed
succeeded output = returned (record { output = output; success = true; message = [] })

module _ (file : List ℕ → FileTokens) (what : List ℕ) (call : List CaocoTk → List ℕ → Preprocessed)
    (source : List ℕ) where
  module _ (loop : List CaocoTk → List (List ℕ) → List CaocoTk → Preprocessed) (name : List ℕ)
      (t q : CaocoTk) (code : List CaocoTk) (included : List (List ℕ)) (written : List CaocoTk)
      (i : IsInclude t name q) (other : literal_eq name source ≡ false) where
    directive_again :
        is_included name included ≡ true
        → include_directive file what call source loop (q ∷ code) included written
          ≡ loop code included written
    unfolding include_directive include_literal
    directive_again a =
        rw (i.is_string, include_directive)
          (rw (i.literal_is, include_literal) (rw (i.names, other, a) refl))

    directive_enters :
        (inner inner_output : List CaocoTk)
        → is_included name included ≡ false
        → file name ≡ tokens inner
        → call inner name ≡ succeeded inner_output
        → include_directive file what call source loop (q ∷ code) included written
          ≡ loop code (name ∷ included) (written ++ inner_output)
    unfolding include_directive include_literal include_file
    directive_enters inner inner_output a f p =
        rw (i.is_string, include_directive)
          (rw (i.literal_is, include_literal)
            (rw (i.names, other, a) (rw (f, include_file) (rw p refl))))

  loop_directive :
      (fuel : ℕ) (t : CaocoTk) (code : List CaocoTk) (included : List (List ℕ))
      (written : List CaocoTk)
      → caoco_type_is EType.include_ t ≡ true
      → preprocess_loop file what call source (suc fuel) (t ∷ code) included written
        ≡ include_directive file what call source
            (preprocess_loop file what call source fuel)
            code
            included
            written
  unfolding preprocess_loop
  loop_directive fuel t code included written h = rw (h, preprocess_loop) refl

  loop_copy :
      (fuel : ℕ) (t : CaocoTk) (code : List CaocoTk) (included : List (List ℕ))
      (written : List CaocoTk)
      → caoco_type_is EType.include_ t ≡ false
      → preprocess_loop file what call source (suc fuel) (t ∷ code) included written
        ≡ preprocess_loop file what call source fuel code included (written ++ t ∷ [])
  unfolding preprocess_loop
  loop_copy fuel t code included written h = rw (h, preprocess_loop) refl

module _ (file : List ℕ → FileTokens) (what : List ℕ) where
  abbrev call_at : ℕ → List CaocoTk → List ℕ → Preprocessed
  call_at d code name = preprocess file what d code name []

  loop-Includes :
      {d : ℕ} {source : List ℕ} {included : List (List ℕ)} {code output : List CaocoTk}
      → Includes file d source included code output
      → (fuel : ℕ) (written : List CaocoTk) → length code < fuel
      → preprocess_loop file what (call_at d) source fuel code included written
        ≡ succeeded (written ++ output)
  unfolding preprocess_loop preprocess
  loop-Includes x zero written h = absurd (omega arith)
  loop-Includes (nothing d source included) (suc fuel) written h =
      ap succeeded (sym (append-nil written))
  loop-Includes (copies d source included t code output c x) (suc fuel) written h =
      loop_copy file what (call_at d) source fuel t code included written c
      ∙ loop-Includes x fuel (written ++ t ∷ []) (omega arith)
      ∙ ap succeeded (append_assoc written (t ∷ []) output)
  loop-Includes (again d source included name t q code output i o a x) (suc fuel) written h =
      loop_directive file what (call_at d) source fuel t (q ∷ code) included written i.includes_it
      ∙ directive_again file what (call_at d) source
          (preprocess_loop file what (call_at d) source fuel) name t q code included written i o a
      ∙ loop-Includes x fuel written (omega arith)
  loop-Includes (enters d source included name t q inner inner_output code output i o a f y x)
        (suc fuel) written h =
      loop_directive file what (call_at (suc d)) source fuel t (q ∷ code) included written
        i.includes_it
      ∙ directive_enters file what (call_at (suc d)) source
          (preprocess_loop file what (call_at (suc d)) source fuel) name t q code included written i
          o inner inner_output a f (loop-Includes y (suc (length inner)) [] (omega arith))
      ∙ loop-Includes x fuel (written ++ inner_output) (omega arith)
      ∙ ap succeeded (append_assoc written inner_output output)

  -- Code whose includes are `d` deep at most is preprocessed, with fuel for one call more, to what it
  -- is with the included files in place.
  pub preprocess-Includes :
      (d : ℕ) (source : List ℕ) (included : List (List ℕ)) (code output : List CaocoTk)
      → Includes file d source included code output
      → preprocess file what (suc d) code source included ≡ succeeded output
  unfolding preprocess
  preprocess-Includes d source included code output x =
      loop-Includes x (suc (length code)) [] (omega arith)
