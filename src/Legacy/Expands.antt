-- ===== src/Legacy/Expands.antt =====
-- What a program with macros expands to, apart from the loop of the expander.
use cand_lang_proto.Base.{
  ℕ, zero, suc, ◌<◌, true, false, List, [], ◌∷◌, ◌++◌, length, length-append, Option, none, some,
  append-nil, append_assoc, ◌≡◌, refl, ap, ◌∙◌, arith,
}
use cand_lang_proto.Legacy.TokenType.{EType}
use cand_lang_proto.Legacy.Token.{CaocoTk, caoco_type_is}
use cand_lang_proto.Legacy.Macros.{
  Macro, Expansion, find_macro, macro_body, define_macro, invoke_macro, macro_round, expand_loop,
  macro_expand, goes_on, add_to_body,
}

-- No token of a macro's body ends it.
abbrev pub IsBody : List CaocoTk → Type 0
IsBody [] = Unit
IsBody (t ∷ ts) = (caoco_type_is EType.endmacro_ t ≡ false) × IsBody ts

-- A token that the expander copies.
pub record IsCopied (t : CaocoTk) : Type 0 where
  pub no_macro : caoco_type_is EType.macro_ t ≡ false
  pub no_name : caoco_type_is EType.alnumus_ t ≡ false

-- The code with the macros that are defined before it, and its expansion: definitions leave nothing,
-- a macro's name leaves its body, and every other token is copied. An identifier that names no
-- macro has no expansion.
pub data Expands : List Macro → List CaocoTk → List CaocoTk → Type 0 where
  nothing : (ms : List Macro) → Expands ms [] []
  copies :
      (ms : List Macro) (t : CaocoTk) (code output : List CaocoTk)
      → IsCopied t
      → Expands ms code output
      → Expands ms (t ∷ code) (t ∷ output)
  invokes :
      (ms : List Macro) (t : CaocoTk) (body code output : List CaocoTk)
      → caoco_type_is EType.macro_ t ≡ false
      → caoco_type_is EType.alnumus_ t ≡ true
      → find_macro t.literal ms ≡ some body
      → Expands ms code output
      → Expands ms (t ∷ code) (body ++ output)
  defines :
      (ms : List Macro) (m n e : CaocoTk) (body code output : List CaocoTk)
      → caoco_type_is EType.macro_ m ≡ true
      → caoco_type_is EType.alnumus_ n ≡ true
      → find_macro n.literal ms ≡ none
      → IsBody body
      → caoco_type_is EType.endmacro_ e ≡ true
      → Expands (record { name = n.literal; body = body } ∷ ms) code output
      → Expands ms (m ∷ n ∷ (body ++ e ∷ code)) output

macro_body_found :
    (e : CaocoTk) (body code : List CaocoTk)
    → IsBody body
    → caoco_type_is EType.endmacro_ e ≡ true
    → macro_body (body ++ e ∷ code) ≡ some (body, code)
unfolding macro_body
macro_body_found e [] code b h = rw (h, macro_body) refl
macro_body_found e (t ∷ ts) code b h =
    rw (b.0, macro_body) (ap (add_to_body t) (macro_body_found e ts code b.1 h))

abbrev pub done : List CaocoTk → Option Expansion
done output = some (record { output = output; success = true; message = [] })

module _ (source_file : List ℕ) where
  copy_round :
      (t : CaocoTk) (code : List CaocoTk) (ms : List Macro) (written : List CaocoTk)
      → IsCopied t
      → macro_round source_file t code ms written ≡ goes_on code ms (written ++ t ∷ [])
  unfolding macro_round
  copy_round t code ms written c = rw (c.no_macro, c.no_name, macro_round) refl

  invoke_round :
      (t : CaocoTk) (body code : List CaocoTk) (ms : List Macro) (written : List CaocoTk)
      → caoco_type_is EType.macro_ t ≡ false
      → caoco_type_is EType.alnumus_ t ≡ true
      → find_macro t.literal ms ≡ some body
      → macro_round source_file t code ms written ≡ goes_on code ms (written ++ body)
  unfolding macro_round invoke_macro
  invoke_round t body code ms written m n f = rw (m, n, macro_round) (rw (f, invoke_macro) refl)

  define_round :
      (m n e : CaocoTk) (body code : List CaocoTk) (ms : List Macro) (written : List CaocoTk)
      → caoco_type_is EType.macro_ m ≡ true
      → caoco_type_is EType.alnumus_ n ≡ true
      → find_macro n.literal ms ≡ none
      → IsBody body
      → caoco_type_is EType.endmacro_ e ≡ true
      → macro_round source_file m (n ∷ (body ++ e ∷ code)) ms written
        ≡ goes_on code (record { name = n.literal; body = body } ∷ ms) written
  unfolding macro_round define_macro
  define_round m n e body code ms written h k f b l =
      rw (h, macro_round) (rw (k, f, define_macro) (rw (macro_body_found e body code b l) refl))

  expand_loop-Expands :
      (fuel : ℕ) (ms : List Macro) (code output written : List CaocoTk)
      → Expands ms code output
      → length code < fuel
      → expand_loop source_file fuel code ms written ≡ done (written ++ output)
  unfolding expand_loop
  expand_loop-Expands zero ms code output written x h = absurd (omega arith)
  expand_loop-Expands (suc fuel) _ _ _ written (nothing ms) h = rw (append-nil written) refl
  expand_loop-Expands (suc fuel) _ _ _ written (copies ms t code output c x) h =
      rw (copy_round t code ms written c, expand_loop)
        (expand_loop-Expands fuel ms code output (written ++ t ∷ []) x (omega arith)
          ∙ ap done (append_assoc written (t ∷ []) output))
  expand_loop-Expands (suc fuel) _ _ _ written (invokes ms t body code output m n f x) h =
      rw (invoke_round t body code ms written m n f, expand_loop)
        (expand_loop-Expands fuel ms code output (written ++ body) x (omega arith)
          ∙ ap done (append_assoc written body output))
  expand_loop-Expands (suc fuel) _ _ _ written (defines ms m n e body code output h' k f b l x) h =
      rw (define_round m n e body code ms written h' k f b l, expand_loop)
        (expand_loop-Expands fuel (record { name = n.literal; body = body } ∷ ms) code output
          written x (omega (arith, length-append body (e ∷ code))))

  -- Code that has an expansion is expanded to it, in as many rounds as it has tokens and one more.
  pub macro_expand-Expands :
      (code output : List CaocoTk)
      → Expands [] code output
      → macro_expand source_file code ≡ done output
  unfolding macro_expand
  macro_expand-Expands code output x =
      expand_loop-Expands (suc (length code)) [] code output [] x (omega arith)

-- Tokens that the expander copies, one after another.
abbrev pub AllCopied : List CaocoTk → Type 0
AllCopied [] = Unit
AllCopied (t ∷ ts) = IsCopied t × AllCopied ts

module _ (source_file : List ℕ) (t : CaocoTk) (rest : List CaocoTk)
    (m : caoco_type_is EType.macro_ t ≡ false) (n : caoco_type_is EType.alnumus_ t ≡ true) where
  name_stays :
      (ms : List Macro) (written : List CaocoTk)
      → find_macro t.literal ms ≡ none
      → macro_round source_file t rest ms written ≡ goes_on (t ∷ rest) ms written
  unfolding macro_round invoke_macro
  name_stays ms written f = rw (m, n, macro_round) (rw (f, invoke_macro) refl)

  loop_at_name :
      (fuel : ℕ) (ms : List Macro) (written : List CaocoTk)
      → find_macro t.literal ms ≡ none
      → expand_loop source_file fuel (t ∷ rest) ms written ≡ none
  unfolding expand_loop
  loop_at_name zero ms written f = refl
  loop_at_name (suc fuel) ms written f =
      rw (name_stays ms written f, expand_loop) (loop_at_name fuel ms written f)

  -- An identifier that names no macro of `ms`, behind tokens that are copied, stops the expander:
  -- with any number of rounds it gives no result, since it does not move past the identifier.
  pub expand_loop_stuck :
      (fuel : ℕ) (before : List CaocoTk) (ms : List Macro) (written : List CaocoTk)
      → AllCopied before
      → find_macro t.literal ms ≡ none
      → expand_loop source_file fuel (before ++ t ∷ rest) ms written ≡ none
  unfolding expand_loop
  expand_loop_stuck zero before ms written c f = refl
  expand_loop_stuck (suc fuel) [] ms written c f = loop_at_name (suc fuel) ms written f
  expand_loop_stuck (suc fuel) (u ∷ us) ms written c f =
      rw (copy_round source_file u (us ++ t ∷ rest) ms written c.0, expand_loop)
        (expand_loop_stuck fuel us ms (written ++ u ∷ []) c.1 f)
