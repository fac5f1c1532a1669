-- ===== src/Expression/Operands.antt =====
-- The rounds of `parenthesize_expression` in front of an operand, and at the end.
use cand_lang_proto.Base.{ℕ, ◌<◌, true, false, List, ◌∷◌, length, ◌≡◌, refl, ap, arith}
use cand_lang_proto.Syntax.TokenKind.{ETk}
use cand_lang_proto.Syntax.Token.{Tk, type_is}
use cand_lang_proto.Scopes.Find.{paren, find_paren, find_brace}
use cand_lang_proto.Scopes.FindSound.{find_scope_sound}
use cand_lang_proto.Scopes.Balanced.{Group}
use cand_lang_proto.Expression.Outcome.{Ending, ok, throws, Ensures, bind-Ensures, if-Ensures}
use cand_lang_proto.Expression.Parse.{
  Role, operand, prefix, postfix, binary, no_role, role, first_token,
}
use cand_lang_proto.Expression.Parenthesizer.{
  Parenthesizer, ExpectedHead, operative_, operator_, choose_operator, choose_operative, skip,
  action_skip, expect, store_or_check, no_operand,
}
use cand_lang_proto.Expression.OperatorLevels.{acts}
use cand_lang_proto.Expression.Strip.{strip}
use cand_lang_proto.Expression.Actions.{Keeps}
use cand_lang_proto.Expression.Skipped.{Skipped, action_skip-Skipped}
use cand_lang_proto.Expression.Rounds.{Progress, turns, store_Round, choose_operator-Progress}

-- The inside of parentheses is parenthesized up to parentheses, if it is shorter than `bound`.
abbrev pub Parenthesizes : ℕ → (List Tk → Ending (List Tk)) → Type 0
Parenthesizes bound parenthesize =
    (ts : List Tk) → length ts < bound → Ensures (λ us. strip us ≡ strip ts) (parenthesize ts)

module _ (parenthesize : List Tk → Ending (List Tk)) (goal : List Tk) (p : Parenthesizer)
    (going : p.finished ≡ false) (t : Tk) (ts : List Tk) (head_is : p.head ≡ t ∷ ts)
    (k : Keeps goal p.head p.lists)
    (parenthesizes : Parenthesizes (length p.head) parenthesize) where
  some_left : 0 < length p.head
  some_left = rw head_is (omega arith)

  module _ (expected : p.expected_head ≡ operative_) where
    skip_Round :
        (n : ℕ)
        → (type_is ETk.open_paren_ (first_token p.head) ≡ true → Group paren p.head n)
        → Ensures (Progress goal p) (skip parenthesize n p)
    skip_Round n g =
        bind-Ensures (Skipped goal p) (Progress goal p) (action_skip parenthesize n p)
          (λ p'. ok (expect operator_ p'))
          (action_skip-Skipped parenthesize goal n p k parenthesizes t ts head_is g)
          (λ p' s. record {
            keeps = s.keeps;
            fewer = s.fewer;
            falls =
                turns p.finished p'.finished p.expected_head (length p.head) (length p'.head) going
                  s.finished_is expected s.fewer;
            ended = λ f. cc (s.finished_is, going, f);
          })

    operand_by_role :
        (r : Role)
        → role (first_token p.head) ≡ r
        → type_is ETk.open_paren_ (first_token p.head) ≡ false
        → Ensures (Progress goal p) (elim r [
          | prefix ↦ store_or_check 1 operative_ p
          | binary ↦ throws no_operand
          | postfix ↦ throws no_operand
          | _ ↦ skip parenthesize 1 p
        ])
    operand_by_role operand e h = skip_Round 1 (λ opening. cc)
    operand_by_role no_role e h = skip_Round 1 (λ opening. cc)
    operand_by_role prefix e h =
        store_Round goal p going some_left k 1 operative_ (omega arith) (ap acts e)
    operand_by_role postfix e h = tt
    operand_by_role binary e h = tt

    choose_operative-Progress : Ensures (Progress goal p) (choose_operative parenthesize p)
    unfolding choose_operative
    choose_operative-Progress =
        let u = first_token p.head in
        if-Ensures (Progress goal p) (type_is ETk.open_paren_ u) _ _
          (λ opening.
            if-Ensures (Progress goal p) (find_paren p.head).valid _ _
              (λ valid.
                skip_Round (find_paren p.head).end (λ _. find_scope_sound paren p.head valid))
              (λ invalid. tt))
          (λ no_paren.
            if-Ensures (Progress goal p) (type_is ETk.open_brace_ u) _ _
              (λ opening.
                if-Ensures (Progress goal p) (find_brace p.head).valid _ _
                  (λ valid. skip_Round (find_brace p.head).end (λ same. cc)) (λ invalid. tt))
              (λ no_brace. operand_by_role (role u) refl no_paren))

  pub by_expected :
      (e : ExpectedHead)
      → p.expected_head ≡ e
      → Ensures
          (Progress goal p)
          (elim e [ operative_ ↦ choose_operative parenthesize p | operator_ ↦ choose_operator p ])
  by_expected operative_ e = choose_operative-Progress e
  by_expected operator_ e = choose_operator-Progress goal p going some_left k
