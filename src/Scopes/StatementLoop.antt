-- ===== src/Scopes/StatementLoop.antt =====
-- The loop of `find_statement` of Candi_Compiler/token_iterator.hpp over tokens whose scopes are
-- balanced.
use cand_lang_proto.Base.{
  ℕ, ◌+◌, false, List, [], ◌∷◌, ◌++◌, ◌≡◌, ◌≢◌, refl, ap, ◌∙◌, length, length-append, append_assoc,
  arith, Bool-cases, inl, inr,
}
use cand_lang_proto.Syntax.TokenKind.{ETk}
use cand_lang_proto.Syntax.Equality.{tk_eq_iff}
use cand_lang_proto.Syntax.Token.{Tk, type_is}
use cand_lang_proto.Scopes.Find.{
  Shape, paren, list, frame, opens, closes, other, kind_turn, turn, Loop, start, push,
}
use cand_lang_proto.Scopes.FindComplete.{pop-push}
use cand_lang_proto.Scopes.Balanced.{Balanced, empty, plain, group}
use cand_lang_proto.Scopes.Statement.{
  gives, outside, next_round, stop_round, end_round, statement_round, conclude_statement,
  scan_statement,
}

-- The tokens between the open and the close token of a statement: neither of the two stands
-- outside of the scopes, which are balanced.
pub data Body (first_kind last_kind : ETk) : List Tk → Type 0 where
  no_tokens : Body first_kind last_kind []
  token :
      {t : Tk} {ts : List Tk}
      → turn t ≡ other
      → t.kind ≢ first_kind
      → t.kind ≢ last_kind
      → Body first_kind last_kind ts
      → Body first_kind last_kind (t ∷ ts)
  scope :
      (s : Shape) (o c : Tk) (inner rest : List Tk)
      → turn o ≡ opens s
      → turn c ≡ closes s
      → Balanced inner
      → Body first_kind last_kind rest
      → Body first_kind last_kind (o ∷ inner ++ c ∷ rest)

pub closing_differs :
    (t : Tk) (s : Shape) (k : ETk) → turn t ≡ closes s → kind_turn k ≡ other → t.kind ≢ k
closing_differs t s k e f same = cc (ap kind_turn same)

pub outside-push : (s : Shape) (l : Loop) → outside (push s l) ≡ false
unfolding outside
outside-push paren l = ground arith
outside-push frame l = ground arith
outside-push list l = ground arith

module _ (first_kind last_kind : ETk) where
  end_round_inside :
      (t : Tk) (l : Loop) → outside l ≡ false → end_round first_kind last_kind t l ≡ next_round l
  unfolding end_round
  end_round_inside t l e = rw e refl

  close_inside :
      (t : Tk) (s : Shape) (l : Loop)
      → turn t ≡ closes s
      → statement_round first_kind last_kind t (push s l) (turn t)
        ≡ end_round first_kind last_kind t l
  unfolding statement_round
  close_inside t paren l e =
      rw (e, statement_round) (ap (end_round first_kind last_kind t) (pop-push paren l))
  close_inside t frame l e =
      rw (e, statement_round) (ap (end_round first_kind last_kind t) (pop-push frame l))
  close_inside t list l e =
      rw (e, statement_round) (ap (end_round first_kind last_kind t) (pop-push list l))

  open_round :
      (t : Tk) (s : Shape) (l : Loop)
      → turn t ≡ opens s
      → statement_round first_kind last_kind t l (turn t) ≡ next_round (push s l)
  unfolding statement_round
  open_round t s l e = rw (e, statement_round) (end_round_inside t (push s l) (outside-push s l))

  pub other_round :
      (t : Tk) (l : Loop)
      → turn t ≡ other
      → statement_round first_kind last_kind t l (turn t) ≡ end_round first_kind last_kind t l
  unfolding statement_round
  other_round t l e = rw (e, statement_round) refl

  scan_next :
      (t : Tk) (ts : List Tk) (i : ℕ) (l l' : Loop)
      → statement_round first_kind last_kind t l (turn t) ≡ next_round l'
      → scan_statement first_kind last_kind (t ∷ ts) i l
        ≡ scan_statement first_kind last_kind ts (i + 1) l'
  unfolding scan_statement
  scan_next t ts i l l' e = rw (e, scan_statement) refl

  pub scan_stop :
      (t : Tk) (ts : List Tk) (i : ℕ) (l l' : Loop)
      → statement_round first_kind last_kind t l (turn t) ≡ stop_round l'
      → scan_statement first_kind last_kind (t ∷ ts) i l ≡ gives (conclude_statement i l')
  unfolding scan_statement
  scan_stop t ts i l l' e = rw (e, scan_statement) refl

  -- Inside of a scope the loop goes over balanced tokens, whatever their kinds.
  scan_inside :
      {inner : List Tk}
      → Balanced inner
      → (rest : List Tk) (i : ℕ) (l : Loop) → outside l ≡ false
      → scan_statement first_kind last_kind (inner ++ rest) i l
        ≡ scan_statement first_kind last_kind rest (i + length inner) l
  scan_inside empty rest i l d =
      ap (λ n. scan_statement first_kind last_kind rest n l) (omega arith)
  scan_inside (plain {t} {ts} e b) rest i l d =
      scan_next t (ts ++ rest) i l l (other_round t l e ∙ end_round_inside t l d)
      ∙ scan_inside b rest (i + 1) l d
      ∙ ap (λ n. scan_statement first_kind last_kind rest n l) (omega arith)
  scan_inside (group s o c inner more e f b b') rest i l d =
      ap (λ ts. scan_statement first_kind last_kind (o ∷ ts) i l)
        (append_assoc inner (c ∷ more) rest)
      ∙ scan_next o (inner ++ (c ∷ (more ++ rest))) i l (push s l) (open_round o s l e)
      ∙ scan_inside b (c ∷ (more ++ rest)) (i + 1) (push s l) (outside-push s l)
      ∙ scan_next c (more ++ rest) (i + 1 + length inner) (push s l) l
          (close_inside c s l f ∙ end_round_inside c l d)
      ∙ scan_inside b' rest (i + 1 + length inner + 1) l d
      ∙ ap (λ n. scan_statement first_kind last_kind rest n l)
          (omega (arith, length-append inner (c ∷ more)))

  pub differs : (t : Tk) (k : ETk) → t.kind ≢ k → type_is k t ≡ false
  differs t k h = elim (Bool-cases (type_is k t)) [
    | inl same ↦ absurd (h ((tk_eq_iff t.kind k).0 same))
    | inr unlike ↦ unlike
  ]

  -- Outside of scopes a token of another kind goes on.
  end_round_other :
      (t : Tk)
      → t.kind ≢ first_kind
      → t.kind ≢ last_kind
      → end_round first_kind last_kind t start ≡ next_round start
  unfolding end_round outside
  end_round_other t a b = rw (differs t last_kind b, differs t first_kind a) refl

  module _ (open_other : kind_turn first_kind ≡ other)
      (close_other : kind_turn last_kind ≡ other) where
    pub scan_body :
        {body : List Tk}
        → Body first_kind last_kind body
        → (rest : List Tk) (i : ℕ)
        → scan_statement first_kind last_kind (body ++ rest) i start
          ≡ scan_statement first_kind last_kind rest (i + length body) start
    scan_body no_tokens rest i =
        ap (λ n. scan_statement first_kind last_kind rest n start) (omega arith)
    scan_body (token {t} {ts} e a b body) rest i =
        scan_next t (ts ++ rest) i start start (other_round t start e ∙ end_round_other t a b)
        ∙ scan_body body rest (i + 1)
        ∙ ap (λ n. scan_statement first_kind last_kind rest n start) (omega arith)
    scan_body (scope s o c inner more e f b body) rest i =
        ap (λ ts. scan_statement first_kind last_kind (o ∷ ts) i start)
          (append_assoc inner (c ∷ more) rest)
        ∙ scan_next o (inner ++ (c ∷ (more ++ rest))) i start (push s start)
            (open_round o s start e)
        ∙ scan_inside b (c ∷ (more ++ rest)) (i + 1) (push s start) (outside-push s start)
        ∙ scan_next c (more ++ rest) (i + 1 + length inner) (push s start) start (
            close_inside c s start f
            ∙ end_round_other c (closing_differs c s first_kind f open_other)
                (closing_differs c s last_kind f close_other))
        ∙ scan_body body rest (i + 1 + length inner + 1)
        ∙ ap (λ n. scan_statement first_kind last_kind rest n start)
            (omega (arith, length-append inner (c ∷ more)))
