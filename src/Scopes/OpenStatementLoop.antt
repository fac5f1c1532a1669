-- ===== src/Scopes/OpenStatementLoop.antt =====
-- The loop of `find_open_statement` of Candi_Compiler/token_iterator.hpp over tokens whose scopes are
-- balanced.
use cand_lang_proto.Base.{
  ℕ, ◌+◌, false, List, ◌∷◌, ◌++◌, ◌≡◌, ◌≢◌, refl, ap, ◌∙◌, length, length-append, append_assoc,
  arith,
}
use cand_lang_proto.Syntax.TokenKind.{ETk}
use cand_lang_proto.Syntax.Token.{Tk}
use cand_lang_proto.Scopes.Find.{
  Shape, paren, list, frame, opens, closes, other, kind_turn, turn, Loop, start, push,
}
use cand_lang_proto.Scopes.FindComplete.{pop-push}
use cand_lang_proto.Scopes.Balanced.{Balanced, empty, plain, group}
use cand_lang_proto.Scopes.Statement.{gives, outside}
use cand_lang_proto.Scopes.StatementLoop.{
  Body, no_tokens, token, scope, differs, outside-push, closing_differs,
}
use cand_lang_proto.Scopes.OpenStatement.{
  next_open, stop_open, end_open_round, open_statement_round, conclude_open, scan_open_statement,
}

module _ (last_kind : ETk) (end : ℕ) where
  end_round_inside :
      (t : Tk) (l : Loop) → outside l ≡ false → end_open_round last_kind t l ≡ next_open l
  unfolding end_open_round
  end_round_inside t l e = rw e refl

  close_inside :
      (t : Tk) (s : Shape) (l : Loop)
      → turn t ≡ closes s
      → open_statement_round last_kind end t (push s l) (turn t) ≡ end_open_round last_kind t l
  unfolding open_statement_round
  close_inside t paren l e =
      rw (e, open_statement_round) (ap (end_open_round last_kind t) (pop-push paren l))
  close_inside t frame l e =
      rw (e, open_statement_round) (ap (end_open_round last_kind t) (pop-push frame l))
  close_inside t list l e =
      rw (e, open_statement_round) (ap (end_open_round last_kind t) (pop-push list l))

  open_round :
      (t : Tk) (s : Shape) (l : Loop)
      → turn t ≡ opens s
      → open_statement_round last_kind end t l (turn t) ≡ next_open (push s l)
  unfolding open_statement_round
  open_round t s l e =
      rw (e, open_statement_round) (end_round_inside t (push s l) (outside-push s l))

  pub other_round :
      (t : Tk) (l : Loop)
      → turn t ≡ other
      → open_statement_round last_kind end t l (turn t) ≡ end_open_round last_kind t l
  unfolding open_statement_round
  other_round t l e = rw (e, open_statement_round) refl

  scan_next :
      (t : Tk) (ts : List Tk) (i : ℕ) (l l' : Loop)
      → open_statement_round last_kind end t l (turn t) ≡ next_open l'
      → scan_open_statement last_kind end (t ∷ ts) i l
        ≡ scan_open_statement last_kind end ts (i + 1) l'
  unfolding scan_open_statement
  scan_next t ts i l l' e = rw (e, scan_open_statement) refl

  pub scan_stop :
      (t : Tk) (ts : List Tk) (i : ℕ) (l l' : Loop)
      → open_statement_round last_kind end t l (turn t) ≡ stop_open l'
      → scan_open_statement last_kind end (t ∷ ts) i l ≡ gives (conclude_open i l')
  unfolding scan_open_statement
  scan_stop t ts i l l' e = rw (e, scan_open_statement) refl

  -- Inside of a scope the loop goes over balanced tokens, whatever their kinds.
  scan_inside :
      {inner : List Tk}
      → Balanced inner
      → (rest : List Tk) (i : ℕ) (l : Loop) → outside l ≡ false
      → scan_open_statement last_kind end (inner ++ rest) i l
        ≡ scan_open_statement last_kind end rest (i + length inner) l
  scan_inside empty rest i l d = ap (λ n. scan_open_statement last_kind end rest n l) (omega arith)
  scan_inside (plain {t} {ts} e b) rest i l d =
      scan_next t (ts ++ rest) i l l (other_round t l e ∙ end_round_inside t l d)
      ∙ scan_inside b rest (i + 1) l d
      ∙ ap (λ n. scan_open_statement last_kind end rest n l) (omega arith)
  scan_inside (group s o c inner more e f b b') rest i l d =
      ap (λ ts. scan_open_statement last_kind end (o ∷ ts) i l) (append_assoc inner (c ∷ more) rest)
      ∙ scan_next o (inner ++ (c ∷ (more ++ rest))) i l (push s l) (open_round o s l e)
      ∙ scan_inside b (c ∷ (more ++ rest)) (i + 1) (push s l) (outside-push s l)
      ∙ scan_next c (more ++ rest) (i + 1 + length inner) (push s l) l
          (close_inside c s l f ∙ end_round_inside c l d)
      ∙ scan_inside b' rest (i + 1 + length inner + 1) l d
      ∙ ap (λ n. scan_open_statement last_kind end rest n l)
          (omega (arith, length-append inner (c ∷ more)))

  -- Outside of scopes a token of another kind goes on.
  end_round_other :
      (t : Tk) → t.kind ≢ last_kind → end_open_round last_kind t start ≡ next_open start
  unfolding end_open_round outside
  end_round_other t b = rw (differs last_kind last_kind t last_kind b) refl

  module _ (close_other : kind_turn last_kind ≡ other) where
    pub scan_body :
        {body : List Tk}
        → Body last_kind last_kind body
        → (rest : List Tk) (i : ℕ)
        → scan_open_statement last_kind end (body ++ rest) i start
          ≡ scan_open_statement last_kind end rest (i + length body) start
    scan_body no_tokens rest i =
        ap (λ n. scan_open_statement last_kind end rest n start) (omega arith)
    scan_body (token {t} {ts} e a b body) rest i =
        scan_next t (ts ++ rest) i start start (other_round t start e ∙ end_round_other t b)
        ∙ scan_body body rest (i + 1)
        ∙ ap (λ n. scan_open_statement last_kind end rest n start) (omega arith)
    scan_body (scope s o c inner more e f b body) rest i =
        ap (λ ts. scan_open_statement last_kind end (o ∷ ts) i start)
          (append_assoc inner (c ∷ more) rest)
        ∙ scan_next o (inner ++ (c ∷ (more ++ rest))) i start (push s start)
            (open_round o s start e)
        ∙ scan_inside b (c ∷ (more ++ rest)) (i + 1) (push s start) (outside-push s start)
        ∙ scan_next c (more ++ rest) (i + 1 + length inner) (push s start) start (
            close_inside c s start f
            ∙ end_round_other c (closing_differs c s last_kind f close_other))
        ∙ scan_body body rest (i + 1 + length inner + 1)
        ∙ ap (λ n. scan_open_statement last_kind end rest n start)
            (omega (arith, length-append inner (c ∷ more)))
