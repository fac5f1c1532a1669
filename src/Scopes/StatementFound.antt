-- ===== src/Scopes/StatementFound.antt =====
-- What `find_statement` of Candi_Compiler/token_iterator.hpp gives for tokens whose scopes are
-- balanced: the statement up to its close token, and a valid result where there is none.
use cand_lang_proto.Base.{
  ℕ, ◌+◌, true, List, [], ◌∷◌, ◌++◌, ◌≡◌, ◌≢◌, refl, sym, ap, ◌∙◌, length, append-nil, arith,
}
use cand_lang_proto.Syntax.TokenKind.{ETk}
use cand_lang_proto.Syntax.Equality.{tk_eq_iff}
use cand_lang_proto.Syntax.Token.{Tk, type_is}
use cand_lang_proto.Scopes.Scope.{scope_valid}
use cand_lang_proto.Scopes.Find.{other, kind_turn, turn, start}
use cand_lang_proto.Scopes.Statement.{
  gives, outside, stop_round, end_round, statement_round, conclude_statement, scan_statement,
  find_statement,
}
use cand_lang_proto.Scopes.StatementLoop.{
  Body, token, scope, differs, other_round, scan_stop, scan_body,
}

module _ (first_kind last_kind : ETk) (open_other : kind_turn first_kind ≡ other)
    (close_other : kind_turn last_kind ≡ other) where
  body_head : {t : Tk} {ts : List Tk} → Body first_kind last_kind (t ∷ ts) → t.kind ≢ last_kind
  body_head (token e a b body) = b
  body_head (scope s o c inner more e f b body) = λ same. cc (ap kind_turn same)

  stop_at :
      (c : Tk)
      → c.kind ≡ last_kind
      → statement_round first_kind last_kind c start (turn c) ≡ stop_round start
  unfolding end_round outside
  stop_at c e =
      let plain_turn : turn c ≡ other = ap kind_turn e ∙ close_other in
      let found : type_is last_kind c ≡ true = (tk_eq_iff c.kind last_kind).1 e in
      other_round first_kind last_kind c start plain_turn ∙ rw found refl

  conclude_outside : (i : ℕ) → conclude_statement i start ≡ scope_valid 0 (i + 1)
  unfolding conclude_statement outside
  conclude_outside i = refl

  -- Behind the open token the search is the loop, if there is a token that is not the close.
  enter_loop :
      (o t : Tk) (ts : List Tk)
      → o.kind ≡ first_kind
      → t.kind ≢ last_kind
      → find_statement first_kind last_kind (o ∷ t ∷ ts)
        ≡ scan_statement first_kind last_kind (t ∷ ts) 1 start
  unfolding find_statement
  enter_loop o t ts e h =
      let opened : type_is first_kind o ≡ true = (tk_eq_iff o.kind first_kind).1 e in
      rw (opened, differs first_kind last_kind t last_kind h, find_statement) refl

  empty_statement :
      (o c : Tk) (ts : List Tk)
      → o.kind ≡ first_kind
      → c.kind ≡ last_kind
      → find_statement first_kind last_kind (o ∷ c ∷ ts) ≡ gives (scope_valid 0 2)
  unfolding find_statement
  empty_statement o c ts e f =
      let opened : type_is first_kind o ≡ true = (tk_eq_iff o.kind first_kind).1 e in
      let closed : type_is last_kind c ≡ true = (tk_eq_iff c.kind last_kind).1 f in
      rw (opened, closed, find_statement) refl

-- A statement between two kinds of tokens that neither open nor close scopes is found, up to its
-- close token: an open token, a body with neither of the kinds outside of its balanced scopes, and
-- a close token.
pub find_statement_complete :
    (first_kind last_kind : ETk) (o c : Tk) (body rest : List Tk)
    → kind_turn first_kind ≡ other
    → kind_turn last_kind ≡ other
    → o.kind ≡ first_kind
    → c.kind ≡ last_kind
    → Body first_kind last_kind body
    → find_statement first_kind last_kind (o ∷ body ++ c ∷ rest)
      ≡ gives (scope_valid 0 (length body + 2))
find_statement_complete first_kind last_kind o c [] rest p q e f b =
    empty_statement first_kind last_kind p q o c rest e f
    ∙ ap (λ n. gives (scope_valid 0 n)) (omega arith)
find_statement_complete first_kind last_kind o c (t ∷ body) rest p q e f b =
    enter_loop first_kind last_kind p q o t (body ++ c ∷ rest) e
      (body_head first_kind last_kind p q b)
    ∙ scan_body first_kind last_kind p q b (c ∷ rest) 1
    ∙ scan_stop first_kind last_kind c rest _ start start (stop_at first_kind last_kind p q c f)
    ∙ ap gives (conclude_outside first_kind last_kind p q (1 + length (t ∷ body)))
    ∙ ap (λ n. gives (scope_valid 0 n)) (omega arith)

-- Where the close token is missing, for a body that is not empty, the result is valid all the
-- same: a statement of one token, the open token.
pub find_statement_unclosed :
    (first_kind last_kind : ETk) (o t : Tk) (body : List Tk)
    → kind_turn first_kind ≡ other
    → kind_turn last_kind ≡ other
    → o.kind ≡ first_kind
    → Body first_kind last_kind (t ∷ body)
    → find_statement first_kind last_kind (o ∷ t ∷ body) ≡ gives (scope_valid 0 1)
unfolding scan_statement
find_statement_unclosed first_kind last_kind o t body p q e b =
    enter_loop first_kind last_kind p q o t body e (body_head first_kind last_kind p q b)
    ∙ ap (λ ts. scan_statement first_kind last_kind ts 1 start) (sym (append-nil (t ∷ body)))
    ∙ scan_body first_kind last_kind p q b [] 1
    ∙ ap gives (conclude_outside first_kind last_kind p q 0)
