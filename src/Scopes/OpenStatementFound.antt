-- ===== src/Scopes/OpenStatementFound.antt =====
-- What `find_open_statement` and `find_program_statement` of Candi_Compiler/token_iterator.hpp give
-- for tokens whose scopes are balanced.
use cand_lang_proto.Base.{
  ℕ, suc, ◌+◌, true, List, [], ◌∷◌, ◌++◌, ◌≡◌, ◌≢◌, refl, sym, ap, ◌∙◌, length, append-nil, arith,
}
use cand_lang_proto.Syntax.TokenKind.{ETk}
use cand_lang_proto.Syntax.Equality.{tk_eq_iff}
use cand_lang_proto.Syntax.Token.{Tk, type_is}
use cand_lang_proto.Scopes.Scope.{scope_valid, scope_failure}
use cand_lang_proto.Scopes.Find.{other, kind_turn, turn, start}
use cand_lang_proto.Scopes.Statement.{gives, outside}
use cand_lang_proto.Scopes.StatementLoop.{Body, token, scope, differs}
use cand_lang_proto.Scopes.OpenStatement.{
  stop_open, end_open_round, open_statement_round, conclude_open, scan_open_statement,
  find_open_statement, find_program_statement,
}
use cand_lang_proto.Scopes.OpenStatementLoop.{other_round, scan_stop, scan_body}

stop_at :
    (k : ETk) (end : ℕ) (c : Tk)
    → kind_turn k ≡ other
    → c.kind ≡ k
    → open_statement_round k end c start (turn c) ≡ stop_open start
unfolding end_open_round outside
stop_at k end c q e =
    let plain_turn : turn c ≡ other = ap kind_turn e ∙ q in
    let found : type_is k c ≡ true = (tk_eq_iff c.kind k).1 e in
    other_round k end c start plain_turn ∙ rw found refl

body_head : {k : ETk} {t : Tk} {ts : List Tk} → kind_turn k ≡ other → Body k k (t ∷ ts) → t.kind ≢ k
body_head q (token e a b body) = b
body_head q (scope s o c inner more e f b body) = λ same. cc (ap kind_turn same)

enter_loop :
    (first_kind last_kind : ETk) (o t : Tk) (ts : List Tk)
    → o.kind ≡ first_kind
    → turn o ≡ other
    → t.kind ≢ last_kind
    → find_open_statement first_kind last_kind (o ∷ t ∷ ts)
      ≡ scan_open_statement last_kind (suc (suc (length ts))) (t ∷ ts) 1 start
unfolding find_open_statement
enter_loop first_kind last_kind o t ts e f h =
    let opened : type_is first_kind o ≡ true = (tk_eq_iff o.kind first_kind).1 e in
    rw (opened, differs last_kind last_kind t last_kind h, f, find_open_statement) refl

conclude_closed : (i : ℕ) → conclude_open (suc i) start ≡ scope_valid 0 (suc i + 1)
unfolding conclude_open outside
conclude_closed i = ground arith

empty_statement :
    (first_kind last_kind : ETk) (o c : Tk) (ts : List Tk)
    → o.kind ≡ first_kind
    → c.kind ≡ last_kind
    → find_open_statement first_kind last_kind (o ∷ c ∷ ts) ≡ gives (scope_valid 0 2)
unfolding find_open_statement
empty_statement first_kind last_kind o c ts e f =
    let opened : type_is first_kind o ≡ true = (tk_eq_iff o.kind first_kind).1 e in
    let closed : type_is last_kind c ≡ true = (tk_eq_iff c.kind last_kind).1 f in
    rw (opened, closed, find_open_statement) refl

-- A statement whose open token, which may be repeated, and close token neither open nor close
-- scopes is found, up to its close token: an open token, a body with no close token outside of its
-- balanced scopes, and a close token.
pub find_open_statement_complete :
    (first_kind last_kind : ETk) (o c : Tk) (body rest : List Tk)
    → turn o ≡ other
    → kind_turn last_kind ≡ other
    → o.kind ≡ first_kind
    → c.kind ≡ last_kind
    → Body last_kind last_kind body
    → find_open_statement first_kind last_kind (o ∷ body ++ c ∷ rest)
      ≡ gives (scope_valid 0 (length body + 2))
find_open_statement_complete first_kind last_kind o c [] rest p q e f b =
    empty_statement first_kind last_kind o c rest e f
    ∙ ap (λ n. gives (scope_valid 0 n)) (omega arith)
find_open_statement_complete first_kind last_kind o c (t ∷ body) rest p q e f b =
    enter_loop first_kind last_kind o t (body ++ c ∷ rest) e p (body_head q b)
    ∙ scan_body last_kind _ q b (c ∷ rest) 1
    ∙ scan_stop last_kind _ c rest _ start start (stop_at last_kind _ c q f)
    ∙ ap (λ n. gives (conclude_open n start)) (omega arith)
    ∙ ap gives (conclude_closed (length (t ∷ body)))
    ∙ ap (λ n. gives (scope_valid 0 n)) (omega arith)

-- A program statement is found up to its semicolon: any token that neither opens nor closes a
-- scope, a body with no semicolon outside of its balanced scopes, and a semicolon.
pub find_program_statement_complete :
    (o c : Tk) (body rest : List Tk)
    → turn o ≡ other
    → c.kind ≡ ETk.semicolon_
    → Body ETk.semicolon_ ETk.semicolon_ body
    → find_program_statement (o ∷ body ++ c ∷ rest) ≡ gives (scope_valid 0 (length body + 2))
unfolding find_program_statement kind_turn
find_program_statement_complete o c body rest p f b =
    find_open_statement_complete o.kind ETk.semicolon_ o c body rest p refl refl f b

-- Where the close token is missing, for a body that is not empty, the result is not valid.
pub find_open_statement_unclosed :
    (first_kind last_kind : ETk) (o t : Tk) (body : List Tk)
    → turn o ≡ other
    → kind_turn last_kind ≡ other
    → o.kind ≡ first_kind
    → Body last_kind last_kind (t ∷ body)
    → find_open_statement first_kind last_kind (o ∷ t ∷ body) ≡ gives (scope_failure 0 1 [])
unfolding scan_open_statement conclude_open outside
find_open_statement_unclosed first_kind last_kind o t body p q e b =
    enter_loop first_kind last_kind o t body e p (body_head q b)
    ∙ ap (λ ts. scan_open_statement last_kind (suc (suc (length body))) ts 1 start)
        (sym (append-nil (t ∷ body)))
    ∙ scan_body last_kind _ q b [] 1
