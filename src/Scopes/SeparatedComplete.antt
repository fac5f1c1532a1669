-- ===== src/Scopes/SeparatedComplete.antt =====
-- The searches for separated scopes return for every balanced scope.
use cand_lang_proto.Base.{
  ℕ, ◌+◌, Bool, true, false, not, ◌&&◌, if◌then◌else◌, List, [], ◌∷◌, ◌++◌, ◌≡◌, ◌≢◌, refl, ap, ◌∙◌,
  Option, some, append_assoc, Bool-cases, inl, inr, arith,
}
use cand_lang_proto.Syntax.TokenKind.{ETk}
use cand_lang_proto.Syntax.Kinds.{
  tk_type_is_opening_scope, tk_type_is_closing_scope, tk_type_is_closing_scope_of,
}
use cand_lang_proto.Syntax.Equality.{tk_eq_iff}
use cand_lang_proto.Syntax.Token.{Tk, type_is, is_opening_scope, is_closing_scope}
use cand_lang_proto.Scopes.Scope.{TkScope, scope_valid, scope_failure}
use cand_lang_proto.Scopes.Find.{Shape, opens, closes, other, kind_turn, turn}
use cand_lang_proto.Scopes.Balanced.{Balanced, empty, plain, group, Group}
use cand_lang_proto.Scopes.Separated.{
  open_kind, close_kind, Branch, separates, enters, leaves, wrong_close, finishes, at_eof, passes,
  branch, cons_scope, separate, pop_kind, no_scope_open, closes_top, find_seperated,
}
use cand_lang_proto.Scopes.SeparatedKinds.{
  opens_kind, closes_kind, other_kind, open_kind-is_opening, close_kind_lem,
}

-- The chain of tests: which of them passed where a branch is taken.
abbrev chain : Bool → Bool → Bool → Bool → Bool → Bool → Branch
chain a b c d e f =
    if a
    then separates
    else if b
    then enters
    else if c
    then (if d then leaves else wrong_close)
    else if e
    then finishes
    else if f
    then at_eof
    else passes

chain_enters : (a b c d e f : Bool) → chain a b c d e f ≡ enters → b ≡ true
chain_enters a true c d e f h = refl
chain_enters a false c d e f h = ground arith

chain_leaves : (a b c d e f : Bool) → chain a b c d e f ≡ leaves → c ≡ true
chain_leaves a b true d e f h = refl
chain_leaves a b false d e f h = ground arith

first_false : (a b : Bool) → a ≡ false → (a && b) ≡ false
first_false a b e = rw e refl

second_false : (a : Bool) → (a && false) ≡ false
second_false true = refl
second_false false = refl

module _ (s : Shape) (separator : ETk) (neither : kind_turn separator ≡ other) where
  -- A token that opens or closes a scope is no separator.
  not_separator : (t : Tk) → kind_turn t.kind ≢ other → type_is separator t ≡ false
  not_separator t h = elim (Bool-cases (type_is separator t)) [
    | inl same ↦ absurd (h (ap kind_turn ((tk_eq_iff t.kind separator).0 same) ∙ neither))
    | inr differs ↦ differs
  ]

  -- The three branches at a token that opens or closes a scope.
  open_branch :
      (h : List ETk) (t : Tk) (x : Shape) → turn t ≡ opens x → branch s separator h t ≡ enters
  unfolding branch
  open_branch h t x e =
      let a = not_separator t (λ f. cc) in
      let b : is_opening_scope t ≡ true =
        ap tk_type_is_opening_scope (opens_kind t.kind x e) ∙ open_kind-is_opening x in
      rw (a, b) refl

  close_branch :
      (h : List ETk) (t : Tk) (x : Shape)
      → turn t ≡ closes x
      → branch s separator (open_kind x ∷ h) t ≡ leaves
  unfolding branch
  close_branch h t x e =
      let a = not_separator t (λ f. cc) in
      let k = closes_kind t.kind x e in
      let (b, c, d) = close_kind_lem x in
      let b' : is_opening_scope t ≡ false = ap tk_type_is_opening_scope k ∙ b in
      let c' : is_closing_scope t ≡ true = ap tk_type_is_closing_scope k ∙ c in
      let d' : tk_type_is_closing_scope_of (open_kind x) t.kind ≡ true =
        ap (tk_type_is_closing_scope_of (open_kind x)) k ∙ d in
      rw (a, b', c', d') refl

  finish_branch : (t : Tk) → turn t ≡ closes s → branch s separator [] t ≡ finishes
  unfolding branch
  finish_branch t e =
      let a = not_separator t (λ f. cc) in
      let k = closes_kind t.kind s e in
      let b' : is_opening_scope t ≡ false = ap tk_type_is_opening_scope k ∙ (close_kind_lem s).0 in
      let c' : is_closing_scope t ≡ true = ap tk_type_is_closing_scope k ∙ (close_kind_lem s).1 in
      let f' : type_is (close_kind s) t ≡ true = (tk_eq_iff t.kind (close_kind s)).1 k in
      rw (a, b', c', f') refl

  module _ (end : ℕ) where
    -- The loop returns from these tokens on, wherever they stand, with the stack `h`.
    abbrev Answers : List Tk → List ETk → Type 0
    Answers ts h =
        (i last : ℕ) → (parts : List TkScope) × (separate s separator end ts i last h ≡ some parts)

    cons-Answers :
        (x : TkScope) (more : Option (List TkScope))
        → (parts : List TkScope) × (more ≡ some parts)
        → (parts : List TkScope) × (cons_scope x more ≡ some parts)
    cons-Answers x more (parts, e) = rw e (x ∷ parts, refl)

    open-Answers :
        (h : List ETk) (t : Tk) (ts : List Tk) (x : Shape)
        → turn t ≡ opens x
        → Answers ts (open_kind x ∷ h)
        → Answers (t ∷ ts) h
    unfolding separate
    open-Answers h t ts x e next i last =
        rw (open_branch h t x e, separate) (rw (opens_kind t.kind x e) (next (i + 1) last))

    close-Answers :
        (h : List ETk) (t : Tk) (ts : List Tk) (x : Shape)
        → turn t ≡ closes x
        → Answers ts h
        → Answers (t ∷ ts) (open_kind x ∷ h)
    unfolding separate
    close-Answers h t ts x e next i last = rw (close_branch h t x e, separate) (next (i + 1) last)

    finish-Answers : (t : Tk) (ts : List Tk) → turn t ≡ closes s → Answers (t ∷ ts) []
    unfolding separate
    finish-Answers t ts e i last = rw (finish_branch t e, separate) (_, refl)

    plain_branches :
        (h : List ETk) (t : Tk)
        → turn t ≡ other
        → (branch s separator h t ≢ enters) × (branch s separator h t ≢ leaves)
    unfolding branch
    plain_branches h t e =
        let (b, c) = other_kind t.kind e in
        (
          λ f. cc (
            chain_enters (type_is separator t && no_scope_open h) (is_opening_scope t)
                (is_closing_scope t && not (no_scope_open h)) (closes_top h t)
                (type_is (close_kind s) t && no_scope_open h) (type_is ETk.eof_ t) f,
            b,
          ),
          λ f. cc (
            chain_leaves (type_is separator t && no_scope_open h) (is_opening_scope t)
                (is_closing_scope t && not (no_scope_open h)) (closes_top h t)
                (type_is (close_kind s) t && no_scope_open h) (type_is ETk.eof_ t) f,
            first_false (is_closing_scope t) (not (no_scope_open h)) c,
          ),
        )

    plain-Answers :
        (h : List ETk) (t : Tk) (ts : List Tk) → turn t ≡ other → Answers ts h → Answers (t ∷ ts) h
    unfolding separate
    plain-Answers h t ts e next i last =
        go (branch s separator h t) (plain_branches h t e).0 (plain_branches h t e).1
      where
        go :
            (k : Branch)
            → k ≢ enters
            → k ≢ leaves
            → (parts : List TkScope) × (elim k [
              | separates ↦
                  cons_scope (scope_valid last (i + 1)) (separate s separator end ts (i + 1) i h)
              | enters ↦ separate s separator end ts (i + 1) last (t.kind ∷ h)
              | leaves ↦ separate s separator end ts (i + 1) last (pop_kind h)
              | wrong_close ↦ some (scope_failure i end [] ∷ [])
              | finishes ↦ some (scope_valid last (i + 1) ∷ [])
              | at_eof ↦ some (scope_failure i end [] ∷ [])
              | passes ↦ separate s separator end ts (i + 1) last h
            ]
                ≡ some parts)
        go separates a b = cons-Answers _ (separate s separator end ts (i + 1) i h) (next (i + 1) i)
        go enters a b = absurd (a refl)
        go leaves a b = absurd (b refl)
        go wrong_close a b = (_, refl)
        go finishes a b = (_, refl)
        go at_eof a b = (_, refl)
        go passes a b = next (i + 1) last

    -- Balanced tokens in front leave the stack as it is.
    Balanced-Answers :
        {inner : List Tk}
        → Balanced inner
        → (rest : List Tk) (h : List ETk) → Answers rest h
        → Answers (inner ++ rest) h
    Balanced-Answers empty rest h a = a
    Balanced-Answers (plain {t} {ts} e b) rest h a =
        plain-Answers h t (ts ++ rest) e (Balanced-Answers b rest h a)
    Balanced-Answers (group x o c inner more e f b b') rest h a =
        rw (append_assoc inner (c ∷ more) rest) (
          open-Answers h o _ x e (
            Balanced-Answers b (c ∷ (more ++ rest)) (open_kind x ∷ h)
              (close-Answers h c (more ++ rest) x f (Balanced-Answers b' rest h a))))

-- A search for parts in a balanced scope returns, for a separator that neither opens nor closes a
-- scope.
pub find_seperated_returns :
    (s : Shape) (separator : ETk) (ts : List Tk) (end : ℕ)
    → kind_turn separator ≡ other
    → Group s ts end
    → (parts : List TkScope) × (find_seperated s separator ts ≡ some parts)
unfolding find_seperated
find_seperated_returns s separator ts end neither g =
    let opened : type_is (open_kind s) g.open_token ≡ true =
      (tk_eq_iff g.open_token.kind (open_kind s)).1 (opens_kind g.open_token.kind s g.opens_it) in
    rw (g.tokens_are, opened, find_seperated)
      (Balanced-Answers s separator neither _ g.balanced (g.close_token ∷ g.rest) []
        (finish-Answers s separator neither _ g.close_token g.rest g.closes_it) 1 0)
