-- ===== src/Scopes/SeparatedSound.antt =====
-- What the searches for separated scopes give: parts that follow one another, each from one
-- separator to the next.
use cand_lang_proto.Base.{
  ℕ, ◌+◌, true, false, List, [], ◌∷◌, ◌++◌, ◌≡◌, ◌≢◌, refl, subst, ◌&&◌, arith, length, Option,
  none, some, append_assoc, length-append, Bool-cases, inl, inr, Bool,
}
use cand_lang_proto.Syntax.TokenKind.{ETk}
use cand_lang_proto.Syntax.Equality.{tk_eq_iff}
use cand_lang_proto.Syntax.Kinds.{tk_type_is_closing_scope_of}
use cand_lang_proto.Syntax.Token.{Tk, type_is, is_opening_scope, is_closing_scope}
use cand_lang_proto.Scopes.Scope.{TkScope, scope_valid, scope_failure}
use cand_lang_proto.Scopes.Find.{Shape}
use cand_lang_proto.Scopes.Balanced.{empty, plain}
use cand_lang_proto.Scopes.Separated.{
  close_kind, open_kind, Branch, separates, enters, leaves, wrong_close, finishes, at_eof, passes,
  branch, cons_scope, separate, pop_kind, find_seperated,
}
use cand_lang_proto.Scopes.SeparatedKinds.{is_opening-turn, not_scope-turn, closing_of-turn}
use cand_lang_proto.Scopes.SeparatedParts.{
  Between, nothing, single, Unfinished, outside, first_scope, inner_scope, at_end_of_file,
  closes_another, Parts, last_part, failed, part, append-Unfinished, close-Unfinished,
}

some-injective : {a b : List TkScope} → some a ≡ some b → a ≡ b
some-injective e = cc

-- The first element of a result is added in front of what the loop gives from then on.
uncons :
    (x : TkScope) (more : Option (List TkScope)) {parts : List TkScope}
    → cons_scope x more ≡ some parts
    → (xs : List TkScope) × (more ≡ some xs) × (parts ≡ x ∷ xs)
uncons x none e = cc
uncons x (some xs) e = (xs, refl, cc)

type_is-not : (k : ETk) (t : Tk) → type_is k t ≡ false → t.kind ≢ k
type_is-not k t e same = cc (e, (tk_eq_iff t.kind k).1 same)

and_false : (a : Bool) → (a && false) ≡ false
and_false true = refl
and_false false = refl

module _ (s : Shape) (separator : ETk) where
  -- What the tests tell of a token outside of all scopes, by the branch that they lead to.
  data Outside (t : Tk) : Branch → Type 0 where
    is_separator : t.kind ≡ separator → Outside t separates
    is_opening : t.kind ≢ separator → is_opening_scope t ≡ true → Outside t enters
    is_close : t.kind ≡ close_kind s → Outside t finishes
    is_eof : t.kind ≡ ETk.eof_ → Outside t at_eof
    is_other :
        t.kind ≢ separator
        → is_opening_scope t ≡ false
        → t.kind ≢ close_kind s
        → t.kind ≢ ETk.eof_
        → Outside t passes

  branch-Outside : (t : Tk) → Outside t (branch s separator [] t)
  unfolding branch
  branch-Outside t = elim (Bool-cases (type_is separator t)) [
    | inl a ↦ rw a (is_separator ((tk_eq_iff t.kind separator).0 a))
    | inr a ↦ elim (Bool-cases (is_opening_scope t)) [
      | inl b ↦ rw (a, b) (is_opening (type_is-not separator t a) b)
      | inr b ↦ elim (Bool-cases (type_is (close_kind s) t)) [
        | inl e ↦
            rw (a, b, and_false (is_closing_scope t), e)
              (is_close ((tk_eq_iff t.kind (close_kind s)).0 e))
        | inr e ↦ elim (Bool-cases (type_is ETk.eof_ t)) [
          | inl f ↦
              rw (a, b, and_false (is_closing_scope t), e, f)
                (is_eof ((tk_eq_iff t.kind ETk.eof_).0 f))
          | inr f ↦
              rw (a, b, and_false (is_closing_scope t), e, f)
                (is_other (type_is-not separator t a) b (type_is-not (close_kind s) t e)
                  (type_is-not ETk.eof_ t f))
        ]
      ]
    ]
  ]

  -- The same for a token inside of scopes, the innermost of which starts with a token of kind `k`.
  data Inside (k : ETk) (t : Tk) : Branch → Type 0 where
    opens_one : is_opening_scope t ≡ true → Inside k t enters
    closes_one : tk_type_is_closing_scope_of k t.kind ≡ true → Inside k t leaves
    closes_wrong :
        is_closing_scope t ≡ true
        → tk_type_is_closing_scope_of k t.kind ≡ false
        → Inside k t wrong_close
    meets_eof : t.kind ≡ ETk.eof_ → Inside k t at_eof
    meets_other : is_opening_scope t ≡ false → is_closing_scope t ≡ false → Inside k t passes

  branch-Inside : (k : ETk) (h : List ETk) (t : Tk) → Inside k t (branch s separator (k ∷ h) t)
  unfolding branch
  branch-Inside k h t =
      rw (and_false (type_is separator t), and_false (type_is (close_kind s) t))
        (elim (Bool-cases (is_opening_scope t)) [
          | inl b ↦ rw b (opens_one b)
          | inr b ↦ elim (Bool-cases (is_closing_scope t)) [
            | inl c ↦ elim (Bool-cases (tk_type_is_closing_scope_of k t.kind)) [
              | inl d ↦ rw (b, c, d) (closes_one d)
              | inr d ↦ rw (b, c, d) (closes_wrong c d)
            ]
            | inr c ↦ elim (Bool-cases (type_is ETk.eof_ t)) [
              | inl f ↦ rw (b, c, f) (meets_eof ((tk_eq_iff t.kind ETk.eof_).0 f))
              | inr f ↦ rw (b, c, f) (meets_other b c)
            ]
          ]
        ])

  module _ (end : ℕ) where
    abbrev after_branch : Tk → List Tk → ℕ → ℕ → List ETk → Branch → Option (List TkScope)
    after_branch t rest i last h separates =
        cons_scope (scope_valid last (i + 1)) (separate s separator end rest (i + 1) i h)
    after_branch t rest i last h enters = separate s separator end rest (i + 1) last (t.kind ∷ h)
    after_branch t rest i last h leaves = separate s separator end rest (i + 1) last (pop_kind h)
    after_branch t rest i last h wrong_close = some (scope_failure i end [] ∷ [])
    after_branch t rest i last h finishes = some (scope_valid last (i + 1) ∷ [])
    after_branch t rest i last h at_eof = some (scope_failure i end [] ∷ [])
    after_branch t rest i last h passes = separate s separator end rest (i + 1) last h

    -- The loop from the tokens `rest` on gives parts, whatever stands in front of them.
    abbrev GivesParts : List Tk → Type 0
    GivesParts rest =
        (ts : List Tk) (from i : ℕ) (h : List ETk) (parts : List TkScope)
        → Unfinished s separator ts h
        → i ≡ from + length ts + 1
        → separate s separator end rest i from h ≡ some parts
        → Parts s separator end from (ts ++ rest) parts

    module _ (t : Tk) (rest : List Tk) (next : GivesParts rest) (ts : List Tk) (from i : ℕ) where
      -- The loop goes on behind the token, inside of the same part.
      goes_on-Parts :
          (h : List ETk) {parts : List TkScope}
          → Unfinished s separator (ts ++ t ∷ []) h
          → i ≡ from + length ts + 1
          → separate s separator end rest (i + 1) from h ≡ some parts
          → Parts s separator end from (ts ++ t ∷ rest) parts
      goes_on-Parts h {parts} u at e =
          subst (λ l. Parts s separator end from l parts) (append_assoc ts (t ∷ []) rest)
            (next (ts ++ t ∷ []) from (i + 1) h parts u
              (omega (arith, at, length-append ts (t ∷ []))) e)

      Outside-Parts :
          {parts : List TkScope}
          → Between s separator ts
          → i ≡ from + length ts + 1
          → {k : Branch} → Outside t k
          → after_branch t rest i from [] k ≡ some parts
          → Parts s separator end from (ts ++ t ∷ rest) parts
      Outside-Parts b at (is_separator f) e =
          let (xs, g, same) = uncons _ (separate s separator end rest (i + 1) i []) e in
          rw same (part i t rest at b f (next [] i (i + 1) [] xs (outside nothing) (omega arith) g))
      Outside-Parts b at (is_opening n f) e =
          let (x, o) = is_opening-turn t.kind f in
          goes_on-Parts (t.kind ∷ []) (first_scope x t b n o empty) at e
      Outside-Parts b at (is_close f) e =
          subst (Parts s separator end from (ts ++ t ∷ rest)) (some-injective e)
            (last_part i t rest at b f)
      Outside-Parts b at (is_eof f) e =
          subst (Parts s separator end from (ts ++ t ∷ rest)) (some-injective e)
            (failed i t rest at (outside b) (at_end_of_file f))
      Outside-Parts b at (is_other n f c g) e = goes_on-Parts [] (outside (single t b n f c g)) at e

      Inside-Parts :
          {parts : List TkScope} {k : ETk} {h : List ETk}
          → Unfinished s separator ts (k ∷ h)
          → i ≡ from + length ts + 1
          → {b : Branch} → Inside k t b
          → after_branch t rest i from (k ∷ h) b ≡ some parts
          → Parts s separator end from (ts ++ t ∷ rest) parts
      Inside-Parts {k} {h} u at (opens_one f) e =
          let (x, o) = is_opening-turn t.kind f in
          goes_on-Parts (t.kind ∷ k ∷ h) (inner_scope x t u o empty) at e
      Inside-Parts {k} {h} u at (closes_one f) e =
          goes_on-Parts h
            (close-Unfinished t u
              (λ o x same turns. closing_of-turn o.kind t.kind x turns (rw same f)))
            at e
      Inside-Parts u at (closes_wrong f g) e =
          subst (Parts s separator end from (ts ++ t ∷ rest)) (some-injective e)
            (failed i t rest at u (closes_another f g))
      Inside-Parts u at (meets_eof f) e =
          subst (Parts s separator end from (ts ++ t ∷ rest)) (some-injective e)
            (failed i t rest at u (at_end_of_file f))
      Inside-Parts {k} {h} u at (meets_other f g) e =
          goes_on-Parts (k ∷ h)
            (append-Unfinished u (plain {t = t} (not_scope-turn t.kind f g) empty)) at e

    Unfinished-Between : {ts : List Tk} → Unfinished s separator ts [] → Between s separator ts
    Unfinished-Between (outside b) = b

    separate-Parts : (rest : List Tk) → GivesParts rest
    unfolding separate
    separate-Parts [] ts from i h parts u at e = cc
    separate-Parts (t ∷ rest) ts from i [] parts u at e =
        Outside-Parts t rest (separate-Parts rest) ts from i (Unfinished-Between u) at
          (branch-Outside t) e
    separate-Parts (t ∷ rest) ts from i (k ∷ h) parts u at e =
        Inside-Parts t rest (separate-Parts rest) ts from i u at (branch-Inside k h t) e

-- What a search gives for a range that starts with the opening token: parts that follow one another
-- behind it. Each part but the last goes from a boundary, the opening token or a separator, to the
-- next separator that stands in no inner scope, over inner scopes that are closed in order. The last
-- goes to the token that closes the scope, or is a failure at the end of the file or at a token that
-- closes another scope than the innermost one that is open.
pub find_seperated-Parts :
    (s : Shape) (separator : ETk) (o : Tk) (ts : List Tk) {parts : List TkScope}
    → o.kind ≡ open_kind s
    → find_seperated s separator (o ∷ ts) ≡ some parts
    → Parts s separator (length (o ∷ ts)) 0 ts parts
unfolding find_seperated
find_seperated-Parts s separator o ts {parts} k e =
    let opened : type_is (open_kind s) o ≡ true = (tk_eq_iff o.kind (open_kind s)).1 k in
    separate-Parts s separator (length (o ∷ ts)) ts [] 0 1 [] parts (outside nothing) refl
      (rw opened at e)
