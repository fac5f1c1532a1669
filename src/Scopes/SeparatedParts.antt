-- ===== src/Scopes/SeparatedParts.antt =====
-- What the parts of a scope between separators are, apart from how the searches look for them.
use cand_lang_proto.Base.{
  ℕ, ◌+◌, true, false, List, [], ◌∷◌, ◌++◌, ◌≡◌, ◌≢◌, length, append_assoc, refl,
}
use cand_lang_proto.Syntax.TokenKind.{ETk}
use cand_lang_proto.Syntax.Kinds.{tk_type_is_closing_scope_of}
use cand_lang_proto.Syntax.Token.{Tk, is_opening_scope, is_closing_scope}
use cand_lang_proto.Scopes.Scope.{TkScope, scope_valid, scope_failure}
use cand_lang_proto.Scopes.Find.{Shape, opens, closes, turn}
use cand_lang_proto.Scopes.Balanced.{Balanced, empty, group, append-Balanced}
use cand_lang_proto.Scopes.Separated.{close_kind}

-- The tokens between two boundaries of a part: none of them, apart from what stands inside of a
-- scope, is a separator, closes the scope or ends the file, and every scope is closed.
pub data Between (s : Shape) (separator : ETk) : List Tk → Type 0 where
  nothing : Between s separator []
  single :
      {ts : List Tk} (t : Tk)
      → Between s separator ts
      → t.kind ≢ separator
      → is_opening_scope t ≡ false
      → t.kind ≢ close_kind s
      → t.kind ≢ ETk.eof_
      → Between s separator (ts ++ t ∷ [])
  scope :
      {ts inner : List Tk} (x : Shape) (o c : Tk)
      → Between s separator ts
      → o.kind ≢ separator
      → turn o ≡ opens x
      → Balanced inner
      → turn c ≡ closes x
      → Between s separator (ts ++ (o ∷ inner ++ c ∷ []))

-- Tokens behind a boundary that leave open the scopes of a stack of their opening tokens' types.
pub data Unfinished (s : Shape) (separator : ETk) : List Tk → List ETk → Type 0 where
  outside : {ts : List Tk} → Between s separator ts → Unfinished s separator ts []
  first_scope :
      {ts inner : List Tk} (x : Shape) (o : Tk)
      → Between s separator ts
      → o.kind ≢ separator
      → turn o ≡ opens x
      → Balanced inner
      → Unfinished s separator (ts ++ o ∷ inner) (o.kind ∷ [])
  inner_scope :
      {ts inner : List Tk} {k : ETk} {h : List ETk} (x : Shape) (o : Tk)
      → Unfinished s separator ts (k ∷ h)
      → turn o ≡ opens x
      → Balanced inner
      → Unfinished s separator (ts ++ o ∷ inner) (o.kind ∷ k ∷ h)

-- What ends a search with a failure behind tokens that leave these scopes open: the end of the
-- file, or a token that closes a scope of another shape than the innermost one.
pub data Fails : List ETk → Tk → Type 0 where
  at_end_of_file : {h : List ETk} {t : Tk} → t.kind ≡ ETk.eof_ → Fails h t
  closes_another :
      {k : ETk} {h : List ETk} {t : Tk}
      → is_closing_scope t ≡ true
      → tk_type_is_closing_scope_of k t.kind ≡ false
      → Fails (k ∷ h) t

-- The parts in the tokens behind the boundary at position `from`, in a range that ends at `end`. A
-- part goes from a boundary to the next separator, or to the token that closes the scope; `i` is the
-- position of that token.
pub data Parts (s : Shape) (separator : ETk) (end : ℕ) : ℕ → List Tk → List TkScope → Type 0 where
  last_part :
      {from : ℕ} {ts : List Tk} (i : ℕ) (t : Tk) (rest : List Tk)
      → i ≡ from + length ts + 1
      → Between s separator ts
      → t.kind ≡ close_kind s
      → Parts s separator end from (ts ++ t ∷ rest) (scope_valid from (i + 1) ∷ [])
  failed :
      {from : ℕ} {ts : List Tk} {h : List ETk} (i : ℕ) (t : Tk) (rest : List Tk)
      → i ≡ from + length ts + 1
      → Unfinished s separator ts h
      → Fails h t
      → Parts s separator end from (ts ++ t ∷ rest) (scope_failure i end [] ∷ [])
  part :
      {from : ℕ} {ts : List Tk} {parts : List TkScope} (i : ℕ) (t : Tk) (rest : List Tk)
      → i ≡ from + length ts + 1
      → Between s separator ts
      → t.kind ≡ separator
      → Parts s separator end i rest parts
      → Parts s separator end from (ts ++ t ∷ rest) (scope_valid from (i + 1) ∷ parts)

module _ {s : Shape} {separator : ETk} where
  -- Balanced tokens leave the same scopes open.
  pub append-Unfinished :
      {ts us : List Tk} {k : ETk} {h : List ETk}
      → Unfinished s separator ts (k ∷ h)
      → Balanced us
      → Unfinished s separator (ts ++ us) (k ∷ h)
  append-Unfinished {us} (first_scope {ts} {inner} x o b n e f) g =
      rw (append_assoc ts (o ∷ inner) us) (first_scope x o b n e (append-Balanced f g))
  append-Unfinished {us} (inner_scope {ts} {inner} x o u e f) g =
      rw (append_assoc ts (o ∷ inner) us) (inner_scope x o u e (append-Balanced f g))

  -- A token that closes the innermost scope leaves the others open.
  pub close-Unfinished :
      {ts : List Tk} {k : ETk} {h : List ETk} (t : Tk)
      → Unfinished s separator ts (k ∷ h)
      → ((o : Tk) (x : Shape) → o.kind ≡ k → turn o ≡ opens x → turn t ≡ closes x)
      → Unfinished s separator (ts ++ t ∷ []) h
  close-Unfinished t (first_scope {ts} {inner} x o b n e f) c =
      rw (append_assoc ts (o ∷ inner) (t ∷ [])) (outside (scope x o t b n e f (c o x refl e)))
  close-Unfinished t (inner_scope {ts} {inner} x o u e f) c =
      rw (append_assoc ts (o ∷ inner) (t ∷ []))
        (append-Unfinished u (group x o t inner [] e (c o x refl e) f empty))
