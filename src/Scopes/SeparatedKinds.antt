-- ===== src/Scopes/SeparatedKinds.antt =====
-- The tests of a token's kind in the searches for separated scopes, and the shape of the scope that
-- the kind opens or closes.
use cand_lang_proto.Base.{true, false, ◌≡◌, ap, sym, ◌∙◌, refl, arith}
use cand_lang_proto.Syntax.TokenKind.{ETk, tk_eq}
use cand_lang_proto.Syntax.Kinds.{
  tk_type_is_opening_scope, tk_type_is_closing_scope, tk_type_is_closing_scope_of,
}
use cand_lang_proto.Syntax.Equality.{tk_eq_iff}
use cand_lang_proto.Scopes.Find.{Shape, paren, list, frame, opens, closes, other, kind_turn}
use cand_lang_proto.Scopes.Separated.{open_kind, close_kind}

pub opens_kind : (k : ETk) (s : Shape) → kind_turn k ≡ opens s → k ≡ open_kind s
unfolding kind_turn
opens_kind ETk.open_paren_ paren e = refl
opens_kind ETk.open_brace_ list e = refl
opens_kind ETk.open_bracket_ frame e = refl
opens_kind _ s e = cc

pub closes_kind : (k : ETk) (s : Shape) → kind_turn k ≡ closes s → k ≡ close_kind s
unfolding kind_turn
closes_kind ETk.close_paren_ paren e = refl
closes_kind ETk.close_brace_ list e = refl
closes_kind ETk.close_bracket_ frame e = refl
closes_kind _ s e = cc

pub other_kind :
    (k : ETk)
    → kind_turn k ≡ other
    → (tk_type_is_opening_scope k ≡ false) × (tk_type_is_closing_scope k ≡ false)
unfolding kind_turn tk_type_is_opening_scope tk_type_is_closing_scope
other_kind ETk.open_paren_ e = cc
other_kind ETk.open_brace_ e = cc
other_kind ETk.open_bracket_ e = cc
other_kind ETk.close_paren_ e = cc
other_kind ETk.close_brace_ e = cc
other_kind ETk.close_bracket_ e = cc
other_kind _ e = (refl, refl)

pub open_kind-is_opening : (s : Shape) → tk_type_is_opening_scope (open_kind s) ≡ true
unfolding tk_type_is_opening_scope
open_kind-is_opening paren = refl
open_kind-is_opening list = refl
open_kind-is_opening frame = refl

pub close_kind_lem :
    (s : Shape)
    → (tk_type_is_opening_scope (close_kind s) ≡ false)
      × (tk_type_is_closing_scope (close_kind s) ≡ true)
      × (tk_type_is_closing_scope_of (open_kind s) (close_kind s) ≡ true)
unfolding tk_type_is_opening_scope tk_type_is_closing_scope tk_type_is_closing_scope_of tk_eq
close_kind_lem paren = (refl, refl, refl)
close_kind_lem list = (refl, refl, refl)
close_kind_lem frame = (refl, refl, refl)

pub is_opening-turn :
    (k : ETk) → tk_type_is_opening_scope k ≡ true → (x : Shape) × (kind_turn k ≡ opens x)
unfolding kind_turn tk_type_is_opening_scope
is_opening-turn ETk.open_paren_ e = (paren, refl)
is_opening-turn ETk.open_brace_ e = (list, refl)
is_opening-turn ETk.open_bracket_ e = (frame, refl)
is_opening-turn _ e = cc

pub not_scope-turn :
    (k : ETk)
    → tk_type_is_opening_scope k ≡ false
    → tk_type_is_closing_scope k ≡ false
    → kind_turn k ≡ other
unfolding kind_turn tk_type_is_opening_scope tk_type_is_closing_scope
not_scope-turn ETk.open_paren_ a b = cc
not_scope-turn ETk.open_brace_ a b = cc
not_scope-turn ETk.open_bracket_ a b = cc
not_scope-turn ETk.close_paren_ a b = cc
not_scope-turn ETk.close_brace_ a b = cc
not_scope-turn ETk.close_bracket_ a b = cc
not_scope-turn _ a b = refl

close_kind-turn : (s : Shape) → kind_turn (close_kind s) ≡ closes s
unfolding kind_turn
close_kind-turn paren = refl
close_kind-turn list = refl
close_kind-turn frame = refl

is_closing_of-close_kind :
    (x : Shape) (k : ETk)
    → tk_type_is_closing_scope_of (open_kind x) k ≡ true
    → tk_eq k (close_kind x) ≡ true
unfolding tk_type_is_closing_scope_of tk_eq
is_closing_of-close_kind paren k e = ground arith
is_closing_of-close_kind list k e = ground arith
is_closing_of-close_kind frame k e = ground arith

-- A kind that closes the scope of an opening kind closes its shape.
pub closing_of-turn :
    (o k : ETk) (x : Shape)
    → kind_turn o ≡ opens x
    → tk_type_is_closing_scope_of o k ≡ true
    → kind_turn k ≡ closes x
closing_of-turn o k x e f =
    let g : tk_type_is_closing_scope_of (open_kind x) k ≡ true =
      ap (λ j. tk_type_is_closing_scope_of j k) (sym (opens_kind o x e)) ∙ f in
    ap kind_turn ((tk_eq_iff k (close_kind x)).0 (is_closing_of-close_kind x k g))
    ∙ close_kind-turn x
