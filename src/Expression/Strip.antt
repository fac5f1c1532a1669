-- ===== src/Expression/Strip.antt =====
-- The tokens of an expression apart from its parentheses, and what the steps of a closure list do
-- to them.
use cand_lang_proto.Base.{
  ℕ, ◌<◌, Bool, true, ◌||◌, ◌==◌, List, [], ◌∷◌, ◌++◌, ◌≡◌, refl, ap, ◌∙◌, map, Option, none, some,
  append-nil, Bool-cases, inl, inr, arith, if◌then◌else◌,
}
use cand_lang_proto.Syntax.TokenKind.{ETk, tk_eq}
use cand_lang_proto.Syntax.Token.{Tk, type_is}
use cand_lang_proto.Expression.Closure.{Node, Closure, insert_before, insert_after}
use cand_lang_proto.Expression.ClosureList.{
  ClosureList, open_tk, close_tk, enclose, surround_postfix, surround_left, surround_right,
  output_insert_tk_before_closure, output_insert_tk_after_closure, output_push_back,
}

abbrev pub is_paren : Tk → Bool
is_paren t = type_is ETk.open_paren_ t || type_is ETk.close_paren_ t

unfoldable pub strip : List Tk → List Tk
strip [] = []
strip (t ∷ ts) = if is_paren t then strip ts else t ∷ strip ts

pub strip-append : (ts us : List Tk) → strip (ts ++ us) ≡ strip ts ++ strip us
unfolding strip
strip-append [] us = refl
strip-append (t ∷ ts) us = elim (Bool-cases (is_paren t)) [
  | inl e ↦ rw (e, strip) (strip-append ts us)
  | inr e ↦ rw (e, strip) (ap (◌∷◌ t) (strip-append ts us))
]

pub strip_paren : (t : Tk) (ts : List Tk) → is_paren t ≡ true → strip (t ∷ ts) ≡ strip ts
unfolding strip
strip_paren t ts e = rw (e, strip) refl

unfoldable pub strip_nodes : List Node → List Tk
strip_nodes [] = []
strip_nodes (n ∷ ns) = if is_paren n.tk then strip_nodes ns else n.tk ∷ strip_nodes ns

pub strip_nodes_lem : (ns : List Node) → strip_nodes ns ≡ strip (map (λ (n : Node). n.tk) ns)
unfolding strip_nodes strip
strip_nodes_lem [] = refl
strip_nodes_lem (n ∷ ns) = elim (Bool-cases (is_paren n.tk)) [
  | inl e ↦ rw (e, strip, strip_nodes) (strip_nodes_lem ns)
  | inr e ↦ rw (e, strip, strip_nodes) (ap (◌∷◌ n.tk) (strip_nodes_lem ns))
]

-- What stands behind the sentinel, if the sentinel is in front.
abbrev pub body : List Node → Option (List Tk)
body [] = none
body (n ∷ ns) = if n.id == 0 then some (strip_nodes ns) else none

module _ (p : Node) (paren : is_paren p.tk ≡ true) where
  strip_nodes-insert_before :
      (i : ℕ) (ns : List Node) → strip_nodes (insert_before i p ns) ≡ strip_nodes ns
  unfolding strip_nodes insert_before
  strip_nodes-insert_before i [] = refl
  strip_nodes-insert_before i (n ∷ ns) = ground (arith, paren, strip_nodes-insert_before i ns)

  strip_nodes-insert_after :
      (i : ℕ) (ns : List Node) → strip_nodes (insert_after i p ns) ≡ strip_nodes ns
  unfolding strip_nodes insert_after
  strip_nodes-insert_after i [] = refl
  strip_nodes-insert_after i (n ∷ ns) = ground (arith, paren, strip_nodes-insert_after i ns)

  body-insert_before :
      (i : ℕ) (ns : List Node) {ts : List Tk}
      → 0 < i
      → body ns ≡ some ts
      → body (insert_before i p ns) ≡ some ts
  unfolding insert_before
  body-insert_before i [] h e = e
  body-insert_before i (n ∷ ns) h e = ground (arith, strip_nodes-insert_before i ns)

  body-insert_after : (i : ℕ) (ns : List Node) → body (insert_after i p ns) ≡ body ns
  unfolding insert_after strip_nodes
  body-insert_after i [] = refl
  body-insert_after i (n ∷ ns) = ground (arith, paren, strip_nodes-insert_after i ns)

strip_nodes-append : (ns ms : List Node) → strip_nodes (ns ++ ms) ≡ strip_nodes ns ++ strip_nodes ms
unfolding strip_nodes
strip_nodes-append [] ms = refl
strip_nodes-append (n ∷ ns) ms = elim (Bool-cases (is_paren n.tk)) [
  | inl e ↦ rw (e, strip_nodes) (strip_nodes-append ns ms)
  | inr e ↦ rw (e, strip_nodes) (ap (◌∷◌ n.tk) (strip_nodes-append ns ms))
]

-- The tokens behind the sentinel, apart from parentheses, are `ts`, and the next node is not numbered
-- as the sentinel is.
abbrev pub Writes : ClosureList → List Tk → Type 0
Writes l ts = (body l.output ≡ some ts) × (0 < l.next_id)

-- The parentheses that a resolution adds leave what is written.
pub before-Writes :
    (c : Closure) (t : Tk) (l : ClosureList) (ts : List Tk)
    → 0 < c.front.id
    → is_paren t ≡ true
    → Writes l ts
    → Writes (output_insert_tk_before_closure c t l) ts
unfolding output_insert_tk_before_closure
before-Writes c t l ts h p w = (
  body-insert_before (record { id = l.next_id; tk = t }) p c.front.id l.output h w.0,
  omega arith,
)

pub after-Writes :
    (c : Closure) (t : Tk) (l : ClosureList) (ts : List Tk)
    → is_paren t ≡ true
    → Writes l ts
    → Writes (output_insert_tk_after_closure c t l) ts
unfolding output_insert_tk_after_closure
after-Writes c t l ts p w =
    (body-insert_after (record { id = l.next_id; tk = t }) p c.back.id l.output ∙ w.0, omega arith)

pub push-Writes :
    (t : Tk) (l : ClosureList) (ts : List Tk)
    → Writes l ts
    → Writes (output_push_back t l) (ts ++ strip (t ∷ []))
unfolding output_push_back strip strip_nodes
push-Writes t l ts w = (push_body l.output w.0, omega arith)
  where
    push_body :
        (ns : List Node)
        → body ns ≡ some ts
        → body (ns ++ record { id = l.next_id; tk = t } ∷ []) ≡ some (ts ++ strip (t ∷ []))
    push_body [] e = cc
    push_body (n ∷ ns) e =
        ground (arith, strip_nodes-append ns (record { id = l.next_id; tk = t } ∷ []))

pub push_paren-Writes :
    (t : Tk) (l : ClosureList) (ts : List Tk)
    → is_paren t ≡ true
    → Writes l ts
    → Writes (output_push_back t l) ts
unfolding strip
push_paren-Writes t l ts p w =
    let nothing : ts ++ strip (t ∷ []) ≡ ts = rw (p, strip) (append-nil ts) in
    let (written, positive) = push-Writes t l ts w in
    (written ∙ ap (λ us. some us) nothing, positive)

open_is_paren : is_paren open_tk ≡ true
unfolding tk_eq
open_is_paren = refl

close_is_paren : is_paren close_tk ≡ true
unfolding tk_eq
close_is_paren = refl

pub open_before-Writes :
    (c : Closure) (l : ClosureList) (ts : List Tk)
    → 0 < c.front.id
    → Writes l ts
    → Writes (output_push_back close_tk (output_insert_tk_before_closure c open_tk l)) ts
open_before-Writes c l ts h w =
    push_paren-Writes close_tk _ ts close_is_paren (before-Writes c open_tk l ts h open_is_paren w)

pub enclose-Writes :
    (base : Closure) (l : ClosureList) (ts : List Tk) → Writes l ts → Writes (enclose base l) ts
enclose-Writes base l ts w =
    push_paren-Writes close_tk _ ts close_is_paren (after-Writes base open_tk l ts open_is_paren w)

pub surround_postfix-Writes :
    (base : Closure) (cs : List Closure) (l : ClosureList) (ts : List Tk)
    → Writes l ts
    → Writes (surround_postfix base cs l) ts
unfolding surround_postfix
surround_postfix-Writes base [] l ts w = w
surround_postfix-Writes base (c ∷ cs) l ts w =
    after-Writes c close_tk _ ts close_is_paren
      (after-Writes base open_tk _ ts open_is_paren (surround_postfix-Writes base cs l ts w))

-- No closure of the list starts at the sentinel.
abbrev pub Placed : List Closure → Type 0
Placed [] = Unit
Placed (c ∷ cs) = (0 < c.front.id) × Placed cs

pub surround_left-Writes :
    (base c : Closure) (cs : List Closure) (l : ClosureList) (ts : List Tk)
    → Placed (c ∷ cs)
    → Writes l ts
    → Writes (surround_left base c cs l) ts
unfolding surround_left
surround_left-Writes base c [] l ts h w = w
surround_left-Writes base c (d ∷ cs) l ts h w = surround_left-Writes base d cs _ ts h.1 (
    before-Writes c close_tk _ ts h.0 close_is_paren
      (after-Writes base open_tk l ts open_is_paren w))

pub surround_right-Writes :
    (cs : List Closure) (l : ClosureList) (ts : List Tk)
    → Writes l ts
    → Writes (surround_right cs l) ts
unfolding surround_right
surround_right-Writes [] l ts w = w
surround_right-Writes (c ∷ cs) l ts w =
    surround_right-Writes cs _ ts
      (push_paren-Writes close_tk _ ts close_is_paren (after-Writes c open_tk l ts open_is_paren w))
