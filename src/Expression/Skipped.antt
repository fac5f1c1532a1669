-- ===== src/Expression/Skipped.antt =====
-- A parenthesizer skips an operand: a token, or a scope whose inside is parenthesized by itself.
use cand_lang_proto.Base.{
  ℕ, suc, ◌+◌, ◌<◌, ◌≤◌, true, ◌||◌, List, [], ◌∷◌, ◌++◌, length, length-append, take, drop,
  append_assoc, ◌≡◌, refl, ap, ◌∙◌, arith, if◌then◌else◌,
}
use cand_lang_proto.Syntax.TokenKind.{ETk, tk_eq}
use cand_lang_proto.Syntax.Token.{Tk, type_is}
use cand_lang_proto.Scopes.Find.{paren, opens, closes, turn, find_scope, find_paren}
use cand_lang_proto.Scopes.Balanced.{Balanced, Group}
use cand_lang_proto.Scopes.SeparatedKinds.{closes_kind}
use cand_lang_proto.Expression.Outcome.{
  Ending, ok, throws, ◌>>=◌, Ensures, bind-Ensures, if-Ensures,
}
use cand_lang_proto.Expression.Parse.{
  Role, operand, prefix, postfix, binary, no_role, role, first_token, contained, mismatched_operand,
}
use cand_lang_proto.Expression.ParseSteps.{
  found, open_paren_is, contained_found, drop_found, take-length,
}
use cand_lang_proto.Expression.ClosureList.{output_push_back}
use cand_lang_proto.Expression.Parenthesizer.{Parenthesizer, action_skip, output_push_all}
use cand_lang_proto.Expression.Strip.{strip, strip-append, strip_paren, is_paren}
use cand_lang_proto.Expression.Actions.{Keeps, push_all-Keeps}

close_paren_is : (t : Tk) → turn t ≡ closes paren → is_paren t ≡ true
unfolding tk_eq
close_paren_is t e =
    ap (λ k. tk_eq k ETk.open_paren_ || tk_eq k ETk.close_paren_) (closes_kind t.kind paren e)

-- The inside of the parentheses at the front of `ts`, which end at `n`.
module _ (o c : Tk) (inner rest : List Tk) (opens_it : turn o ≡ opens paren)
    (closes_it : turn c ≡ closes paren) (balanced : Balanced inner) where
  take_found : take (length inner + 2) (o ∷ inner ++ c ∷ rest) ≡ o ∷ inner ++ c ∷ []
  take_found =
      let size : length inner + 2 ≡ suc (length (inner ++ c ∷ [])) =
        omega (arith, length-append inner (c ∷ [])) in
      rw (size, ← append_assoc inner (c ∷ []) rest)
        (ap (◌∷◌ o) (take-length (inner ++ c ∷ []) rest))

  inner_found :
      contained
        (find_scope paren (take (length inner + 2) (o ∷ inner ++ c ∷ rest)))
        (o ∷ inner ++ c ∷ rest)
      ≡ inner
  inner_found =
      rw take_found
        (rw (found paren o c inner [] opens_it closes_it balanced) (contained_found o c inner rest))

  strip_group : strip (o ∷ inner ++ c ∷ rest) ≡ strip inner ++ strip rest
  strip_group =
      let opening : is_paren o ≡ true = rw (open_paren_is o opens_it) refl in
      let closing : is_paren c ≡ true = close_paren_is c closes_it in
      strip_paren o (inner ++ c ∷ rest) opening
      ∙ strip-append inner (c ∷ rest)
      ∙ ap (◌++◌ (strip inner)) (strip_paren c rest closing)

-- What an operand leaves: no token more at the head, and the state that it does not touch.
pub record Skipped (goal : List Tk) (p p' : Parenthesizer) : Type 0 where
  pub keeps : Keeps goal p'.head p'.lists
  pub fewer : length p'.head ≤ length p.head
  pub finished_is : p'.finished ≡ p.finished

module _ (parenthesize : List Tk → Ending (List Tk)) (goal : List Tk) (n : ℕ) (p : Parenthesizer)
    (k : Keeps goal p.head p.lists)
    (parenthesizes : (ts : List Tk)
      → length ts < length p.head
      → Ensures (λ us. strip us ≡ strip ts) (parenthesize ts)) where
  inside :
      (ts : List Tk)
      → p.head ≡ ts
      → Group paren ts n
      → Ensures (Skipped goal p) (
          parenthesize (contained (find_scope paren (take n p.head)) p.head) >>= λ us.
          ok (record p { head = drop n p.head; lists = output_push_all us p.lists }))
  inside ts e g =
      let o = g.open_token in
      let c = g.close_token in
      let inner = g.inner in
      let rest = g.rest in
      let head_is : p.head ≡ o ∷ inner ++ c ∷ rest = e ∙ g.tokens_are in
      let inner_is : contained (find_scope paren (take n p.head)) p.head ≡ inner =
        rw (head_is, g.end_is) (inner_found o c inner rest g.opens_it g.closes_it g.balanced) in
      let rest_is : drop n p.head ≡ rest = rw (head_is, g.end_is) (drop_found o c inner rest) in
      let size : length p.head ≡ length (o ∷ inner ++ c ∷ rest) = ap length head_is in
      let sum = length-append inner (c ∷ rest) in
      bind-Ensures (λ us. strip us ≡ strip inner) (Skipped goal p)
        (parenthesize (contained (find_scope paren (take n p.head)) p.head))
        (λ us. ok (record p { head = drop n p.head; lists = output_push_all us p.lists }))
        (rw inner_is (parenthesizes inner (omega arith)))
        (λ us same. record {
          keeps =
              push_all-Keeps goal p.head us (drop n p.head) p.lists
                (rw (rest_is, same)
                  (ap strip head_is ∙ strip_group o c inner rest g.opens_it g.closes_it g.balanced))
                k;
          fewer = rw rest_is (omega arith);
          finished_is = refl;
        })

  -- A head that is no operand is skipped as parentheses, or not at all.
  not_operand :
      (type_is ETk.open_paren_ (first_token p.head) ≡ true → Group paren p.head n)
      → Ensures (Skipped goal p) (
          if type_is ETk.open_paren_ (first_token p.head)
          then (let s = find_paren (take n p.head) in
              if s.valid
              then (parenthesize (contained s p.head) >>= λ inner.
                  ok (record p { head = drop n p.head; lists = output_push_all inner p.lists }))
              else throws mismatched_operand)
          else ok p)
  not_operand g =
      if-Ensures (Skipped goal p) (type_is ETk.open_paren_ (first_token p.head)) _ _
        (λ opening.
          if-Ensures (Skipped goal p) (find_paren (take n p.head)).valid _ _
            (λ valid. inside p.head refl (g opening)) (λ invalid. tt))
        (λ other. record { keeps = k; fewer = omega arith; finished_is = refl })

  operand-Skipped :
      (t : Tk) (ts : List Tk)
      → p.head ≡ t ∷ ts
      → Skipped goal p
          (record p { head = drop 1 p.head; lists = output_push_back (first_token p.head) p.lists })
  unfolding output_push_all
  operand-Skipped t ts e = record {
    keeps =
        push_all-Keeps goal p.head (first_token p.head ∷ []) (drop 1 p.head) p.lists
          (rw e (strip-append (t ∷ []) ts)) k;
    fewer = rw e (omega arith);
    finished_is = refl;
  }

  by_role :
      (r : Role) (t : Tk) (ts : List Tk)
      → p.head ≡ t ∷ ts
      → (type_is ETk.open_paren_ (first_token p.head) ≡ true → Group paren p.head n)
      → role (first_token p.head) ≡ r
      → Ensures (Skipped goal p) (action_skip parenthesize n p)
  unfolding action_skip
  by_role operand t ts e g r = rw (r, action_skip) (operand-Skipped t ts e)
  by_role prefix t ts e g r = rw (r, action_skip) (not_operand g)
  by_role postfix t ts e g r = rw (r, action_skip) (not_operand g)
  by_role binary t ts e g r = rw (r, action_skip) (not_operand g)
  by_role no_role t ts e g r = rw (r, action_skip) (not_operand g)

  pub action_skip-Skipped :
      (t : Tk) (ts : List Tk)
      → p.head ≡ t ∷ ts
      → (type_is ETk.open_paren_ (first_token p.head) ≡ true → Group paren p.head n)
      → Ensures (Skipped goal p) (action_skip parenthesize n p)
  action_skip-Skipped t ts e g = by_role (role (first_token p.head)) t ts e g refl
