-- ===== src/Expression/Resolve.antt =====
-- Every resolution of a closure list whose closures are operators above the sentinel takes a closure
-- away at least, and leaves the tokens apart from parentheses.
use cand_lang_proto.Base.{
  ℕ, suc, ◌-◌, ◌<◌, ◌≤◌, true, false, ◌==◌, leb, ltb, ltb→lt, List, ◌∷◌, length, ◌≡◌, ◌≢◌, refl,
  Bool-cases, inl, inr, arith, if◌then◌else◌,
}
use cand_lang_proto.Syntax.Operators.{EAssoc, EPriority, priority_value}
use cand_lang_proto.Syntax.Token.{Tk, assoc}
use cand_lang_proto.Expression.Outcome.{ok, ◌>>=◌, Ensures, bind-Ensures}
use cand_lang_proto.Expression.Parse.{Role, operand, prefix, postfix, binary, no_role, role}
use cand_lang_proto.Expression.Closure.{Closure, level, token_level}
use cand_lang_proto.Expression.ClosureList.{
  ClosureList, Run, postfix_run, binary_run, surround_left, surround_right, same_priority, is_unary,
  find_backward_consecutive, find_backward_consecutive_and_ignore, resolve_postfix,
  resolve_binary_left_associative, resolve_binary_right_associative, resolve_binary_single,
  resolve_binary, resolve_prefix, resolve_next, skip_priority, enclose_at, enclose, pop_if_level,
  earliest, asserted,
}
use cand_lang_proto.Expression.OperatorLevels.{
  acts, operator_level, binary-opens_scope, binary-is_unary, binary-assoc,
}
use cand_lang_proto.Expression.Strip.{
  Writes, Placed, enclose-Writes, open_before-Writes, surround_postfix-Writes, surround_left-Writes,
  surround_right-Writes,
}
use cand_lang_proto.Expression.Stack.{
  IsOperator, Stacked, base, above, FoundRun, consecutive-FoundRun, ignoring-FoundRun,
  skip_priority-Stacked, pop_if_level-Stacked, first_is_none_lem, Stacked-nonempty,
}

-- What a resolution of a list of at most `n + 1` closures gives.
pub record Resolved (n : ℕ) (ts : List Tk) (l : ClosureList) : Type 0 where
  pub stacked : Stacked l.closures
  pub shorter : length l.closures ≤ n
  pub writes : Writes l ts

module _ (l : ClosureList) (ts : List Tk) (c : Closure) (cs : List Closure)
    (closures_are : l.closures ≡ c ∷ cs) (o : IsOperator c) (s : Stacked cs) (w : Writes l ts) where
  postfix-Resolved :
      (r : Run) → FoundRun c cs r → Ensures (Resolved (length cs) ts) (postfix_run l r)
  postfix-Resolved r f =
      rw (f.rest_is, postfix_run)
        (record {
          stacked = rw f.rest_is f.stacked;
          shorter = rw f.rest_is f.shorter;
          writes = surround_postfix-Writes f.before r.found l ts w;
        })

  resolve_postfix-Resolved : Ensures (Resolved (length cs) ts) (resolve_postfix l)
  unfolding resolve_postfix
  resolve_postfix-Resolved =
      bind-Ensures (FoundRun c cs) (Resolved (length cs) ts)
        (find_backward_consecutive same_priority l.closures) (postfix_run l)
        (rw closures_are (consecutive-FoundRun c cs o s)) postfix-Resolved

  -- The last closure has the level that is popped, so that it is popped itself.
  popped :
      (p : ℕ)
      → p ≡ level c
      → Stacked (pop_if_level p l.closures) × (length (pop_if_level p l.closures) ≤ length cs)
  unfolding pop_if_level
  popped p e =
      let positive : 0 < p = omega (arith, operator_level c o.acts_on) in
      let test : (level c == p) ≡ true = ground arith in
      rw closures_are (rw (test, pop_if_level) (pop_if_level-Stacked p cs positive s))

  module _ (surround : Closure → Closure → List Closure → ClosureList → ClosureList)
      (keeps : (b d : Closure) (ds : List Closure) (l' : ClosureList)
        → Placed (d ∷ ds)
        → Writes l' ts
        → Writes (surround b d ds l') ts) where
    binary-Resolved :
        (r : Run) → FoundRun c cs r → Ensures (Resolved (length cs) ts) (binary_run surround l r)
    binary-Resolved r f =
        let (stacked, shorter) = popped (level (earliest c f.others)) f.same_level in
        rw (f.found_is, f.rest_is, binary_run)
          (record {
            stacked = stacked;
            shorter = shorter;
            writes =
                keeps f.before c f.others (enclose f.before l) f.placed
                  (enclose-Writes f.before l ts w);
          })

    ignoring-Resolved :
        is_unary c ≡ false
        → Ensures (Resolved (length cs) ts) (
            find_backward_consecutive_and_ignore same_priority is_unary l.closures
            >>= binary_run surround l)
    ignoring-Resolved u =
        bind-Ensures (FoundRun c cs) (Resolved (length cs) ts)
          (find_backward_consecutive_and_ignore same_priority is_unary l.closures)
          (binary_run surround l) (rw closures_are (ignoring-FoundRun c cs o u s)) binary-Resolved

  single-Resolved : Ensures (Resolved (length cs) ts) (resolve_binary_single l cs)
  unfolding resolve_binary_single priority_value
  single-Resolved =
      bind-Ensures Stacked (Resolved (length cs) ts)
        (skip_priority EPriority.postfix_ cs >>= skip_priority EPriority.prefix_) (enclose_at l cs)
        (bind-Ensures Stacked Stacked (skip_priority EPriority.postfix_ cs)
          (skip_priority EPriority.prefix_)
          (skip_priority-Stacked EPriority.postfix_ cs (omega arith) s)
          (λ ds. skip_priority-Stacked EPriority.prefix_ ds (omega arith)))
        enclosed
    where
      enclosed :
          (ds : List Closure) → Stacked ds → Ensures (Resolved (length cs) ts) (enclose_at l cs ds)
      enclosed _ (base b e) = record {
        stacked = s;
        shorter = omega arith;
        writes = enclose-Writes b l ts w;
      }
      enclosed _ (above d ds o' s') = record {
        stacked = s;
        shorter = omega arith;
        writes = enclose-Writes d l ts w;
      }

  two_at_least : leb 2 (suc (length cs)) ≡ true
  two_at_least = at_least cs s
    where
      at_least : (ds : List Closure) → Stacked ds → leb 2 (suc (length ds)) ≡ true
      at_least _ (base b e) = ground arith
      at_least _ (above d ds o' s') = ground arith

  asserted_lem : asserted l ≡ true
  asserted_lem = rw closures_are (rw two_at_least (first_is_none_lem (c ∷ cs) (above c cs o s)))

  resolve_prefix-Resolved : Ensures (Resolved (length cs) ts) (resolve_prefix l)
  unfolding resolve_prefix
  resolve_prefix-Resolved =
      rw (asserted_lem, resolve_prefix)
        (rw closures_are (record {
          stacked = s;
          shorter = omega arith;
          writes = open_before-Writes c l ts o.placed w;
        }))

  associated :
      (a : EAssoc)
      → is_unary c ≡ false
      → a ≢ EAssoc.none_
      → Ensures (Resolved (length cs) ts) (elim a [
        | EAssoc.left_ ↦ resolve_binary_left_associative l
        | EAssoc.right_ ↦ resolve_binary_right_associative l
        | EAssoc.none_ ↦ ok l
      ])
  unfolding resolve_binary_left_associative resolve_binary_right_associative
  associated EAssoc.left_ u h =
      ignoring-Resolved surround_left (λ b d ds l' p w'. surround_left-Writes b d ds l' ts p w') u
  associated EAssoc.right_ u h =
      ignoring-Resolved (λ b d ds. surround_right ds)
        (λ b d ds l' p w'. surround_right-Writes ds l' ts w') u
  associated EAssoc.none_ u h = absurd (h refl)

  binary_branches :
      (d : Closure) (ds : List Closure)
      → cs ≡ d ∷ ds
      → resolve_binary l ≡ (
          if level d == token_level c.front.tk
          then elim (assoc c.front.tk) [
            | EAssoc.left_ ↦ resolve_binary_left_associative l
            | EAssoc.right_ ↦ resolve_binary_right_associative l
            | EAssoc.none_ ↦ ok l
          ]
          else resolve_binary_single l cs)
  unfolding resolve_binary
  binary_branches d ds e = rw (asserted_lem, resolve_binary) (simp (closures_are, e))

  resolve_binary-Resolved :
      role c.front.tk ≡ binary → Ensures (Resolved (length cs) ts) (resolve_binary l)
  resolve_binary-Resolved e =
      let (d, ds, cs_are) = Stacked-nonempty cs s in
      elim (Bool-cases (level d == token_level c.front.tk)) [
        | inl same ↦
            rw (binary_branches d ds cs_are)
              (rw same (associated (assoc c.front.tk) (binary-is_unary c e) (binary-assoc c e)))
        | inr differs ↦ rw (binary_branches d ds cs_are) (rw differs single-Resolved)
      ]

  by_role :
      (r : Role)
      → role c.front.tk ≡ r
      → acts r ≡ true
      → Ensures (Resolved (length cs) ts) (resolve_next l)
  unfolding resolve_next
  by_role operand e a = cc
  by_role no_role e a = cc
  by_role prefix e a = rw (closures_are, resolve_next) (rw e resolve_prefix-Resolved)
  by_role postfix e a = rw (closures_are, resolve_next) (rw e resolve_postfix-Resolved)
  by_role binary e a =
      rw (closures_are, resolve_next)
        (rw e (rw (binary-opens_scope c e) (resolve_binary-Resolved e)))

  resolve_last-Resolved : Ensures (Resolved (length cs) ts) (resolve_next l)
  resolve_last-Resolved = by_role (role c.front.tk) refl o.acts_on

-- The resolutions leave nothing out of a list of closures above the sentinel.
pub resolve_next-Resolved :
    (l : ClosureList) (ts : List Tk)
    → Stacked l.closures
    → ltb 1 (length l.closures) ≡ true
    → Writes l ts
    → Ensures (Resolved (length l.closures - 1) ts) (resolve_next l)
resolve_next-Resolved l ts s more w = next l.closures refl s more
  where
    next :
        (cs : List Closure)
        → l.closures ≡ cs
        → Stacked cs
        → ltb 1 (length cs) ≡ true
        → Ensures (Resolved (length l.closures - 1) ts) (resolve_next l)
    next _ e (base b h) t = absurd (omega (arith, ltb→lt 1 1 t))
    next _ e (above c ds o t) u =
        let size : length l.closures - 1 ≡ length ds = rw e (omega arith) in
        rw size (resolve_last-Resolved l ts c ds e o t w)
