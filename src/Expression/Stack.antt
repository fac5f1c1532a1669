-- ===== src/Expression/Stack.antt =====
-- The closures of a closure list: operators above the sentinel. The searches through them end in
-- front of the sentinel at the latest.
use cand_lang_proto.Base.{
  ℕ, ◌<◌, ◌≤◌, true, false, ◌==◌, ==_iff, List, [], ◌∷◌, length, ◌≡◌, refl, sym, ap, ◌∙◌,
  Bool-cases, inl, inr, arith,
}
use cand_lang_proto.Syntax.TokenKind.{ETk}
use cand_lang_proto.Syntax.Equality.{tk_eq_iff}
use cand_lang_proto.Syntax.Operators.{EPriority, priority_value}
use cand_lang_proto.Expression.Outcome.{Ending, Ensures, bind-Ensures}
use cand_lang_proto.Expression.Parse.{role}
use cand_lang_proto.Expression.Closure.{Closure, level}
use cand_lang_proto.Expression.ClosureList.{
  Run, extend, add_found, find_backward_consecutive, find_backward_consecutive_and_ignore,
  same_priority, has_priority, is_unary, pop_if_level, earliest, skip_priority, first_is_none,
}
use cand_lang_proto.Expression.OperatorLevels.{acts, operator_level, none_level}
use cand_lang_proto.Expression.Strip.{Placed}

-- A closure of an operator, which does not start at the sentinel.
pub record IsOperator (c : Closure) : Type 0 where
  pub acts_on : acts (role c.front.tk) ≡ true
  pub placed : 0 < c.front.id

pub data Stacked : List Closure → Type 0 where
  base : (c : Closure) → c.front.tk.kind ≡ ETk.none_ → Stacked (c ∷ [])
  above : (c : Closure) (cs : List Closure) → IsOperator c → Stacked cs → Stacked (c ∷ cs)

-- What the searches for consecutive closures give, from the last closure `c` on.
pub record FoundRun (c : Closure) (cs : List Closure) (r : Run) : Type 0 where
  pub others : List Closure
  pub before : Closure
  pub more : List Closure
  pub found_is : r.found ≡ c ∷ others
  pub rest_is : r.rest ≡ before ∷ more
  pub placed : Placed (c ∷ others)
  pub stacked : Stacked (before ∷ more)
  pub shorter : length (before ∷ more) ≤ length cs
  pub same_level : level (earliest c others) ≡ level c

-- The closure in front of `c` has another priority, and the run ends.
run_ends :
    (c d : Closure) (cs : List Closure)
    → IsOperator c
    → Stacked (d ∷ cs)
    → FoundRun c (d ∷ cs) (record { found = c ∷ []; rest = d ∷ cs })
run_ends c d cs o s = record {
  others = [];
  before = d;
  more = cs;
  found_is = refl;
  rest_is = refl;
  placed = (o.placed, tt);
  stacked = s;
  shorter = omega arith;
  same_level = refl;
}

run_goes_on :
    (c d : Closure) (cs : List Closure) (r : Run)
    → IsOperator c
    → level c ≡ level d
    → FoundRun d cs r
    → FoundRun c (d ∷ cs) (record { found = c ∷ r.found; rest = r.rest })
run_goes_on c d cs r o e f = record {
  others = d ∷ f.others;
  before = f.before;
  more = f.more;
  found_is = ap (◌∷◌ c) f.found_is;
  rest_is = f.rest_is;
  placed = (o.placed, f.placed);
  stacked = f.stacked;
  shorter = let h = f.shorter in omega arith;
  same_level = f.same_level ∙ sym e;
}

extend-FoundRun :
    (c d : Closure) (cs : List Closure) (m : Ending Run)
    → IsOperator c
    → Stacked (d ∷ cs)
    → (level c ≡ level d → Ensures (FoundRun d cs) m)
    → Ensures (FoundRun c (d ∷ cs)) (extend same_priority c (d ∷ cs) m)
extend-FoundRun c d cs m o s h = elim (Bool-cases (same_priority c d)) [
  | inl e ↦
      let same = (==_iff (level c) (level d)).0 e in
      rw (e, extend)
        (bind-Ensures (FoundRun d cs) (FoundRun c (d ∷ cs)) m (add_found c) (h same)
          (λ r f. run_goes_on c d cs r o same f))
  | inr e ↦ rw (e, extend) (run_ends c d cs o s)
]

-- An operator's priority is above the sentinel's.
above_base : (c b : Closure) → IsOperator c → b.front.tk.kind ≡ ETk.none_ → level c ≡ level b → ⊥
above_base c b o e same = omega (arith, operator_level c o.acts_on, none_level b e)

pub consecutive-FoundRun :
    (c : Closure) (cs : List Closure)
    → IsOperator c
    → Stacked cs
    → Ensures (FoundRun c cs) (find_backward_consecutive same_priority (c ∷ cs))
unfolding find_backward_consecutive
consecutive-FoundRun c _ o (base b e) =
    extend-FoundRun c b [] (find_backward_consecutive same_priority (b ∷ [])) o (base b e)
      (λ same. absurd (above_base c b o e same))
consecutive-FoundRun c _ o (above d ds o' s) =
    extend-FoundRun c d ds _ o (above d ds o' s) (λ same. consecutive-FoundRun d ds o' s)

pub ignoring-FoundRun :
    (c : Closure) (cs : List Closure)
    → IsOperator c
    → is_unary c ≡ false
    → Stacked cs
    → Ensures (FoundRun c cs) (find_backward_consecutive_and_ignore same_priority is_unary (c ∷ cs))
unfolding find_backward_consecutive_and_ignore
ignoring-FoundRun c _ o u (base b e) =
    rw (u, find_backward_consecutive_and_ignore)
      (extend-FoundRun c b [] _ o (base b e) (λ same. absurd (above_base c b o e same)))
ignoring-FoundRun c _ o u (above d ds o' s) =
    rw (u, find_backward_consecutive_and_ignore)
      (extend-FoundRun c d ds _ o (above d ds o' s)
        (λ same. ignoring-FoundRun d ds o' (rw same at u) s))

pub skip_priority-Stacked :
    (p : EPriority) (cs : List Closure)
    → 0 < priority_value p
    → Stacked cs
    → Ensures Stacked (skip_priority p cs)
unfolding skip_priority
skip_priority-Stacked p _ h (base b e) =
    let other : has_priority p b ≡ false = ground (arith, none_level b e) in
    rw (other, skip_priority) (base b e)
skip_priority-Stacked p _ h (above d ds o s) = elim (Bool-cases (has_priority p d)) [
  | inl e ↦ rw (e, skip_priority) (skip_priority-Stacked p ds h s)
  | inr e ↦ rw (e, skip_priority) (above d ds o s)
]

pub pop_if_level-Stacked :
    (p : ℕ) (cs : List Closure)
    → 0 < p
    → Stacked cs
    → Stacked (pop_if_level p cs) × (length (pop_if_level p cs) ≤ length cs)
unfolding pop_if_level
pop_if_level-Stacked p _ h (base b e) =
    let other : (level b == p) ≡ false = ground (arith, none_level b e) in
    rw (other, pop_if_level) (base b e, omega arith)
pop_if_level-Stacked p _ h (above d ds o s) =
    let (kept, fewer) = pop_if_level-Stacked p ds h s in
    elim (Bool-cases (level d == p)) [
      | inl e ↦ rw (e, pop_if_level) (kept, omega arith)
      | inr e ↦ rw (e, pop_if_level) (above d (pop_if_level p ds) o kept, omega arith)
    ]

pub first_is_none_lem : (cs : List Closure) → Stacked cs → first_is_none cs ≡ true
first_is_none_lem _ (base b e) = (tk_eq_iff b.front.tk.kind ETk.none_).1 e
first_is_none_lem _ (above c _ o (base b e)) = (tk_eq_iff b.front.tk.kind ETk.none_).1 e
first_is_none_lem _ (above c _ o (above d ds o' s)) = first_is_none_lem (d ∷ ds) (above d ds o' s)

pub Stacked-nonempty :
    (cs : List Closure) → Stacked cs → (c : Closure) × (ds : List Closure) × (cs ≡ c ∷ ds)
Stacked-nonempty _ (base b e) = (b, [], refl)
Stacked-nonempty _ (above c ds o s) = (c, ds, refl)
