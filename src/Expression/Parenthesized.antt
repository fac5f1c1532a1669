-- ===== src/Expression/Parenthesized.antt =====
-- `parenthesize_expression` ends, with the tokens of the expression in their order.
use cand_lang_proto.Base.{
  ℕ, zero, suc, ◌+◌, ◌*◌, ◌<◌, Bool, true, false, List, [], ◌∷◌, ◌++◌, length, drop, map, Option,
  none, some, append-nil, ◌==◌, ◌≡◌, refl, sym, ap, ◌∙◌, arith, Bool-cases, inl, inr,
}
use cand_lang_proto.Syntax.Token.{Tk}
use cand_lang_proto.Expression.Outcome.{Ending, ok, ◌>>=◌, Ensures, bind-Ensures, if-Ensures}
use cand_lang_proto.Expression.Closure.{Node}
use cand_lang_proto.Expression.Parenthesizer.{
  Parenthesizer, ExpectedHead, operative_, operator_, parenthesizer, sentinel_closure,
  choose_action, choose_operative, choose_operator, parenthesize_loop, action_check_end,
  parenthesized, parenthesize_within, parenthesize_expression,
}
use cand_lang_proto.Expression.Strip.{body, strip, strip_nodes, strip_nodes_lem}
use cand_lang_proto.Expression.Stack.{base}
use cand_lang_proto.Expression.Actions.{Keeps, action_check_end-Keeps}
use cand_lang_proto.Expression.Rounds.{measure, rounds_left, Progress}
use cand_lang_proto.Expression.Operands.{Parenthesizes, by_expected}

-- The end of the loop: all tokens are written.
abbrev Written : List Tk → Parenthesizer → Type 0
Written goal p = Keeps goal p.head p.lists × (p.head ≡ [])

module _ (parenthesize : List Tk → Ending (List Tk)) (goal : List Tk) where
  last_Round :
      (p : Parenthesizer)
      → p.finished ≡ false
      → p.head ≡ []
      → Keeps goal p.head p.lists
      → Ensures (Progress goal p) (action_check_end p >>= λ p'. ok (record p' { finished = true }))
  last_Round p going e k =
      bind-Ensures (λ (p' : Parenthesizer). Keeps goal p.head p'.lists × (p'.head ≡ p.head))
        (Progress goal p) (action_check_end p) (λ p'. ok (record p' { finished = true }))
        (action_check_end-Keeps goal p k)
        (λ p' h. record {
          keeps = rw h.1 h.0;
          fewer = rw h.1 (omega arith);
          falls = positive p.finished p.expected_head going;
          ended = λ f. h.1 ∙ e;
        })
    where
      positive : (f : Bool) (x : ExpectedHead) → f ≡ false → 0 < measure f x (length p.head)
      positive true x h = cc
      positive false operative_ h = omega arith
      positive false operator_ h = omega arith

  choose_action-Progress :
      (p : Parenthesizer)
      → p.finished ≡ false
      → Keeps goal p.head p.lists
      → Parenthesizes (length p.head) parenthesize
      → Ensures (Progress goal p) (choose_action parenthesize p)
  unfolding choose_action
  choose_action-Progress p going k h = by_head p.head refl
    where
      by_head :
          (ts : List Tk)
          → p.head ≡ ts
          → Ensures (Progress goal p) (elim ts [
            | [] ↦ action_check_end p >>= λ p'. ok (record p' { finished = true })
            | _ ∷ _ ↦ elim p.expected_head [
              | operative_ ↦ choose_operative parenthesize p
              | operator_ ↦ choose_operator p
            ]
          ])
      by_head [] e = last_Round p going e k
      by_head (t ∷ ts) e = by_expected parenthesize goal p going t ts e k h p.expected_head refl

  -- The loop ends while the fuel is above the rounds that are left.
  parenthesize_loop-Written :
      (fuel : ℕ) (p : Parenthesizer)
      → rounds_left p < fuel
      → (p.finished ≡ true → p.head ≡ [])
      → Keeps goal p.head p.lists
      → Parenthesizes (length p.head) parenthesize
      → Ensures (Written goal) (parenthesize_loop parenthesize fuel p)
  unfolding parenthesize_loop
  parenthesize_loop-Written zero p h e k s = absurd (omega arith)
  parenthesize_loop-Written (suc fuel) p h e k s =
      if-Ensures (Written goal) p.finished _ _ (λ done. (k, e done))
        (λ going.
          bind-Ensures (Progress goal p) (Written goal) (choose_action parenthesize p)
            (parenthesize_loop parenthesize fuel) (choose_action-Progress p going k s)
            (λ p' r.
              let fewer = r.fewer in
              let falls = r.falls in
              parenthesize_loop-Written fuel p' (omega arith) r.ended r.keeps
                (λ ts l. s ts (omega arith))))

start-Keeps : (ts : List Tk) → Keeps (strip ts) (parenthesizer ts).head (parenthesizer ts).lists
unfolding parenthesizer strip_nodes
start-Keeps ts = record {
  written = [];
  writes = (refl, omega arith);
  rejoined = refl;
  stacked = base sentinel_closure refl;
}

body_tokens :
    (ns : List Node) (ts : List Tk)
    → body ns ≡ some ts
    → strip (map (λ (n : Node). n.tk) (drop 1 ns)) ≡ ts
body_tokens [] ts e = cc
body_tokens (n ∷ ns) ts e = elim (Bool-cases (n.id == 0)) [
  | inl f ↦ sym (strip_nodes_lem ns) ∙ some_injective (rw f at e)
  | inr f ↦ absurd (none_some (rw f at e))
]
  where
    some_injective : {us vs : List Tk} → ◌≡◌ {A = Option (List Tk)} (some us) (some vs) → us ≡ vs
    some_injective h = cc

    none_some : {us : List Tk} → ◌≡◌ {A = Option (List Tk)} none (some us) → ⊥
    none_some h = cc

parenthesized_lem :
    (goal : List Tk) (p : Parenthesizer) → Written goal p → strip (parenthesized p) ≡ goal
unfolding parenthesized strip
parenthesized_lem goal p w =
    body_tokens p.lists.output w.0.written w.0.writes.0
    ∙ sym (append-nil w.0.written)
    ∙ ap (λ ts. w.0.written ++ strip ts) (sym w.1)
    ∙ w.0.rejoined

parenthesize_within-strip : (fuel : ℕ) → Parenthesizes fuel (parenthesize_within fuel)
unfolding parenthesize_within parenthesizer
parenthesize_within-strip zero ts h = absurd (omega arith)
parenthesize_within-strip (suc fuel) ts h =
    bind-Ensures (Written (strip ts)) (λ us. strip us ≡ strip ts)
      (parenthesize_loop (parenthesize_within fuel) (2 * length ts + 3) (parenthesizer ts))
      (λ p. ok (parenthesized p))
      (parenthesize_loop-Written (parenthesize_within fuel) (strip ts) (2 * length ts + 3)
        (parenthesizer ts) (omega arith) (λ f. cc) (start-Keeps ts)
        (λ us l. parenthesize_within-strip fuel us (omega arith)))
      (λ p w. parenthesized_lem (strip ts) p w)

-- For every list of tokens `parenthesize_expression` either throws a text, or returns
-- tokens that are the same list, in the same order, apart from parentheses: no step of it reads in
-- front of the first closure or fails an assertion, and each of its loops ends.
pub parenthesize_expression-strip :
    (ts : List Tk) → Ensures (λ us. strip us ≡ strip ts) (parenthesize_expression ts)
unfolding parenthesize_expression
parenthesize_expression-strip ts = parenthesize_within-strip (suc (length ts)) ts (omega arith)
