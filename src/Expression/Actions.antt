-- ===== src/Expression/Actions.antt =====
-- The actions of a parenthesizer move tokens from its head to its output.
use cand_lang_proto.Base.{
  ℕ, suc, true, false, leb, List, [], ◌∷◌, ◌++◌, length, take, drop, take-append-drop, some,
  append_assoc, append-nil, ◌≡◌, refl, sym, ap, ◌∙◌, arith,
}
use cand_lang_proto.Syntax.Token.{Tk}
use cand_lang_proto.Expression.Outcome.{Ending, ok, undefined, Ensures, bind-Ensures, if-Ensures}
use cand_lang_proto.Expression.Parse.{role, first_token}
use cand_lang_proto.Expression.Closure.{Closure, level, token_level}
use cand_lang_proto.Expression.ClosureList.{ClosureList, output_push_back}
use cand_lang_proto.Expression.Parenthesizer.{
  Parenthesizer, ExpectedHead, output_push_all, action_store, action_check, action_check_end,
  store_or_check, resolve_all, resolve_higher, set_lists,
}
use cand_lang_proto.Expression.OperatorLevels.{acts}
use cand_lang_proto.Expression.Strip.{Writes, strip, strip-append, push-Writes}
use cand_lang_proto.Expression.Stack.{Stacked, base, above}
use cand_lang_proto.Expression.Resolve.{Resolved}
use cand_lang_proto.Expression.ResolveLoops.{resolve_all-Writes, resolve_higher-Writes}

-- The tokens that are written and those to come are `goal`, apart from parentheses.
pub record Keeps (goal head : List Tk) (l : ClosureList) : Type 0 where
  pub written : List Tk
  pub writes : Writes l written
  pub rejoined : written ++ strip head ≡ goal
  pub stacked : Stacked l.closures

output_push_all-closures :
    (ts : List Tk) (l : ClosureList) → (output_push_all ts l).closures ≡ l.closures
unfolding output_push_all output_push_back
output_push_all-closures [] l = refl
output_push_all-closures (t ∷ ts) l = output_push_all-closures ts (output_push_back t l)

output_push_all-Writes :
    (ts : List Tk) (l : ClosureList) (us : List Tk)
    → Writes l us
    → Writes (output_push_all ts l) (us ++ strip ts)
unfolding output_push_all
output_push_all-Writes [] l us w = unfold strip in rw (append-nil us) w
output_push_all-Writes (t ∷ ts) l us w =
    let joined : (us ++ strip (t ∷ [])) ++ strip ts ≡ us ++ strip (t ∷ ts) =
      append_assoc us (strip (t ∷ [])) (strip ts) ∙ ap (◌++◌ us) (sym (strip-append (t ∷ []) ts)) in
    let (written, positive) =
      output_push_all-Writes ts (output_push_back t l) (us ++ strip (t ∷ []))
        (push-Writes t l us w) in
    (written ∙ ap (λ ts'. some ts') joined, positive)

-- The tokens `moved` are taken from the head and written, up to parentheses.
pub push_all-Keeps :
    (goal head moved rest : List Tk) (l : ClosureList)
    → strip head ≡ strip moved ++ strip rest
    → Keeps goal head l
    → Keeps goal rest (output_push_all moved l)
push_all-Keeps goal head moved rest l e k = record {
  written = k.written ++ strip moved;
  writes = output_push_all-Writes moved l k.written k.writes;
  rejoined =
      append_assoc k.written (strip moved) (strip rest) ∙ ap (◌++◌ k.written) (sym e) ∙ k.rejoined;
  stacked = rw (output_push_all-closures moved l) k.stacked;
}

pub action_store-Keeps :
    (goal : List Tk) (n : ℕ) (p : Parenthesizer)
    → acts (role (first_token p.head)) ≡ true
    → Keeps goal p.head p.lists
    → Keeps goal (action_store n p).head (action_store n p).lists
unfolding action_store
action_store-Keeps goal n p a k =
    let split : strip p.head ≡ strip (take n p.head) ++ strip (drop n p.head) =
      ap strip (sym (take-append-drop n p.head)) ∙ strip-append (take n p.head) (drop n p.head) in
    let kept = push_all-Keeps goal p.head (take n p.head) (drop n p.head) p.lists split k in
    record {
      written = kept.written;
      writes = kept.writes;
      rejoined = kept.rejoined;
      stacked = above _ _ (record { acts_on = a; placed = k.writes.1 }) kept.stacked;
    }

-- A resolution leaves what is written.
Resolved-Keeps :
    (goal head : List Tk) (l l' : ClosureList) (n : ℕ) (k : Keeps goal head l)
    → Resolved n k.written l'
    → Keeps goal head l'
Resolved-Keeps goal head l l' n k r = record {
  written = k.written;
  writes = r.writes;
  rejoined = k.rejoined;
  stacked = r.stacked;
}

pub action_check_end-Keeps :
    (goal : List Tk) (p : Parenthesizer)
    → Keeps goal p.head p.lists
    → Ensures
        (λ (p' : Parenthesizer). Keeps goal p.head p'.lists × (p'.head ≡ p.head))
        (action_check_end p)
unfolding action_check_end
action_check_end-Keeps goal p k =
    bind-Ensures (Resolved 1 k.written)
      (λ (p' : Parenthesizer). Keeps goal p.head p'.lists × (p'.head ≡ p.head))
      (resolve_all (suc (length p.lists.closures)) p.lists) (λ l. ok (set_lists l p))
      (resolve_all-Writes (suc (length p.lists.closures)) p.lists k.written (omega arith) k.stacked
        k.writes)
      (λ l r. (Resolved-Keeps goal p.head p.lists l 1 k r, refl))

-- `n` tokens are taken from the head of `p`, and the next is expected to be `e`.
pub record Advanced (goal : List Tk) (p : Parenthesizer) (n : ℕ) (e : ExpectedHead)
    (p' : Parenthesizer) : Type 0 where
  pub keeps : Keeps goal p'.head p'.lists
  pub head_is : p'.head ≡ drop n p.head
  pub finished_is : p'.finished ≡ p.finished
  pub expects : p'.expected_head ≡ e

-- What a check or a store does before the next head is expected.
record Stored (goal : List Tk) (p : Parenthesizer) (n : ℕ) (p' : Parenthesizer) : Type 0 where
  keeps : Keeps goal p'.head p'.lists
  head_is : p'.head ≡ drop n p.head
  finished_is : p'.finished ≡ p.finished

module _ (goal : List Tk) (n : ℕ) (p : Parenthesizer) (a : acts (role (first_token p.head)) ≡ true)
    (k : Keeps goal p.head p.lists) where
  store_set_lists :
      (l : ClosureList) → Keeps goal p.head l → Stored goal p n (action_store n (set_lists l p))
  unfolding action_store
  store_set_lists l k' = record {
    keeps = action_store-Keeps goal n (set_lists l p) a k';
    head_is = refl;
    finished_is = refl;
  }

  above_head :
      (f : Closure → Ending Parenthesizer) (cs : List Closure)
      → Stacked cs
      → ((c : Closure) → Ensures (Stored goal p n) (f c))
      → Ensures (Stored goal p n) (elim cs [ [] ↦ undefined | c ∷ _ ↦ f c ])
  above_head f _ (base b e) h = h b
  above_head f _ (above c cs o s) h = h c

  checked : Ensures (Stored goal p n) (action_check n p)
  unfolding action_check
  checked =
      let size : ℕ = length p.lists.closures in
      let bound : ℕ = token_level (first_token p.head) in
      above_head _ p.lists.closures k.stacked (λ c.
        if-Ensures (Stored goal p n) (leb (level c) bound) _ _ (λ stores. store_set_lists p.lists k)
          (λ resolves.
            bind-Ensures (Resolved size k.written) (Stored goal p n)
              (resolve_higher (suc size) bound p.lists) (λ l. ok (action_store n (set_lists l p)))
              (resolve_higher-Writes (suc size) bound p.lists k.written size (omega arith)
                (omega arith) k.stacked k.writes)
              (λ l r. store_set_lists l (Resolved-Keeps goal p.head p.lists l size k r))))

  pub store_or_check-Advanced :
      (e : ExpectedHead) → Ensures (Advanced goal p n e) (store_or_check n e p)
  unfolding store_or_check
  store_or_check-Advanced e =
      if-Ensures (Advanced goal p n e) p.first_pass _ _
        (λ first. advanced (store_set_lists p.lists k))
        (λ later.
          bind-Ensures (Stored goal p n) (Advanced goal p n e) (action_check n p)
            (λ p'. ok (record p' { first_pass = false; expected_head = e })) checked
            (λ p' s. advanced s))
    where
      advanced :
          {p' : Parenthesizer}
          → Stored goal p n p'
          → Advanced goal p n e (record p' { first_pass = false; expected_head = e })
      advanced s = record {
        keeps = s.keeps;
        head_is = s.head_is;
        finished_is = s.finished_is;
        expects = refl;
      }
