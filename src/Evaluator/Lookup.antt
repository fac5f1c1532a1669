-- ===== src/Evaluator/Lookup.antt =====
-- What a name stands for after an environment's variables are created, set or deleted.
use cand_lang_proto.Base.{
  ℕ, Bool, true, false, not, ◌&&◌, List, [], ◌∷◌, Option, none, some, Option-cases, ◌≡◌, refl, ap,
  inl, inr, arith, if◌then◌else◌,
}
use cand_lang_proto.Syntax.Token.{literal_eq}
use cand_lang_proto.Syntax.Equality.{literal_eq_iff}
use cand_lang_proto.Evaluator.Environment.{
  Variable, Rtenv, find_variable, assign, erase, create_variable, resolve_variable, set_variable,
  delete_variable, set_variables,
}

abbrev pub is_some {ℓ} : {A : Type ℓ} → Option A → Bool
is_some none = false
is_some (some a) = true

module _ {ℓ} {V : Type ℓ} where
  find-assign :
      (n j : List ℕ) (v : V) (xs : List (Variable V))
      → find_variable j (assign n v xs)
        ≡ (if literal_eq n j && is_some (find_variable n xs) then some v else find_variable j xs)
  unfolding find_variable assign
  find-assign n j v [] = ground arith
  find-assign n j v (x ∷ xs) = ground (
    arith,
    literal_eq_iff n j,
    literal_eq_iff x.name n,
    literal_eq_iff x.name j,
    find-assign n j v xs,
  )

  -- A name that is set stands for the new value, if it stood for one, in whichever environment that
  -- was, and every other name stands for what it did. The call succeeds exactly if the name stood for
  -- a value.
  pub resolve-set :
      (n j : List ℕ) (v : V) (envs : List (Rtenv V))
      → (resolve_variable j (set_variable n v envs).0 ≡ (
          if literal_eq n j && is_some (resolve_variable n envs)
          then some v
          else resolve_variable j envs))
        × ((set_variable n v envs).1 ≡ is_some (resolve_variable n envs))
  unfolding resolve_variable set_variable
  resolve-set n j v [] = (ground arith, refl)
  resolve-set n j v (e ∷ es) = (
    ground (arith, literal_eq_iff n j, find-assign n j v e.variables, (resolve-set n j v es).0),
    ground (arith, (resolve-set n j v es).1),
  )

  -- A name that is created stands for the new value, unless the innermost environment has it already;
  -- every other name stands for what it did. The result tells which of the two it was.
  pub resolve-create :
      (n j : List ℕ) (v : V) (e : Rtenv V) (es : List (Rtenv V))
      → (resolve_variable j (create_variable n v (e ∷ es)).0 ≡ (
          if literal_eq n j && not (is_some (find_variable n e.variables))
          then some v
          else resolve_variable j (e ∷ es)))
        × ((create_variable n v (e ∷ es)).1 ≡ not (is_some (find_variable n e.variables)))
  unfolding resolve_variable create_variable find_variable
  resolve-create n j v e es = (ground (arith, literal_eq_iff n j), ground arith)

  -- The variables of an environment have different names, and so for its parents.
  abbrev pub Distinct : List (Variable V) → Type 0
  Distinct [] = Unit
  Distinct (x ∷ xs) = (is_some (find_variable x.name xs) ≡ false) × Distinct xs

  abbrev pub IsWellFormed : List (Rtenv V) → Type 0
  IsWellFormed [] = Unit
  IsWellFormed (e ∷ es) = Distinct e.variables × IsWellFormed es

  find-erase :
      (n j : List ℕ) (xs : List (Variable V))
      → Distinct xs
      → find_variable j (erase n xs) ≡ (if literal_eq n j then none else find_variable j xs)
  unfolding find_variable erase
  find-erase n j [] d = ground arith
  find-erase n j (x ∷ xs) d = ground (
    arith,
    literal_eq_iff n j,
    literal_eq_iff x.name n,
    literal_eq_iff x.name j,
    find-erase n j xs d.1,
    d.0,
  )

  -- What the name stands for outside of the environment that owns it.
  abbrev pub outer_value : List ℕ → List (Rtenv V) → Option V
  outer_value n [] = none
  outer_value n (e ∷ es) = elim (find_variable n e.variables) [
    | some _ ↦ resolve_variable n es
    | none ↦ outer_value n es
  ]

  -- A name that is deleted stands for what it did outside of the environment that owned it; every
  -- other name stands for what it did.
  pub resolve-delete :
      (n j : List ℕ) (envs : List (Rtenv V))
      → IsWellFormed envs
      → resolve_variable j (delete_variable n envs).0
        ≡ (if literal_eq n j then outer_value n envs else resolve_variable j envs)
  unfolding resolve_variable delete_variable
  resolve-delete n j [] w = ground arith
  resolve-delete n j (e ∷ es) w =
      ground (arith, literal_eq_iff n j, find-erase n j e.variables w.0, resolve-delete n j es w.1)

  delete_first :
      (n : List ℕ) (v : V) (e : Rtenv V) (es : List (Rtenv V))
      → delete_variable n (set_variables (record { name = n; value = v } ∷ e.variables) e ∷ es)
        ≡ (e ∷ es, true)
  unfolding delete_variable find_variable erase
  delete_first n v e es = ground (arith, literal_eq_iff n n)

  delete_created :
      (n : List ℕ) (v : V) (e : Rtenv V) (es : List (Rtenv V))
      → (create_variable n v (e ∷ es)).1 ≡ true
      → delete_variable n (create_variable n v (e ∷ es)).0 ≡ (e ∷ es, true)
  unfolding create_variable
  delete_created n v e es h = elim (Option-cases (find_variable n e.variables)) [
    | inl f ↦ rw (f, create_variable) (delete_first n v e es)
    | inr (u, f) ↦ absurd (cc (rw (f, create_variable) at h))
  ]

  -- After a variable is created and deleted again, every name stands for what it did before, and the
  -- deletion succeeds.
  pub delete-create :
      (n j : List ℕ) (v : V) (e : Rtenv V) (es : List (Rtenv V))
      → (create_variable n v (e ∷ es)).1 ≡ true
      → (resolve_variable j (delete_variable n (create_variable n v (e ∷ es)).0).0
          ≡ resolve_variable j (e ∷ es))
        × ((delete_variable n (create_variable n v (e ∷ es)).0).1 ≡ true)
  delete-create n j v e es h =
      let back = delete_created n v e es h in
      (ap (λ r. resolve_variable j r.0) back, ap (λ r. r.1) back)
