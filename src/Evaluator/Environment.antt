-- ===== src/Evaluator/Environment.antt =====
-- Candi_Compiler/constant_evaluator.hpp, `class rtenv`. An environment with its parents is the list of
-- them, from itself outwards; a call changes the variables of the one that owns the name. The values
-- are of any type: an environment does not look into them.
use cand_lang_proto.Base.{ℕ, Bool, true, false, List, [], ◌∷◌, Option, none, some, if◌then◌else◌}
use cand_lang_proto.Syntax.Token.{literal_eq}

pub record Variable {ℓ} (V : Type ℓ) : Type ℓ where
  pub name : List ℕ
  pub value : V

-- An environment's own name, and `variables_`.
pub record Rtenv {ℓ} (V : Type ℓ) : Type ℓ where
  pub env_name : List ℕ
  pub variables : List (Variable V)

module _ {ℓ} {V : Type ℓ} where
  -- `std::map`'s `find`, `insert` of a new name, assignment to the value found, and `erase`.
  unfoldable pub find_variable : List ℕ → List (Variable V) → Option V
  find_variable n [] = none
  find_variable n (x ∷ xs) = if literal_eq x.name n then some x.value else find_variable n xs

  unfoldable pub assign : List ℕ → V → List (Variable V) → List (Variable V)
  assign n v [] = []
  assign n v (x ∷ xs) =
      if literal_eq x.name n then record { name = x.name; value = v } ∷ xs else x ∷ assign n v xs

  unfoldable pub erase : List ℕ → List (Variable V) → List (Variable V)
  erase n [] = []
  erase n (x ∷ xs) = if literal_eq x.name n then xs else x ∷ erase n xs

  abbrev pub set_variables : List (Variable V) → Rtenv V → Rtenv V
  set_variables xs e = record e { variables = xs }

  abbrev pub add_subenv : List ℕ → List (Rtenv V) → List (Rtenv V)
  add_subenv name envs = record { env_name = name; variables = [] } ∷ envs

  -- A name that the environment has itself is not created again; a parent's is shadowed. The Boolean
  -- is `valid`.
  unfoldable pub create_variable : List ℕ → V → List (Rtenv V) → List (Rtenv V) × Bool
  create_variable n v [] = ([], false)
  create_variable n v (e ∷ es) = elim (find_variable n e.variables) [
    | some _ ↦ (e ∷ es, false)
    | none ↦ (set_variables (record { name = n; value = v } ∷ e.variables) e ∷ es, true)
  ]

  -- `resolve_variable` and `get_variable`.
  unfoldable pub resolve_variable : List ℕ → List (Rtenv V) → Option V
  resolve_variable n [] = none
  resolve_variable n (e ∷ es) = elim (find_variable n e.variables) [
    | some v ↦ some v
    | none ↦ resolve_variable n es
  ]

  abbrev pub under : Rtenv V → List (Rtenv V) × Bool → List (Rtenv V) × Bool
  under e (es, done) = (e ∷ es, done)

  unfoldable pub set_variable : List ℕ → V → List (Rtenv V) → List (Rtenv V) × Bool
  set_variable n v [] = ([], false)
  set_variable n v (e ∷ es) =
      let outer = under e (set_variable n v es) in
      elim (find_variable n e.variables) [
        | some _ ↦ (set_variables (assign n v e.variables) e ∷ es, true)
        | none ↦ outer
      ]

  unfoldable pub delete_variable : List ℕ → List (Rtenv V) → List (Rtenv V) × Bool
  delete_variable n [] = ([], false)
  delete_variable n (e ∷ es) =
      let outer = under e (delete_variable n es) in
      elim (find_variable n e.variables) [
        | some _ ↦ (set_variables (erase n e.variables) e ∷ es, true)
        | none ↦ outer
      ]
