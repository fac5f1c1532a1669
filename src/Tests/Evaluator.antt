-- ===== src/Tests/Evaluator.antt =====
-- Environments on small inputs.
use cand_lang_proto.Base.{ℕ, ◌&&◌, not, true, some, List, [], ◌∷◌, ◌≡◌, refl, bytes, if◌then◌else◌}
use cand_lang_proto.Syntax.Token.{literal_eq}
use cand_lang_proto.Evaluator.Environment.{
  Rtenv, find_variable, erase, create_variable, resolve_variable, set_variable, delete_variable,
}
use cand_lang_proto.Evaluator.Lookup.{
  is_some, IsWellFormed, outer_value, resolve-set, resolve-delete, resolve-create, delete-create,
}

-- `x` is 1 in the inner environment and 2 in the outer, where `y` is 3.
abbrev inner : Rtenv ℕ
inner = record { env_name = bytes "inner"; variables = record { name = bytes "x"; value = 1 } ∷ [] }

abbrev outer : Rtenv ℕ
outer = record {
  env_name = bytes "outer";
  variables = record { name = bytes "x"; value = 2 } ∷ record { name = bytes "y"; value = 3 } ∷ [];
}

abbrev nested : List (Rtenv ℕ)
nested = inner ∷ outer ∷ []

nested-IsWellFormed : IsWellFormed nested
unfolding find_variable literal_eq
nested-IsWellFormed = ((refl, tt), ((refl, (refl, tt)), tt))

resolve-set_example :
    (resolve_variable (bytes "y") (set_variable (bytes "y") 4 nested).0 ≡ (
      if literal_eq (bytes "y") (bytes "y") && is_some (resolve_variable (bytes "y") nested)
      then some 4
      else resolve_variable (bytes "y") nested))
    × ((set_variable (bytes "y") 4 nested).1 ≡ is_some (resolve_variable (bytes "y") nested))
resolve-set_example = resolve-set (bytes "y") (bytes "y") 4 nested

resolve-delete_example : resolve_variable (bytes "x") (delete_variable (bytes "x") nested).0 ≡ (
    if literal_eq (bytes "x") (bytes "x")
    then outer_value (bytes "x") nested
    else resolve_variable (bytes "x") nested)
resolve-delete_example = resolve-delete (bytes "x") (bytes "x") nested nested-IsWellFormed

created_y : (create_variable (bytes "y") 4 nested).1 ≡ true
unfolding create_variable find_variable literal_eq
created_y = refl

resolve-create_example :
    (resolve_variable (bytes "y") (create_variable (bytes "y") 4 nested).0 ≡ (
      if literal_eq (bytes "y") (bytes "y")
        && not (is_some (find_variable (bytes "y") inner.variables))
      then some 4
      else resolve_variable (bytes "y") nested))
    × ((create_variable (bytes "y") 4 nested).1
        ≡ not (is_some (find_variable (bytes "y") inner.variables)))
resolve-create_example = resolve-create (bytes "y") (bytes "y") 4 inner (outer ∷ [])

delete-create_example :
    (resolve_variable
        (bytes "y")
        (delete_variable (bytes "y") (create_variable (bytes "y") 4 nested).0).0
      ≡ resolve_variable (bytes "y") nested)
    × ((delete_variable (bytes "y") (create_variable (bytes "y") 4 nested).0).1 ≡ true)
delete-create_example = delete-create (bytes "y") (bytes "y") 4 inner (outer ∷ []) created_y

-- Behind the inner `x` the outer one shows.
outer_x : resolve_variable (bytes "x") (delete_variable (bytes "x") nested).0 ≡ some 2
unfolding resolve_variable delete_variable find_variable erase literal_eq
outer_x = refl
