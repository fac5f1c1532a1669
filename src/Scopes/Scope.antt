-- ===== src/Scopes/Scope.antt =====
-- Candi_Compiler/token_iterator.hpp, `tk_scope`: a stretch of tokens. An iterator is its distance
-- from the first token of the range that is searched.
use cand_lang_proto.Base.{ℕ, ◌+◌, ◌-◌, ◌==◌, Bool, true, false, List, []}

pub record TkScope : Type 0 where
  pub valid : Bool
  pub begin : ℕ
  pub end : ℕ
  pub error_message : List ℕ

abbrev pub scope_valid : ℕ → ℕ → TkScope
scope_valid b e = record { valid = true; begin = b; end = e; error_message = [] }

abbrev pub scope_failure : ℕ → ℕ → List ℕ → TkScope
scope_failure b e m = record { valid = false; begin = b; end = e; error_message = m }

-- Without the tokens that open and close the scope.
abbrev pub contained_end : TkScope → ℕ
contained_end s = s.end - 1

abbrev pub contained_begin : TkScope → ℕ
contained_begin s = s.begin + 1

abbrev pub is_empty : TkScope → Bool
is_empty s = contained_begin s == contained_end s
