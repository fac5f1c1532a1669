-- ===== src/Expected.antt =====
-- Candi_Compiler/global_dependencies/libcsl.hpp: the results that carry an error message. A
-- `std::string` is its list of bytes; the default message is the empty one.
use cand_lang_proto.Base.{ℕ, Bool, true, false, List, [], ◌++◌, Option, none, some}

-- `sl_partial_expected`: a value or an error, and beside both a value that is always there.
pub record PartialExpected {ℓ κ} (A : Type ℓ) (W : Type κ) : Type (ℓ ⊔ κ) where
  pub always : W
  pub expected : Option A
  pub error_message : List ℕ

module _ {ℓ κ} {A : Type ℓ} {W : Type κ} where
  abbrev pub partial_success : W → A → PartialExpected A W
  partial_success w a = record { always = w; expected = some a; error_message = [] }

  abbrev pub partial_failure : W → List ℕ → PartialExpected A W
  partial_failure w m = record { always = w; expected = none; error_message = m }

  -- `make_failure_chain`; its argument `always` is not used.
  abbrev pub partial_failure_chain : PartialExpected A W → W → List ℕ → PartialExpected A W
  partial_failure_chain other w m = record {
    always = other.always;
    expected = none;
    error_message = other.error_message ++ m;
  }

-- `sl_expected`.
pub record Expected {ℓ} (A : Type ℓ) : Type ℓ where
  pub expected : Option A
  pub error_message : List ℕ

module _ {ℓ} {A : Type ℓ} where
  abbrev pub make_success : A → Expected A
  make_success a = record { expected = some a; error_message = [] }

  abbrev pub make_failure : List ℕ → Expected A
  make_failure m = record { expected = none; error_message = m }

-- `std::optional::has_value`, behind `valid` of both.
abbrev pub has_value {ℓ} : {A : Type ℓ} → Option A → Bool
has_value none = false
has_value (some a) = true

-- `sl_boolerror`: success, or a message.
pub record BoolError : Type 0 where
  pub value : Bool
  pub error_message : List ℕ

abbrev pub bool_ok : BoolError
bool_ok = record { value = true; error_message = [] }

abbrev pub bool_error : List ℕ → BoolError
bool_error m = record { value = false; error_message = m }
