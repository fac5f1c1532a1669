-- ===== src/Expression/Outcome.antt =====
-- How a function of Candi_Compiler/parenthesizer.hpp ends.
use cand_lang_proto.Base.{ℕ, Bool, true, false, List, ◌≡◌, refl, if◌then◌else◌}

-- A result; a thrown text; a step that has no defined behaviour, such as a read in front of the
-- first closure, or a failed `assert`; or more rounds than the model's fuel allows, which has no
-- counterpart in the program.
pub data Ending {ℓ} (A : Type ℓ) : Type ℓ where
  ok : A → Ending A
  throws : List ℕ → Ending A
  undefined no_fuel : Ending A

infixl 5 ◌>>=◌
abbrev pub ◌>>=◌ {ℓ κ} : {A : Type ℓ} {B : Type κ} → Ending A → (A → Ending B) → Ending B
ok a >>= f = f a
throws m >>= f = throws m
undefined >>= f = undefined
no_fuel >>= f = no_fuel

-- The outcomes that the program has: a result or an exception.
abbrev pub Defined {ℓ} : {A : Type ℓ} → Ending A → Type 0
Defined (ok a) = Unit
Defined (throws m) = Unit
Defined undefined = ⊥
Defined no_fuel = ⊥

module _ {ℓ κ} {A : Type ℓ} {B : Type κ} where
  pub bind-Defined :
      (m : Ending A) (f : A → Ending B)
      → Defined m
      → ((a : A) → m ≡ ok a → Defined (f a))
      → Defined (m >>= f)
  bind-Defined (ok a) f h k = k a refl
  bind-Defined (throws message) f h k = tt
  bind-Defined undefined f h k = h
  bind-Defined no_fuel f h k = h

  pub bind-ok :
      (m : Ending A) (f : A → Ending B) {b : B}
      → (m >>= f) ≡ ok b
      → (a : A) × (m ≡ ok a) × (f a ≡ ok b)
  bind-ok (ok a) f h = (a, refl, h)
  bind-ok (throws message) f h = cc
  bind-ok undefined f h = cc
  bind-ok no_fuel f h = cc

-- There is a result with `P`, or an exception.
abbrev pub Ensures {ℓ} : {A : Type ℓ} → (A → Type 0) → Ending A → Type 0
Ensures P (ok a) = P a
Ensures P (throws m) = Unit
Ensures P undefined = ⊥
Ensures P no_fuel = ⊥

module _ {ℓ κ} {A : Type ℓ} {B : Type κ} (P : A → Type 0) (Q : B → Type 0) where
  pub bind-Ensures :
      (m : Ending A) (f : A → Ending B)
      → Ensures P m
      → ((a : A) → P a → Ensures Q (f a))
      → Ensures Q (m >>= f)
  bind-Ensures (ok a) f h k = k a h
  bind-Ensures (throws message) f h k = tt
  bind-Ensures undefined f h k = h
  bind-Ensures no_fuel f h k = h

module _ {ℓ} {A : Type ℓ} (P : A → Type 0) where
  pub Ensures-Defined : (m : Ending A) → Ensures P m → Defined m
  Ensures-Defined (ok a) h = tt
  Ensures-Defined (throws message) h = tt
  Ensures-Defined undefined h = h
  Ensures-Defined no_fuel h = h

  pub Ensures-ok : (m : Ending A) (a : A) → Ensures P m → m ≡ ok a → P a
  Ensures-ok m a h e = rw e at h

  pub if-Ensures :
      (test : Bool) (x y : Ending A)
      → (test ≡ true → Ensures P x)
      → (test ≡ false → Ensures P y)
      → Ensures P (if test then x else y)
  if-Ensures true x y h k = h refl
  if-Ensures false x y h k = k refl

pub Ensures-weaken {ℓ} :
    {A : Type ℓ} (P Q : A → Type 0) (m : Ending A)
    → ((a : A) → P a → Q a)
    → Ensures P m
    → Ensures Q m
Ensures-weaken P Q (ok a) h k = h a k
Ensures-weaken P Q (throws message) h k = tt
Ensures-weaken P Q undefined h k = k
Ensures-weaken P Q no_fuel h k = k
