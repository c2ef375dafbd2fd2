-- ===== src/Types.antt =====
-- api/types/types.go: services, destinations, their statistics, the errors and the keys.
-- A `(value, error)` pair is a `Result`; a method with a single `error` result is `Option Error`.
pub mod Service
pub mod Destination
pub mod Keys
use fusis.Prelude.{◌≡◌, refl, String, Bool, true, false, [], ◌∷◌}
use fusis.Prelude.Text.{concat}

-- `other` is an error of the standard library or of a package that the program calls.
pub data Error : Type 0 where
  service_not_found destination_not_found : Error
  service_already_exists destination_already_exists : Error
  crash_error : Error → Error
  other : String → Error

pub data Result {ℓ} (A : Type ℓ) : Type ℓ where
  ok : A → Result A
  err : Error → Result A

-- What a call can end in besides returning: a nil pointer that is dereferenced, or an index that is
-- out of range, panics. A call that waits for ever for a lock is `panicked` too: it returns nothing.
pub data Outcome {ℓ} (A : Type ℓ) : Type ℓ where
  returned : A → Outcome A
  panicked : Outcome A

abbrev pub and_then {ℓ κ} : {A : Type ℓ} {B : Type κ} → Outcome A → (A → Outcome B) → Outcome B
and_then panicked f = panicked
and_then (returned a) f = f a

pub and_then-returned {ℓ κ} :
    {A : Type ℓ} {B : Type κ} (m : Outcome A) (f : A → Outcome B) {b : B}
    → and_then m f ≡ returned b
    → (a : A) × (m ≡ returned a) × (f a ≡ returned b)
and_then-returned panicked f h = cc
and_then-returned (returned a) f h = (a, refl, h)

-- `err.Error()`
unfoldable pub error_text : Error → String
error_text service_not_found = "service not found"
error_text destination_not_found = "destination not found"
error_text service_already_exists = "service already exists"
error_text destination_already_exists = "destination already exists"
error_text (crash_error e) = concat (
    "unable to apply commited log, inconsistent routing state, leaving cluster. original error: "
    ∷ error_text e
    ∷ [])
error_text (other text) = text

-- The type assertion `err.(types.ErrNotFound)`.
unfoldable pub is_not_found : Error → Bool
is_not_found service_not_found = true
is_not_found destination_not_found = true
is_not_found _ = false
