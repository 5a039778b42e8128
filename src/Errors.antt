-- ===== src/Errors.antt =====
-- errors.py: the exceptions that cross the seams, with the fields that code reads. Messages for
-- people are not modelled; `other` is any exception that is no AgentShipError.
use agent_ship.Prelude.{ℕ, String, ◌≡◌, refl}

pub data Error : Type 0 where
  agent_ship_error spec_error engine_not_found_error capability_error : Error
  thread_busy_error resume_error model_error a2a_unavailable : Error
  auth_error : (code : String) → Error
  tenant_violation : (acting_tenant owner_tenant : String) → Error
  http_exception : (status_code : ℕ) → Error
  request_validation_error other : Error

pub data Result {ℓ} (A : Type ℓ) : Type ℓ where
  raise : (error : Error) → Result A
  ok : (value : A) → Result A

module _ {ℓ κ} {A : Type ℓ} {B : Type κ} where
  infixl 5 ◌>>◌ ◌>>=◌
  -- An exception skips what follows.
  abbrev pub ◌>>=◌ : Result A → (A → Result B) → Result B
  raise error >>= next = raise error
  ok value >>= next = next value

  abbrev pub ◌>>◌ : Result A → Result B → Result B
  raise error >> next = raise error
  ok value >> next = next

  -- What succeeds behind a bind has a first part that succeeds.
  pub >>=-eq-ok :
      (first : Result A) (next : A → Result B) {value : B}
      → (first >>= next) ≡ ok value
      → (found : A) × (first ≡ ok found) × (next found ≡ ok value)
  >>=-eq-ok (raise error) next h = cc
  >>=-eq-ok (ok found) next h = (found, refl, h)
