-- ===== src/Specialist/Retry.antt =====
-- primitives/retry.py: which failed specialists are run again.
pub mod Laws
pub mod Failures
use text.Mathlib.Text.{starts_with}
use agent_ship.Prelude.{
  ℕ, String, Bool, true, false, Option, none, some, List, [], ◌∷◌, map, ◌&&◌, not, ltb, ◌==◌,
  if◌then◌else◌, elem, keep,
}
use agent_ship.Dict.{Dict, get}
use agent_ship.Specialist.Values.{SpecialistResult, is_empty}

-- if not error: None; "timed out…": "timeout"; else "specialist_error"
unfoldable pub classify_error : Option String → Option String
classify_error none = none
classify_error (some error) =
    if error == ""
    then none
    else if starts_with error "timed out"
    then some "timeout"
    else some "specialist_error"

-- attempts.get(name, 0)
abbrev pub attempts_of : Dict ℕ → String → ℕ
attempts_of attempts name = elim (get attempts name) [ none ↦ 0 | some n ↦ n ]

module _ {Value : Type 0} where
  unfoldable pub is_retryable : SpecialistResult Value → List String → Bool
  is_retryable result retry_on = elim (classify_error result.error) [
    | none ↦ false
    | some category ↦ elem category retry_on
  ]

  module _ (attempts : Dict ℕ) (max_attempts : ℕ) (retry_on : List String) where
    abbrev pub may_retry : SpecialistResult Value → Bool
    may_retry r = is_retryable r retry_on && ltb (attempts_of attempts r.name) max_attempts

    unfoldable pub specialists_to_retry : List (SpecialistResult Value) → List String
    specialists_to_retry results = map (λ r. r.name) (keep may_retry results)

    unfoldable pub should_retry : List (SpecialistResult Value) → Bool
    unfolding specialists_to_retry
    should_retry results = not (is_empty (specialists_to_retry results))
