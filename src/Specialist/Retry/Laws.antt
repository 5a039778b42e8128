-- ===== src/Specialist/Retry/Laws.antt =====
-- What the retry decision guarantees.
use agent_ship.Prelude.{ℕ, ◌<◌, String, inl, inr, List, [], ◌∷◌, arith, All, Bool-cases}
use agent_ship.Dict.{Dict}
use agent_ship.Specialist.Values.{SpecialistResult}
use agent_ship.Specialist.Retry.{attempts_of, may_retry, specialists_to_retry}

module _ {Value : Type 0} (attempts : Dict ℕ) (max_attempts : ℕ) (retry_on : List String) where
  -- Every specialist that is run again is under the cap and has a result.
  pub specialists_to_retry_sound :
      (Q : String → Type 0) (results : List (SpecialistResult Value))
      → All (λ r. Q r.name) results
      → All
          (λ n. (attempts_of attempts n < max_attempts) × Q n)
          (specialists_to_retry attempts max_attempts retry_on results)
  unfolding specialists_to_retry
  specialists_to_retry_sound Q [] q = tt
  specialists_to_retry_sound Q (r ∷ rs) q =
      elim (Bool-cases (may_retry attempts max_attempts retry_on r)) [
        | inl e ↦ rw e ((ground arith, q.0), specialists_to_retry_sound Q rs q.1)
        | inr e ↦ rw e (specialists_to_retry_sound Q rs q.1)
      ]
