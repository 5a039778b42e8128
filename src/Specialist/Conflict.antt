-- ===== src/Specialist/Conflict.antt =====
-- primitives/conflict_resolver.py: one deterministic winner among the specialists' results.
pub mod Winner
pub mod Partition
use Prim.Native.Nat.{min}
use agent_ship.Prelude.{
  ℕ, suc, String, Bool, true, false, Option, none, some, List, [], ◌∷◌, map, not, ltb, eqb, ◌==◌,
  if◌then◌else◌, keep,
}
use agent_ship.Dict.{Dict}
use agent_ship.Specialist.Values.{Values, SpecialistResult, is_dropped}

pub data OnTie : Type 0 where
  highest_confidence first_by_priority : OnTie

pub record ConflictPolicy : Type 0 where
  pub priority : List String
  pub on_tie : OnTie

pub data Resolution (Value : Type 0) : Type 0 where
  no_specialist_succeeded : Resolution Value
  resolved :
      (winner : String) (output : Dict Value) (considered dropped : List String) → Resolution Value

-- priority.index(name), and len(priority) for an unknown name
unfoldable index_or_length : List String → String → ℕ
index_or_length [] name = 0
index_or_length (p ∷ priority) name =
    let rest = suc (index_or_length priority name) in if p == name then 0 else rest

unfoldable pub rank : ConflictPolicy → String → ℕ
unfolding index_or_length
rank policy name = index_or_length policy.priority name

module _ (P : Values) where
  abbrev pub R : Type 0
  R = SpecialistResult P.Value

  -- the key of `max`
  abbrev pub confidence_key : R → P.Value
  confidence_key r = elim r.confidence [ none ↦ P.neg_inf | some c ↦ c ]

  -- max(…, key=…) keeps the first of equals
  unfoldable pub max_by_confidence : R → List R → R
  max_by_confidence best [] = best
  max_by_confidence best (r ∷ rs) =
      max_by_confidence (if P.lt (confidence_key best) (confidence_key r) then r else best) rs

  unfoldable pub pick : OnTie → R → List R → R
  unfolding max_by_confidence
  pick highest_confidence c cs = max_by_confidence c cs
  pick first_by_priority c cs = c

  unfoldable pub survivors : List R → List R
  survivors = keep (λ r. not (is_dropped r))

  unfoldable pub dropped_names : List R → List String
  dropped_names results = map (λ r. r.name) (keep is_dropped results)

  module _ (policy : ConflictPolicy) where
    -- min(rank(r) for r in r ∷ rs)
    unfoldable pub best_rank : R → List R → ℕ
    best_rank r [] = rank policy r.name
    best_rank r (s ∷ rs) = min (rank policy r.name) (best_rank s rs)

    unfoldable pub candidates : ℕ → List R → List R
    candidates best = keep (λ r. eqb (rank policy r.name) best)

    -- There is a candidate wherever there is a survivor: the clause for `[]` is not reached.
    unfoldable pub resolve_among : List R → List String → List R → Resolution P.Value
    unfolding pick
    resolve_among considered dropped [] = no_specialist_succeeded
    resolve_among considered dropped (c ∷ cs) =
        let winner = pick policy.on_tie c cs in
        resolved winner.name winner.output (map (λ r. r.name) considered) dropped

    unfoldable pub resolve_survivors : List String → List R → Resolution P.Value
    unfolding best_rank candidates resolve_among
    resolve_survivors dropped [] = no_specialist_succeeded
    resolve_survivors dropped (s ∷ ss) =
        resolve_among (s ∷ ss) dropped (candidates (best_rank s ss) (s ∷ ss))

    unfoldable pub resolve : List R → Resolution P.Value
    unfolding survivors dropped_names resolve_survivors
    resolve results = resolve_survivors (dropped_names results) (survivors results)
