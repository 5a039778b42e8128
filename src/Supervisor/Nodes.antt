-- ===== src/Supervisor/Nodes.antt =====
-- The configuration, the graph's state and one function for each node and conditional edge.
use agent_ship.Prelude.{
  ℕ, ◌+◌, String, Bool, Option, none, some, List, [], ◌∷◌, ◌&&◌, ◌==◌, if◌then◌else◌, elem, length,
}
use agent_ship.Dict.{Dict, get, put, values}
use agent_ship.Dict.Named.{put_all}
use agent_ship.Errors.{Result, ok, raise, other, ◌>>=◌}
use agent_ship.Specialist.Values.{Values, SpecialistResult, is_empty}
use agent_ship.Specialist.Dispatch.{Agents, Strategy, resolve_refs, dispatch}
use agent_ship.Specialist.Retry.{attempts_of, specialists_to_retry, should_retry}
use agent_ship.Specialist.Conflict.{
  ConflictPolicy, Resolution, no_specialist_succeeded, resolved, resolve,
}

pub record RouteEntry : Type 0 where
  pub specialists : List String
  pub strategy : Strategy

pub record RetryConfig : Type 0 where
  pub max_attempts : ℕ
  pub on : List String

-- `classify.model` and `classify.hints` only shape the prompt of the labelling model, which is not
-- the program's.
pub record GraphConfig : Type 0 where
  pub intents : List String
  pub routing : Dict RouteEntry
  pub conflict_resolver : ConflictPolicy
  pub retry : RetryConfig
  pub confirm_before_write : Bool

-- The fields that the nodes read and write. `started` counts the runs of specialists so far.
pub record SupervisorState (Value : Type 0) : Type 0 where
  pub text : String
  pub intent : Option String
  pub route : RouteEntry
  pub specialist_results : List (SpecialistResult Value)
  pub attempts : Dict ℕ
  pub started : ℕ
  -- whether a write waits for approval, and the decision
  pub pending_write : Bool
  pub approved : Option Bool

-- `label` is the model's reply, stripped and in lower case.
unfoldable pub classify : GraphConfig → String → Option String
classify cfg label = if elem label cfg.intents then some label else none

-- routing["_default"], a KeyError where it is missing
unfoldable pub default_route : GraphConfig → Result RouteEntry
default_route cfg = elim (get cfg.routing "_default") [ none ↦ raise other | some entry ↦ ok entry ]

-- cfg.routing.get(intent) or cfg.routing["_default"]
unfoldable pub lookup_route : GraphConfig → Option String → Result RouteEntry
unfolding default_route
lookup_route cfg none = default_route cfg
lookup_route cfg (some intent) = elim (get cfg.routing intent) [
  | none ↦ default_route cfg
  | some entry ↦ ok entry
]

-- for name in to_run: attempts[name] = attempts.get(name, 0) + 1
unfoldable pub count_attempts : List String → Dict ℕ → Dict ℕ
count_attempts [] attempts = attempts
count_attempts (name ∷ names) attempts =
    count_attempts names (put attempts name (attempts_of attempts name + 1))

module _ {Value : Type 0} where
  -- {**prior, **{r["name"]: r for r in results}}
  abbrev pub merge :
      Dict (SpecialistResult Value) → List (SpecialistResult Value) → Dict (SpecialistResult Value)
  merge = put_all (λ r. r.name)

module _ (P : Values) (A : Agents P.Value) (cfg : GraphConfig) (specialists : Dict A.Agent) where
  abbrev pub State : Type 0
  State = SupervisorState P.Value

  -- The first pass runs every routed specialist, later passes only the retryable failures.
  unfoldable pub to_run : State → List String
  to_run s =
      let prior = merge [] s.specialist_results in
      if is_empty prior
      then s.route.specialists
      else specialists_to_retry s.attempts cfg.retry.max_attempts cfg.retry.on (values prior)

  -- the state after the runs of one pass
  unfoldable pub after_pass : State → List String → List (SpecialistResult P.Value) → State
  unfolding count_attempts put_all
  after_pass s names fresh = record s {
    specialist_results = values (merge (merge [] s.specialist_results) fresh);
    attempts = count_attempts names s.attempts;
    started = s.started + length fresh;
  }

  -- `dispatch` is called with no timeout, which an error message shows as `None`.
  unfoldable pub dispatch_node : State → Result State
  unfolding to_run after_pass
  dispatch_node s = do
    refs ← resolve_refs (to_run s) specialists
    ok (after_pass s (to_run s) (dispatch P A "None" s.route.strategy refs s.started s.text))

  -- the edge behind `dispatch`: true is "retry"
  unfoldable pub dispatch_router : State → Bool
  dispatch_router s =
      should_retry s.attempts cfg.retry.max_attempts cfg.retry.on s.specialist_results

  unfoldable pub resolve_node : State → Resolution P.Value
  resolve_node s = resolve P cfg.conflict_resolver s.specialist_results

  -- the edge behind `resolve`: true is "confirm"
  unfoldable pub needs_confirm : State → Bool
  needs_confirm s = cfg.confirm_before_write && s.pending_write

  -- `approved` is the human's decision, which arrives through a resume.
  unfoldable pub confirm_write : Bool → State → State
  confirm_write approved s = record s { approved = some approved }

  -- The text of the final answer.
  unfoldable pub answer_text : Resolution P.Value → String
  answer_text no_specialist_succeeded = "no_specialist_succeeded"
  answer_text (resolved winner output considered dropped) =
      if winner == "" then "no specialist produced a result" else answer_of output
    where
      answer_of : Dict P.Value → String
      answer_of [] = P.str_dict []
      answer_of ((key, value) ∷ []) =
          if key == "output" then P.str value else P.str_dict ((key, value) ∷ [])
      answer_of (a ∷ b ∷ rest) = P.str_dict (a ∷ b ∷ rest)
