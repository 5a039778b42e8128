-- ===== src/Examples/Team.antt =====
-- A supervisor and its specialists.
use agent_ship.Prelude.{
  ℕ, String, ◌≡◌, refl, ◌≢◌, true, false, none, some, List, [], ◌∷◌, map, ltb, arith, if◌then◌else◌,
}
use agent_ship.Prelude.Splits.{Split}
use agent_ship.Dict.{Dict, get, put, values}
use agent_ship.Errors.{ok}
use agent_ship.Specialist.Values.{Values, SpecialistResult, is_dropped}
use agent_ship.Specialist.Dispatch.{
  Agents, answered, failed, dict, single, parallel, run_safely, resolve_refs, dispatch,
}
use agent_ship.Specialist.Retry.{is_retryable, should_retry, classify_error}
use agent_ship.Specialist.Retry.Failures.{is_retryable-run_safely}
use agent_ship.Specialist.Conflict.{
  ConflictPolicy, highest_confidence, resolved, survivors, dropped_names, resolve,
}
use agent_ship.Specialist.Conflict.Winner.{IsStrictOrder, Before, Behind, resolve_winner}
use agent_ship.Supervisor.Nodes.{
  GraphConfig, RouteEntry, State, resolve_node, dispatch_node, dispatch_router,
}
use agent_ship.Supervisor.Graph.{new_thread, start, run_dispatch}
use agent_ship.Supervisor.LaterTurns.{later_turn_runs_none}
use agent_ship.Supervisor.Termination.{Ends, run_dispatch-Ends}

abbrev numbers : Values
numbers = record {
  Value = ℕ;
  is_none = λ v. false;
  as_str = λ v. none;
  str = λ v. "a number";
  str_dict = λ d. "a dict";
  lt = ltb;
  neg_inf = 0;
}

numbers_order : IsStrictOrder ltb
numbers_order = record { asym = λ a b h. ground arith; between = λ a b c h h'. ground arith }

abbrev policy : ConflictPolicy
policy = record { priority = "legal" ∷ []; on_tie = highest_confidence }

abbrev said : String → ℕ → SpecialistResult ℕ
said name confidence = record {
  name = name;
  output = ("output", 1) ∷ [];
  confidence = some confidence;
  error = none;
}

abbrev broke : String → SpecialistResult ℕ
broke name = record { name = name; output = []; confidence = none; error = some "boom" }

abbrev replies : List (SpecialistResult ℕ)
replies = said "tax" 3 ∷ broke "legal" ∷ said "hr" 8 ∷ []

survivors_of_replies : survivors numbers replies ≢ []
unfolding survivors
survivors_of_replies h = ground arith

resolve_winner_example :
    (w : SpecialistResult ℕ) × (is_dropped w ≡ false)
    × Split (Before numbers policy w) (Behind numbers policy w) w replies
    × (resolve numbers policy replies
        ≡ resolved w.name w.output
            (map (λ r. r.name) (survivors numbers replies))
            (dropped_names numbers replies))
resolve_winner_example = resolve_winner numbers policy numbers_order replies survivors_of_replies

-- An agent is the number of its runs that fail.
abbrev flaky : Agents ℕ
flaky = record {
  Agent = ℕ;
  run = λ bad n message. if ltb n bad then failed "boom" else answered (dict (("output", n) ∷ []));
}

is_retryable-run_safely_example :
    is_retryable
      (run_safely numbers flaky "2" (record { name = "tax"; agent = 3 }) 0 "hello")
      ("specialist_error" ∷ [])
    ≡ true
is_retryable-run_safely_example =
    is_retryable-run_safely numbers flaky "2" (record { name = "tax"; agent = 3 }) 0 "hello"
      ("specialist_error" ∷ [])

abbrev tax_route : RouteEntry
tax_route = record { specialists = "tax" ∷ "hr" ∷ []; strategy = parallel }

abbrev config : GraphConfig
config = record {
  intents = "tax" ∷ [];
  routing = ("_default", tax_route) ∷ [];
  conflict_resolver = policy;
  retry = record { max_attempts = 3; on = "specialist_error" ∷ [] };
  confirm_before_write = false;
}

run_dispatch-Ends_example : Ends numbers flaky config (("tax", 2) ∷ ("hr", 0) ∷ []) 8 (
    start numbers flaky config
      (("tax", 2) ∷ ("hr", 0) ∷ [])
      (new_thread numbers flaky config (("tax", 2) ∷ ("hr", 0) ∷ []))
      "hello"
      "tax"
      false
      tax_route)
run_dispatch-Ends_example =
    run_dispatch-Ends numbers flaky config (("tax", 2) ∷ ("hr", 0) ∷ [])
      (new_thread numbers flaky config (("tax", 2) ∷ ("hr", 0) ∷ [])) "hello" "tax" false tax_route
      8 (omega arith)

abbrev hr : Dict ℕ
hr = ("hr", 0) ∷ []

abbrev hr_route : RouteEntry
hr_route = record { specialists = "hr" ∷ []; strategy = single }

abbrev first_turn : State numbers flaky config hr
first_turn =
    start numbers flaky config hr (new_thread numbers flaky config hr) "hello" "hr" false hr_route

-- what the first turn leaves
abbrev left_state : State numbers flaky config hr
left_state = record first_turn {
  specialist_results =
      record { name = "hr"; output = ("output", 0) ∷ []; confidence = none; error = none } ∷ [];
  attempts = ("hr", 1) ∷ [];
  started = 1;
}

later_turn_runs_none_example :
    (run_dispatch numbers flaky config hr 5
        (start numbers flaky config hr left_state "and now?" "hr" false tax_route)
      ≡ some (ok (start numbers flaky config hr left_state "and now?" "hr" false tax_route)))
    × (resolve_node numbers flaky config hr
          (start numbers flaky config hr left_state "and now?" "hr" false tax_route)
        ≡ resolve_node numbers flaky config hr left_state)
unfolding run_dispatch dispatch_node resolve_refs get dispatch_router should_retry values dispatch
    put is_retryable classify_error
later_turn_runs_none_example =
    later_turn_runs_none numbers flaky config hr (new_thread numbers flaky config hr) left_state
      "hello" "hr" false hr_route 5 "and now?" "hr" false tax_route 4 refl refl
