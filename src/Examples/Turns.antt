-- ===== src/Examples/Turns.antt =====
-- Providers by name, models of turns, and the hooks of a turn.
use agent_ship.Prelude.{ℕ, ◌+◌, String, ◌≡◌, refl, false, none, List, [], ◌∷◌}
use agent_ship.Spec.{not_durable}
use agent_ship.Runtime.Session.{Vars, run, turn, Turns, no_more, then_turn, RootSpan, take_turn}
use agent_ship.Runtime.Nesting.{are_runs, GoTo, run_records_nested}
use agent_ship.Runtime.Turn.{
  requested, observed_error, engine_ran, returns, throws, Middleware, Engine, pipeline_body,
  run_pipeline,
}
use agent_ship.Runtime.Hooks.{run_pipeline-throws}

abbrev stage : String → Middleware ℕ ℕ String
stage name = record {
  name = name;
  on_request = λ ctx. (ctx + 1, returns tt);
  on_response = λ ctx result. (ctx, returns (result + ctx));
  on_error = λ ctx exc. (ctx, throws "observer failed");
}

abbrev stages : List (Middleware ℕ ℕ String)
stages = stage "memory" ∷ stage "guard" ∷ []

abbrev failing : Engine ℕ ℕ String
failing = record { run = λ ctx. (ctx, throws "engine failed") }

run_pipeline-throws_example : run_pipeline failing stages 0 ≡ (
  requested "memory"
      ∷ requested "guard"
      ∷ engine_ran
      ∷ observed_error "guard"
      ∷ observed_error "memory"
      ∷ [],
  throws "engine failed",
)
unfolding pipeline_body
run_pipeline-throws_example = run_pipeline-throws failing stages 0 "engine failed" refl

-- A supervisor, two specialists, and a specialist of the second.
abbrev specialists : Turns String
specialists = then_turn (turn run "r2" none not_durable "billing's" no_more) (
    then_turn
      (turn run "r3" none not_durable "support's"
        (then_turn (turn run "r4" none not_durable "faq's" no_more) no_more))
      no_more)

abbrev outside : Vars String
outside = record { current_run = none; current_observer = none; tracing_installed = false }

run_records_nested_example :
    ((take_turn (turn run "r1" none not_durable "team's" specialists) outside).1 ≡ outside)
    × ((nested : List (RootSpan String)) × ((take_turn
            (turn run "r1" none not_durable "team's" specialists)
            outside).0
          ≡ record { run_id = "r1"; observer = "team's"; callback_left = false } ∷ nested)
        × GoTo "team's" nested)
unfolding are_runs
run_records_nested_example =
    run_records_nested "r1" none not_durable "team's" specialists outside refl refl
