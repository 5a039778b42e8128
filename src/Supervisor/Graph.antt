-- ===== src/Supervisor/Graph.antt =====
-- The graph: classify, lookup_route, dispatch until nothing is left to retry, resolve, safety_gate.
use agent_ship.Prelude.{ℕ, zero, suc, String, Bool, false, Option, none, some, [], if◌then◌else◌}
use agent_ship.Dict.{Dict}
use agent_ship.Errors.{Result, ok, raise}
use agent_ship.Specialist.Values.{Values}
use agent_ship.Specialist.Dispatch.{Agents, single}
use agent_ship.Supervisor.Nodes.{
  GraphConfig, RouteEntry, classify, lookup_route, State, dispatch_node, dispatch_router,
  resolve_node, needs_confirm, confirm_write, answer_text,
}

module _ (P : Values) (A : Agents P.Value) (cfg : GraphConfig) (specialists : Dict A.Agent) where
  -- The loop of the graph between `dispatch` and its conditional edge, on fuel: `none` is a loop that
  -- has not ended.
  unfoldable pub run_dispatch :
      ℕ → State P A cfg specialists → Option (Result (State P A cfg specialists))
  run_dispatch zero s = none
  run_dispatch (suc fuel) s = elim (dispatch_node P A cfg specialists s) [
    | raise e ↦ some (raise e)
    | ok s' ↦
        let again = run_dispatch fuel s' in
        if dispatch_router P A cfg specialists s' then again else some (ok s')
  ]

  -- A thread that has had no turn.
  abbrev pub new_thread : State P A cfg specialists
  new_thread = record {
    text = "";
    intent = none;
    route = record { specialists = []; strategy = single };
    specialist_results = [];
    attempts = [];
    started = 0;
    pending_write = false;
    approved = none;
  }

  -- A turn goes on from the state that its thread's checkpoint has: `classify` and `lookup_route` write
  -- the intent and the route, and no node empties the results and the attempts of earlier turns.
  abbrev pub start :
      State P A cfg specialists → String → String → Bool → RouteEntry → State P A cfg specialists
  start earlier text label pending_write route = record earlier {
    text = text;
    intent = classify cfg label;
    route = route;
    pending_write = pending_write;
  }

  -- from `resolve` on: `safety_gate` writes the answer, also where the write was not approved
  unfoldable pub finish : Bool → State P A cfg specialists → String × State P A cfg specialists
  finish decision s =
      let gated =
        if needs_confirm P A cfg specialists s
        then confirm_write P A cfg specialists decision s
        else s in
      (answer_text P A cfg specialists (resolve_node P A cfg specialists gated), gated)

  finish_loop :
      Bool
      → Option (Result (State P A cfg specialists))
      → Option (Result (String × State P A cfg specialists))
  unfolding finish
  finish_loop decision none = none
  finish_loop decision (some (raise e)) = some (raise e)
  finish_loop decision (some (ok s)) = some (ok (finish decision s))

  -- A whole turn, for a request `text` that the model labels with `label`, on a thread whose checkpoint has
  -- `earlier`.
  unfoldable run_graph :
      ℕ
      → State P A cfg specialists
      → String
      → String
      → Bool
      → Bool
      → Option (Result (String × State P A cfg specialists))
  unfolding run_dispatch finish_loop
  run_graph fuel earlier text label pending_write decision =
      elim (lookup_route cfg (classify cfg label)) [
        | raise e ↦ some (raise e)
        | ok route ↦
            finish_loop decision (run_dispatch fuel (start earlier text label pending_write route))
      ]
