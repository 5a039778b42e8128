-- ===== src/Supervisor/LaterTurns.antt =====
-- A turn on a thread that has had one: the graph's checkpoint keeps the results and the attempts.
use mathlib.Core.Bool.{false≢true}
use agent_ship.Prelude.{
  ℕ, zero, suc, ◌+◌, String, ◌≡◌, refl, ap, ◌∙◌, sym, Bool, false, some, List, [], ◌∷◌, ◌++◌, arith,
  Bool-cases, inl, inr, not,
}
use agent_ship.Dict.{Dict, values}
use agent_ship.Errors.{Result, ok, raise}
use agent_ship.Specialist.Values.{Values, SpecialistResult, is_empty}
use agent_ship.Specialist.Dispatch.{Agents, resolve_refs, dispatch}
use agent_ship.Specialist.Retry.{specialists_to_retry, should_retry}
use agent_ship.Supervisor.Nodes.{
  RouteEntry, GraphConfig, State, merge, to_run, after_pass, count_attempts, dispatch_node,
  dispatch_router, resolve_node,
}
use agent_ship.Supervisor.Invariant.{Within, Inv, prior-eq, dispatch_node-Inv}
use agent_ship.Supervisor.Graph.{run_dispatch, start}
use agent_ship.Supervisor.Termination.{names_in, start-Within}

module _ (P : Values) (A : Agents P.Value) (cfg : GraphConfig) (specialists : Dict A.Agent) where
  abbrev S : Type 0
  S = State P A cfg specialists

  -- What a loop that ended with a state leaves.
  run_dispatch-Inv :
      (us : List String) (fuel : ℕ) (s s' : S)
      → Within P A cfg specialists us s
      → run_dispatch P A cfg specialists fuel s ≡ some (ok s')
      → Inv P A cfg specialists us s' × (dispatch_router P A cfg specialists s' ≡ false)
  unfolding run_dispatch
  run_dispatch-Inv us zero s s' w e = absurd (cc e)
  run_dispatch-Inv us (suc fuel) s s' w e =
      go (run_dispatch-Inv us fuel) (dispatch_node P A cfg specialists s) refl
    where
      go :
          ((s1 s2 : S)
            → Within P A cfg specialists us s1
            → run_dispatch P A cfg specialists fuel s1 ≡ some (ok s2)
            → Inv P A cfg specialists us s2 × (dispatch_router P A cfg specialists s2 ≡ false))
          → (d : Result S) → dispatch_node P A cfg specialists s ≡ d
          → Inv P A cfg specialists us s' × (dispatch_router P A cfg specialists s' ≡ false)
      go later (raise error) p = absurd (ground (arith, p, e))
      go later (ok s1) p =
          let i = dispatch_node-Inv P A cfg specialists us s s1 w p in
          elim (Bool-cases (dispatch_router P A cfg specialists s1)) [
            | inl again ↦ later s1 s' i.within (ground (arith, p, again, e))
            | inr done ↦ let same : s1 ≡ s' = ground (arith, p, done, e) in rw (← same) (i, done)
          ]

  nothing_due : (names : List String) → not (is_empty names) ≡ false → names ≡ []
  nothing_due [] h = refl
  nothing_due (n ∷ names) h = absurd (false≢true (sym h))

  is_empty-values : (d : Dict (SpecialistResult P.Value)) → is_empty (values d) ≡ is_empty d
  unfolding values
  is_empty-values [] = refl
  is_empty-values (entry ∷ d) = refl

  same_results :
      (us : List String) (s : S)
      → Inv P A cfg specialists us s
      → values (merge [] s.specialist_results) ≡ s.specialist_results
  same_results us s i = ap values (prior-eq P A cfg specialists us s i) ∙ sym i.results

  to_run-idle :
      (us : List String) (s : S)
      → Inv P A cfg specialists us s
      → is_empty s.specialist_results ≡ false
      → dispatch_router P A cfg specialists s ≡ false
      → to_run P A cfg specialists s ≡ []
  unfolding to_run dispatch_router should_retry
  to_run-idle us s i full done =
      let results = same_results us s i in
      let some_prior : is_empty (merge [] s.specialist_results) ≡ false =
        sym (is_empty-values (merge [] s.specialist_results)) ∙ ap is_empty results ∙ full in
      rw some_prior (
        ap (specialists_to_retry s.attempts cfg.retry.max_attempts cfg.retry.on) results
        ∙ nothing_due _ done)

  after_pass-none :
      (us : List String) (s : S)
      → Inv P A cfg specialists us s
      → after_pass P A cfg specialists s [] [] ≡ s
  unfolding after_pass count_attempts
  after_pass-none us s i =
      let results = same_results us s i in
      let started : s.started + 0 ≡ s.started = omega arith in
      λ k. record s { specialist_results = results k; started = started k }

  dispatch_node-none :
      (s : S)
      → to_run P A cfg specialists s ≡ []
      → dispatch_node P A cfg specialists s ≡ ok (after_pass P A cfg specialists s [] [])
  unfolding dispatch_node resolve_refs dispatch
  dispatch_node-none s e = rw e refl

  -- With results and nothing to retry, a pass changes nothing.
  dispatch_node-idle :
      (us : List String) (s : S)
      → Inv P A cfg specialists us s
      → is_empty s.specialist_results ≡ false
      → dispatch_router P A cfg specialists s ≡ false
      → dispatch_node P A cfg specialists s ≡ ok s
  dispatch_node-idle us s i full done =
      dispatch_node-none s (to_run-idle us s i full done) ∙ ap ok (after_pass-none us s i)

  -- Once the loop of a turn has ended with results, no later turn on the thread runs a specialist, whatever
  -- is asked and whatever the route: its loop ends at once, with the results of the earlier turn, and
  -- `resolve` comes to the same resolution.
  pub later_turn_runs_none :
      (earlier s : S) (text label : String) (pending_write : Bool) (route : RouteEntry) (fuel : ℕ)
      (text' label' : String) (pending_write' : Bool) (route' : RouteEntry) (fuel' : ℕ)
      → run_dispatch P A cfg specialists fuel
          (start P A cfg specialists earlier text label pending_write route)
        ≡ some (ok s)
      → is_empty s.specialist_results ≡ false
      → let later = start P A cfg specialists s text' label' pending_write' route' in
        (run_dispatch P A cfg specialists (suc fuel') later ≡ some (ok later))
        × (resolve_node P A cfg specialists later ≡ resolve_node P A cfg specialists s)
  unfolding run_dispatch resolve_node dispatch_router
  later_turn_runs_none earlier s text label pending_write route fuel text' label' pending_write'
        route' fuel' ends full =
      let (i, done) =
        run_dispatch-Inv (route.specialists ++ names_in P A cfg specialists earlier) fuel
          (start P A cfg specialists earlier text label pending_write route) s
          (start-Within P A cfg specialists earlier text label pending_write route) ends in
      let later = start P A cfg specialists s text' label' pending_write' route' in
      let idle : dispatch_node P A cfg specialists later ≡ ok later =
        dispatch_node-idle (route'.specialists ++ names_in P A cfg specialists s) later
          (record {
            within = start-Within P A cfg specialists s text' label' pending_write' route';
            by_name = i.by_name;
            named = i.named;
            results = i.results;
          })
          full done in
      (ground (arith, idle, done), refl)
