-- ===== src/Supervisor/Termination.antt =====
-- The fuel of the retry loop.
use mathlib.Core.Bool.{false≢true}
use agent_ship.Prelude.{
  ℕ, zero, suc, ◌+◌, ◌*◌, ◌≤◌, ◌<◌, String, ◌≡◌, refl, ap, ◌∙◌, sym, subst, Bool, true, false, some,
  List, [], ◌∷◌, ◌++◌, map, length, length-append, arith, elem, All, Bool-cases, inl, inr, not,
}
use agent_ship.Prelude.Splits.{All-elem_left, All-elem_right, All-of_map}
use agent_ship.Dict.{Dict, values}
use agent_ship.Errors.{Result, ok, raise, >>=-eq-ok}
use agent_ship.Specialist.Values.{Values, SpecialistResult, is_empty}
use agent_ship.Specialist.Dispatch.{Agents, resolve_refs}
use agent_ship.Specialist.Retry.{attempts_of, specialists_to_retry, should_retry}
use agent_ship.Specialist.Retry.Laws.{specialists_to_retry_sound}
use agent_ship.Supervisor.Nodes.{
  RouteEntry, GraphConfig, State, merge, to_run, after_pass, count_attempts, dispatch_node,
  dispatch_router,
}
use agent_ship.Supervisor.Invariant.{Within, Inv, prior-eq, dispatch_node-Inv}
use agent_ship.Supervisor.Graph.{run_dispatch, start}
use agent_ship.Supervisor.Measure.{budget, budget-count_attempts-lt, budget-le}

module _ (P : Values) (A : Agents P.Value) (cfg : GraphConfig) (specialists : Dict A.Agent) where
  abbrev S : Type 0
  S = State P A cfg specialists

  left : List String → S → ℕ
  left us s = budget cfg.retry.max_attempts us s.attempts

  abbrev retryable : S → List (SpecialistResult P.Value) → List String
  retryable s = specialists_to_retry s.attempts cfg.retry.max_attempts cfg.retry.on

  nothing_to_retry :
      (s : S) (d : Dict (SpecialistResult P.Value))
      → is_empty d ≡ true
      → should_retry s.attempts cfg.retry.max_attempts cfg.retry.on (values d) ≡ false
  unfolding should_retry values
  nothing_to_retry s [] e = refl
  nothing_to_retry s (x ∷ d) e = cc

  -- A retry pass runs the retryable specialists of the state's own results.
  to_run-retry :
      (us : List String) (s : S)
      → Inv P A cfg specialists us s
      → dispatch_router P A cfg specialists s ≡ true
      → to_run P A cfg specialists s ≡ retryable s s.specialist_results
  unfolding to_run dispatch_router
  to_run-retry us s i again =
      let same : values (merge [] s.specialist_results) ≡ s.specialist_results =
        ap values (prior-eq P A cfg specialists us s i) ∙ sym i.results in
      elim (Bool-cases (is_empty (merge [] s.specialist_results))) [
        | inl e ↦ absurd (
            false≢true (
              sym (
                sym again
                ∙ ap (should_retry s.attempts cfg.retry.max_attempts cfg.retry.on) (sym same)
                ∙ nothing_to_retry s _ e)))
        | inr e ↦ rw e (ap (retryable s) same)
      ]

  retryable-ne-nil :
      (s : S)
      → dispatch_router P A cfg specialists s ≡ true
      → (n : String) × (ns : List String) × (retryable s s.specialist_results ≡ n ∷ ns)
  unfolding dispatch_router should_retry
  retryable-ne-nil s again = go (retryable s s.specialist_results) refl again
    where
      go :
          (l : List String)
          → retryable s s.specialist_results ≡ l
          → not (is_empty (retryable s s.specialist_results)) ≡ true
          → (n : String) × (ns : List String) × (retryable s s.specialist_results ≡ n ∷ ns)
      go [] e h = absurd (false≢true (sym (sym h ∙ ap (λ x. not (is_empty x)) e)))
      go (n ∷ ns) e h = (n, ns, e)

  attempts-dispatch_node :
      (s s' : S)
      → dispatch_node P A cfg specialists s ≡ ok s'
      → s'.attempts ≡ count_attempts (to_run P A cfg specialists s) s.attempts
  unfolding dispatch_node after_pass
  attempts-dispatch_node s s' e =
      let (refs, found, done) =
        >>=-eq-ok (resolve_refs (to_run P A cfg specialists s) specialists) _ e in
      cc

  -- A retry pass uses some of the budget.
  dispatch_node-left :
      (us : List String) (s s' : S)
      → Inv P A cfg specialists us s
      → dispatch_router P A cfg specialists s ≡ true
      → dispatch_node P A cfg specialists s ≡ ok s'
      → left us s' < left us s
  unfolding left
  dispatch_node-left us s s' i again e =
      let (n, ns, shape) = retryable-ne-nil s again in
      let sound : All
          (λ m. (attempts_of s.attempts m < cfg.retry.max_attempts) × (elem m us ≡ true)) (n ∷ ns) =
        subst (All (λ m. (attempts_of s.attempts m < cfg.retry.max_attempts) × (elem m us ≡ true)))
          shape
          (specialists_to_retry_sound s.attempts cfg.retry.max_attempts cfg.retry.on
            (λ m. elem m us ≡ true) s.specialist_results i.within.routed) in
      subst (λ a. budget cfg.retry.max_attempts us a < budget cfg.retry.max_attempts us s.attempts)
        (sym (
          attempts-dispatch_node s s' e
          ∙ ap (λ l. count_attempts l s.attempts) (to_run-retry us s i again ∙ shape)))
        (budget-count_attempts-lt cfg.retry.max_attempts us n ns s.attempts sound.0.1 sound.0.0)

  -- How the loop may end: an unregistered specialist, or a state in which nothing is left to retry.
  abbrev pub Ended : Result S → Type 0
  Ended (raise e) = Unit {0}
  Ended (ok s) = dispatch_router P A cfg specialists s ≡ false

  abbrev pub Ends : ℕ → S → Type 0
  Ends fuel s = (r : Result S) × (run_dispatch P A cfg specialists fuel s ≡ some r) × Ended r

  -- A pass ends the loop, or leaves a state from which it ends.
  Ends-suc :
      (fuel : ℕ) (s : S)
      → ((s' : S)
          → dispatch_node P A cfg specialists s ≡ ok s'
          → dispatch_router P A cfg specialists s' ≡ true
          → Ends fuel s')
      → Ends (suc fuel) s
  unfolding run_dispatch
  Ends-suc fuel s next = go (dispatch_node P A cfg specialists s) refl
    where
      go : (d : Result S) → dispatch_node P A cfg specialists s ≡ d → Ends (suc fuel) s
      go (raise e) p = (raise e, ground (arith, p), tt)
      go (ok s') p = elim (Bool-cases (dispatch_router P A cfg specialists s')) [
        | inl again ↦
            let (r, ends, ended) = next s' p again in (r, ground (arith, p, again, ends), ended)
        | inr done ↦ (ok s', ground (arith, p, done), done)
      ]

  -- With more fuel than budget, the loop ends from any state in which a retry is due.
  Ends-retry :
      (us : List String) (fuel : ℕ) (s : S)
      → Inv P A cfg specialists us s
      → dispatch_router P A cfg specialists s ≡ true
      → left us s < fuel
      → Ends fuel s
  Ends-retry us zero s i again h = absurd (omega arith)
  Ends-retry us (suc fuel) s i again h = Ends-suc fuel s λ s' e again'.
      Ends-retry us fuel s' (dispatch_node-Inv P A cfg specialists us s s' i.within e) again'
        (omega (arith, dispatch_node-left us s s' i again e))

  -- The names of the results that a state has.
  abbrev pub names_in : S → List String
  names_in s = map (λ r. r.name) s.specialist_results

  length-names : (rs : List (SpecialistResult P.Value)) → length (map (λ r. r.name) rs) ≡ length rs
  length-names [] = refl
  length-names (r ∷ rs) = ap suc (length-names rs)

  pub start-Within :
      (earlier : S) (text label : String) (pending_write : Bool) (route : RouteEntry)
      → Within P A cfg specialists
          (route.specialists ++ names_in earlier)
          (start P A cfg specialists earlier text label pending_write route)
  start-Within earlier text label pending_write route = record {
    routed =
        All-of_map (λ n. elem n (route.specialists ++ names_in earlier) ≡ true) (λ r. r.name)
          earlier.specialist_results (All-elem_right route.specialists (names_in earlier));
    route_within = All-elem_left route.specialists (names_in earlier);
  }

  -- The retry loop of a turn ends, whatever the specialists do in each of their runs and whatever results
  -- and attempts the thread has from earlier turns: fuel for two passes, and one more for each attempt that
  -- the cap allows each routed specialist and each of which there is an earlier result, is enough. The loop
  -- ends with an exception, or with a state in which no specialist is left to retry.
  pub run_dispatch-Ends :
      (earlier : S) (text label : String) (pending_write : Bool) (route : RouteEntry) (fuel : ℕ)
      → (length route.specialists + length earlier.specialist_results) * cfg.retry.max_attempts + 2
        ≤ fuel
      → Ends fuel (start P A cfg specialists earlier text label pending_write route)
  unfolding left
  run_dispatch-Ends earlier text label pending_write route zero h = absurd (omega arith)
  run_dispatch-Ends earlier text label pending_write route (suc fuel) h =
      Ends-suc fuel s λ s' e again.
        Ends-retry us fuel s'
          (dispatch_node-Inv P A cfg specialists us s s'
            (start-Within earlier text label pending_write route) e)
          again (omega (arith, budget-le cfg.retry.max_attempts us s'.attempts, (rw long at h)))
    where
      us : List String
      us = route.specialists ++ names_in earlier

      s : S
      s = start P A cfg specialists earlier text label pending_write route

      long : length route.specialists + length earlier.specialist_results ≡ length us
      long = sym (
          length-append route.specialists (names_in earlier)
          ∙ ap (λ n. length route.specialists + n) (length-names earlier.specialist_results))
