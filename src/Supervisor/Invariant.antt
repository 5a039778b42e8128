-- ===== src/Supervisor/Invariant.antt =====
-- What each pass of the retry loop keeps.
use agent_ship.Prelude.{
  refl, ℕ, String, ◌≡◌, ap, ◌∙◌, subst, true, List, [], elem, All, Bool-cases, inl, inr,
}
use agent_ship.Prelude.Splits.{All-map}
use agent_ship.Dict.{Dict, keys, values}
use agent_ship.Dict.Named.{put_all, IsNamed, put_all-IsNamed, put_all-values, All-values-put_all}
use agent_ship.Errors.{ok, >>=-eq-ok}
use agent_ship.Specialist.Values.{Values, SpecialistResult, is_empty}
use agent_ship.Specialist.Dispatch.{Agents, resolve_refs, dispatch}
use agent_ship.Specialist.Dispatch.Names.{All-dispatch, All-resolve_refs}
use agent_ship.Specialist.Retry.Laws.{specialists_to_retry_sound}
use agent_ship.Supervisor.Nodes.{GraphConfig, State, merge, to_run, after_pass, dispatch_node}

module _ (P : Values) (A : Agents P.Value) (cfg : GraphConfig) (specialists : Dict A.Agent) where
  abbrev pub cap : ℕ
  cap = cfg.retry.max_attempts

  -- What a pass is to run is among `us`: the route, and all of which there are results.
  pub record Within (us : List String) (s : State P A cfg specialists) : Type 0 where
    pub routed : All (λ r. elem r.name us ≡ true) s.specialist_results
    pub route_within : All (λ n. elem n us ≡ true) s.route.specialists

  -- What holds of the loop's state behind a pass: besides, the results are the values of a dict keyed by
  -- their names.
  pub record Inv (us : List String) (s : State P A cfg specialists) : Type 0 where
    pub within : Within us s
    pub by_name : Dict (SpecialistResult P.Value)
    pub named : IsNamed (λ r. r.name) by_name
    pub results : s.specialist_results ≡ values by_name

  pub prior-eq :
      (us : List String) (s : State P A cfg specialists) (i : Inv us s)
      → merge [] s.specialist_results ≡ i.by_name
  prior-eq us s i =
      ap (put_all (λ r. r.name) []) i.results ∙ put_all-values (λ r. r.name) i.by_name i.named

  prior-routed :
      (us : List String) (s : State P A cfg specialists)
      → Within us s
      → All (λ r. elem r.name us ≡ true) (values (merge [] s.specialist_results))
  unfolding values
  prior-routed us s w =
      All-values-put_all (λ r. r.name) (λ r. elem r.name us ≡ true) [] s.specialist_results tt
        w.routed

  to_run-routed :
      (us : List String) (s : State P A cfg specialists)
      → Within us s
      → All (λ n. elem n us ≡ true) (to_run P A cfg specialists s)
  unfolding to_run
  to_run-routed us s w = elim (Bool-cases (is_empty (merge [] s.specialist_results))) [
    | inl e ↦ rw e w.route_within
    | inr e ↦ rw e (
        All-map _ _ (λ n h. h.1) _
          (specialists_to_retry_sound s.attempts cap cfg.retry.on (λ n. elem n us ≡ true)
            (values (merge [] s.specialist_results)) (prior-routed us s w)))
  ]

  after_pass-Inv :
      (us : List String) (s : State P A cfg specialists) (names : List String)
      (fresh : List (SpecialistResult P.Value))
      → Within us s
      → All (λ r. elem r.name us ≡ true) fresh
      → Inv us (after_pass P A cfg specialists s names fresh)
  unfolding after_pass keys
  after_pass-Inv us s names fresh w f = record {
    within = record {
      routed =
          All-values-put_all (λ r. r.name) (λ r. elem r.name us ≡ true)
            (merge [] s.specialist_results) fresh (prior-routed us s w) f;
      route_within = w.route_within;
    };
    by_name = merge (merge [] s.specialist_results) fresh;
    named =
        put_all-IsNamed (λ r. r.name) (merge [] s.specialist_results) fresh
          (put_all-IsNamed (λ r. r.name) [] s.specialist_results
            (record { named = tt; distinct = tt }));
    results = refl;
  }

  pub dispatch_node-Inv :
      (us : List String) (s s' : State P A cfg specialists)
      → Within us s
      → dispatch_node P A cfg specialists s ≡ ok s'
      → Inv us s'
  unfolding dispatch_node
  dispatch_node-Inv us s s' w e =
      let names = to_run P A cfg specialists s in
      let (refs, found, done) = >>=-eq-ok (resolve_refs names specialists) _ e in
      let fresh = dispatch P A "None" s.route.strategy refs s.started s.text in
      let f : All (λ r. elem r.name us ≡ true) fresh =
        All-dispatch P A "None" (λ n. elem n us ≡ true) s.route.strategy refs s.started s.text
          (All-resolve_refs specialists (λ n. elem n us ≡ true) names refs found
            (to_run-routed us s w)) in
      let p : after_pass P A cfg specialists s names fresh ≡ s' = cc in
      subst (Inv us) p (after_pass-Inv us s names fresh w f)
