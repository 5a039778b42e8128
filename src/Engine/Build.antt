-- ===== src/Engine/Build.antt =====
-- `build_agent` of agentship/runtime.py: from a spec to an agent that can run.
use agent_ship.Prelude.{
  String, ◌≡◌, refl, Bool, true, false, Option, none, some, List, if◌then◌else◌, all, arith,
  Option-cases, subst, sym, ◌∙◌, inl, inr,
}
use agent_ship.Errors.{
  Result, ok, raise, spec_error, capability_error, engine_not_found_error, ◌>>=◌, >>=-eq-ok,
}
use agent_ship.Registry.{EntryPoint, Registry, find}
use agent_ship.Spec.{AgentSpec}
use agent_ship.Spec.Load.{Modules, resolve_code}
use agent_ship.Engine.{EngineCapabilities, assert_supports_spec}
use agent_ship.Engine.Gate.{requirements, provides, assert_supports_spec-provides}

-- What a builder returns when it is called: a spec, an agent with a spec, or neither.
pub data Built (Authored : Type 0) : Type 0 where
  declared : AgentSpec → Built Authored
  authored_by : AgentSpec → Authored → Built Authored
  neither : Built Authored

pub record Engine (Authored Compiled : Type 0) : Type 0 where
  pub name : String
  pub capabilities : EngineCapabilities
  pub build : AgentSpec → Option Authored → Result Compiled

pub record RunnableAgent (Authored Compiled : Type 0) : Type 0 where
  pub spec : AgentSpec
  pub engine : Engine Authored Compiled
  pub compiled : Compiled

passed_only_if :
    (good : Bool) {u : Unit {0}}
    → (if good then ok tt else raise capability_error) ≡ ok u
    → good ≡ true
passed_only_if true h = refl
passed_only_if false h = cc

gate-provides :
    (lower : String → String) (caps : EngineCapabilities) (spec : AgentSpec) {u : Unit {0}}
    → assert_supports_spec lower caps spec ≡ ok u
    → all (provides lower caps) (requirements spec) ≡ true
gate-provides lower caps spec h =
    passed_only_if (all (provides lower caps) (requirements spec))
      (sym (assert_supports_spec-provides lower caps spec) ∙ h)

module _ (lower : String → String) {Authored Compiled : Type 0} (modules : Modules (Built Authored))
    (entry_points : List (EntryPoint (Engine Authored Compiled))) where
  -- the spec of a builder must not name a builder again
  abbrev pub concrete : AgentSpec → Option Authored → Result (AgentSpec × Option Authored)
  concrete spec authored = elim spec.code [
    | none ↦ ok (spec, authored)
    | some again ↦ raise spec_error
  ]

  abbrev effective : Built Authored → Result (AgentSpec × Option Authored)
  effective (declared spec) = concrete spec none
  effective (authored_by spec agent) = concrete spec (some agent)
  effective neither = raise spec_error

  -- _resolve_code_spec, where the spec names a builder
  unfoldable resolve_code_spec : AgentSpec → Result (AgentSpec × Option Authored)
  unfolding resolve_code
  resolve_code_spec spec = elim spec.code [
    | none ↦ ok (spec, none)
    | some ref ↦ do built ← resolve_code modules ref; effective built
  ]

  -- ENGINES.get(spec.engine)
  unfoldable find_engine :
      Registry (Engine Authored Compiled) → AgentSpec → Result (Engine Authored Compiled)
  unfolding find
  find_engine engines spec = elim (find entry_points engines spec.engine).0 [
    | none ↦ raise engine_not_found_error
    | some engine ↦ ok engine
  ]

  unfoldable pub build_agent :
      Registry (Engine Authored Compiled) → AgentSpec → Result (RunnableAgent Authored Compiled)
  unfolding resolve_code_spec find_engine
  build_agent engines spec = do
    resolved ← resolve_code_spec spec
    engine ← find_engine engines resolved.0
    supported ← assert_supports_spec lower engine.capabilities resolved.0
    compiled ← engine.build resolved.0 resolved.1
    ok (record { spec = resolved.0; engine = engine; compiled = compiled })

  concrete-code :
      (spec : AgentSpec) (authored : Option Authored) {r : AgentSpec × Option Authored}
      → concrete spec authored ≡ ok r
      → r.0.code ≡ none
  concrete-code spec authored h = elim (Option-cases spec.code) [
    | inl e ↦ ground (arith, e)
    | inr (again, e) ↦ absurd (ground (arith, e))
  ]

  effective-code :
      (built : Built Authored) {r : AgentSpec × Option Authored}
      → effective built ≡ ok r
      → r.0.code ≡ none
  effective-code (declared spec) h = concrete-code spec none h
  effective-code (authored_by spec agent) h = concrete-code spec (some agent) h
  effective-code neither h = cc

  resolve_code_spec-code :
      (spec : AgentSpec) {r : AgentSpec × Option Authored}
      → resolve_code_spec spec ≡ ok r
      → r.0.code ≡ none
  unfolding resolve_code_spec
  resolve_code_spec-code spec {r} h = elim (Option-cases spec.code) [
    | inl e ↦ ground (arith, e)
    | inr (ref, e) ↦
        let (built, found, done) =
          >>=-eq-ok (resolve_code modules ref) effective {value = r} (ground (arith, e)) in
        effective-code built done
  ]

  find_engine-find :
      (engines : Registry (Engine Authored Compiled)) (spec : AgentSpec)
      {engine : Engine Authored Compiled}
      → find_engine engines spec ≡ ok engine
      → (find entry_points engines spec.engine).0 ≡ some engine
  unfolding find_engine
  find_engine-find engines spec h = elim (Option-cases (find entry_points engines spec.engine).0) [
    | inl e ↦ absurd (ground (arith, e))
    | inr (engine, e) ↦ ground (arith, e)
  ]

  -- An agent that was built has a concrete spec, the engine that the registry has under that spec's
  -- engine name, and an engine that provides everything that the spec asks for.
  pub build_agent_honours :
      (engines : Registry (Engine Authored Compiled)) (spec : AgentSpec)
      {agent : RunnableAgent Authored Compiled}
      → build_agent engines spec ≡ ok agent
      → (agent.spec.code ≡ none)
        × ((find entry_points engines agent.spec.engine).0 ≡ some agent.engine)
        × (all (provides lower agent.engine.capabilities) (requirements agent.spec) ≡ true)
  unfolding build_agent
  build_agent_honours engines spec {agent} h =
      let (resolved, r, h1) = >>=-eq-ok (resolve_code_spec spec) _ h in
      let (engine, f, h2) = >>=-eq-ok (find_engine engines resolved.0) _ h1 in
      let (supported, g, h3) =
        >>=-eq-ok (assert_supports_spec lower engine.capabilities resolved.0) _ h2 in
      let (compiled, c, h4) = >>=-eq-ok (engine.build resolved.0 resolved.1) _ h3 in
      let same : record { spec = resolved.0; engine = engine; compiled = compiled } ≡ agent =
        cc h4 in
      subst
        (λ (a : RunnableAgent Authored Compiled).
          (a.spec.code ≡ none)
          × ((find entry_points engines a.spec.engine).0 ≡ some a.engine)
          × (all (provides lower a.engine.capabilities) (requirements a.spec) ≡ true))
        same
        (
          resolve_code_spec-code spec r,
          find_engine-find engines resolved.0 f,
          gate-provides lower engine.capabilities resolved.0 g,
        )
