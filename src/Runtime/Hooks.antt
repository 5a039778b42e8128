-- ===== src/Runtime/Hooks.antt =====
-- Which hooks a turn runs, in which order, and what becomes of an exception.
use agent_ship.Prelude.{String, ◌≡◌, refl, ap, ◌∙◌, List, [], ◌∷◌, ◌++◌, map, arith}
use mathlib.Core.List.{reverse}
use agent_ship.Runtime.Turn.{
  Event, requested, responded, observed_error, engine_ran, Ending, returns, throws, Middleware,
  Engine, request_hooks, response_hooks, run_error_hooks, pipeline_body, run_pipeline,
  after_response, after_engine, after_requests, observe,
}

module _ {Ctx Res Exc : Type 0} where
  abbrev requests : List (Middleware Ctx Res Exc) → List Event
  requests pipeline = map (λ mw. requested (mw.name)) pipeline

  abbrev responses : List (Middleware Ctx Res Exc) → List Event
  responses pipeline = map (λ mw. responded (mw.name)) pipeline

  abbrev observations : List (Middleware Ctx Res Exc) → List Event
  observations pipeline = map (λ mw. observed_error (mw.name)) pipeline

  observe_all :
      (pipeline : List (Middleware Ctx Res Exc)) (ctx : Ctx) (exc : Exc)
      → run_error_hooks pipeline ctx exc ≡ observations pipeline
  unfolding run_error_hooks
  observe_all [] ctx exc = refl
  observe_all (mw ∷ pipeline) ctx exc =
      ground (arith, observe_all pipeline (mw.on_error ctx exc).0 exc)

  request_hooks-returns :
      (pipeline : List (Middleware Ctx Res Exc)) (ctx : Ctx)
      → (request_hooks pipeline ctx).2 ≡ returns tt
      → (request_hooks pipeline ctx).0 ≡ requests pipeline
  unfolding request_hooks
  request_hooks-returns [] ctx h = refl
  request_hooks-returns (mw ∷ pipeline) ctx h =
      grind (arith, request_hooks-returns pipeline (mw.on_request ctx).0)

  after_response-returns :
      (name : String) (rest : Ctx → Res → List Event × Ctx × Ending Exc Res)
      (reply : Ctx × Ending Exc Res) (last : Res) (expected : List Event)
      → ((ctx : Ctx) (result : Res)
          → (rest ctx result).2 ≡ returns last
          → (rest ctx result).0 ≡ expected)
      → (after_response name rest reply).2 ≡ returns last
      → (after_response name rest reply).0 ≡ responded name ∷ expected
  after_response-returns name rest (ctx, throws e) last expected lem h = ground arith
  after_response-returns name rest (ctx, returns result) last expected lem h =
      ap (◌∷◌ (responded name)) (lem ctx result h)

  response_hooks-returns :
      (pipeline : List (Middleware Ctx Res Exc)) (ctx : Ctx) (result last : Res)
      → (response_hooks pipeline ctx result).2 ≡ returns last
      → (response_hooks pipeline ctx result).0 ≡ responses pipeline
  unfolding response_hooks
  response_hooks-returns [] ctx result last h = refl
  response_hooks-returns (mw ∷ pipeline) ctx result last h =
      after_response-returns mw.name (response_hooks pipeline) (mw.on_response ctx result) last
        (responses pipeline) (λ ctx' result'. response_hooks-returns pipeline ctx' result' last) h

  observe-returns :
      (pipeline : List (Middleware Ctx Res Exc)) (turn : List Event × Ctx × Ending Exc Res)
      (result : Res)
      → (observe pipeline turn).1 ≡ returns result
      → (turn.2 ≡ returns result) × ((observe pipeline turn).0 ≡ turn.0)
  observe-returns pipeline (events, ctx, returns r) result h = (h, refl)
  observe-returns pipeline (events, ctx, throws e) result h = ground arith

  observe-throws :
      (pipeline : List (Middleware Ctx Res Exc)) (turn : List Event × Ctx × Ending Exc Res)
      (exc : Exc)
      → turn.2 ≡ throws exc
      → observe pipeline turn ≡ (turn.0 ++ observations (reverse pipeline), throws exc)
  observe-throws pipeline (events, ctx, returns r) exc h = ground arith
  observe-throws pipeline (events, ctx, throws e) exc h =
      ground (arith, observe_all (reverse pipeline) ctx e)

  after_engine-returns :
      (pipeline : List (Middleware Ctx Res Exc)) (reply : Ctx × Ending Exc Res) (last : Res)
      → (after_engine pipeline reply).2 ≡ returns last
      → (after_engine pipeline reply).0 ≡ engine_ran ∷ responses (reverse pipeline)
  after_engine-returns pipeline (ctx, throws e) last h = ground arith
  after_engine-returns pipeline (ctx, returns result) last h =
      ap (◌∷◌ engine_ran) (response_hooks-returns (reverse pipeline) ctx result last h)

  after_requests-returns :
      (engine : Engine Ctx Res Exc) (pipeline : List (Middleware Ctx Res Exc))
      (turn : List Event × Ctx × Ending Exc (Unit {0})) (last : Res)
      → (after_requests engine pipeline turn).2 ≡ returns last
      → (turn.2 ≡ returns tt)
        × ((after_requests engine pipeline turn).0
            ≡ turn.0 ++ engine_ran ∷ responses (reverse pipeline))
  after_requests-returns engine pipeline (events, ctx, throws e) last h = ground arith
  after_requests-returns engine pipeline (events, ctx, returns _) last h =
      (refl, ap (◌++◌ events) (after_engine-returns pipeline (engine.run ctx) last h))

  -- A turn that ends well has run every middleware's on_request in the pipeline's order, then the engine once, then
  -- every on_response in reverse, and no on_error.
  run_pipeline-returns :
      (engine : Engine Ctx Res Exc) (pipeline : List (Middleware Ctx Res Exc)) (ctx : Ctx)
      (result : Res)
      → (run_pipeline engine pipeline ctx).1 ≡ returns result
      → (run_pipeline engine pipeline ctx).0
        ≡ requests pipeline ++ engine_ran ∷ responses (reverse pipeline)
  unfolding run_pipeline pipeline_body
  run_pipeline-returns engine pipeline ctx result h =
      let turn = request_hooks pipeline ctx in
      let (ended, events) = observe-returns pipeline (pipeline_body engine pipeline ctx) result h in
      let (asked, events') = after_requests-returns engine pipeline turn result ended in
      events
      ∙ events'
      ∙ ap (λ (first : List Event). first ++ engine_ran ∷ responses (reverse pipeline))
          (request_hooks-returns pipeline ctx asked)

  -- A turn that fails raises the very exception the hooks or the engine raised, after every middleware's on_error has
  -- run in reverse order: no hook swallows it, and none that fails starves the others.
  pub run_pipeline-throws :
      (engine : Engine Ctx Res Exc) (pipeline : List (Middleware Ctx Res Exc)) (ctx : Ctx)
      (exc : Exc)
      → (pipeline_body engine pipeline ctx).2 ≡ throws exc
      → run_pipeline engine pipeline ctx
        ≡ ((pipeline_body engine pipeline ctx).0 ++ observations (reverse pipeline), throws exc)
  unfolding run_pipeline
  run_pipeline-throws engine pipeline ctx exc h =
      observe-throws pipeline (pipeline_body engine pipeline ctx) exc h
