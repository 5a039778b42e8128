-- ===== src/Runtime/Turn.antt =====
-- `RunnableAgent.run`: context variables, routing, the middleware pipeline and its error hooks.
use agent_ship.Prelude.{String, List, [], ◌∷◌, ◌++◌}
use mathlib.Core.List.{reverse}

-- An exception that user code raises is any value; `cancelled` and the like are among them.
-- What a hook does to the context, and how it ends, is not the program's choice.
pub data Ending (Exc A : Type 0) : Type 0 where
  returns : A → Ending Exc A
  throws : Exc → Ending Exc A

pub record Middleware (Ctx Res Exc : Type 0) : Type 0 where
  pub name : String
  pub on_request : Ctx → Ctx × Ending Exc (Unit {0})
  pub on_response : Ctx → Res → Ctx × Ending Exc Res
  pub on_error : Ctx → Exc → Ctx × Ending Exc (Unit {0})

pub record Engine (Ctx Res Exc : Type 0) : Type 0 where
  pub run : Ctx → Ctx × Ending Exc Res

-- What a turn has done, in order.
pub data Event : Type 0 where
  requested responded observed_error : (name : String) → Event
  engine_ran : Event

module _ {Ctx Res Exc : Type 0} where
  -- for mw in pipeline: await mw.on_request(ctx)
  unfoldable pub request_hooks :
      List (Middleware Ctx Res Exc) → Ctx → List Event × Ctx × Ending Exc (Unit {0})
  request_hooks [] ctx = ([], ctx, returns tt)
  request_hooks (mw ∷ pipeline) ctx =
      let (ctx', ending) = mw.on_request ctx in
      let rest = request_hooks pipeline ctx' in
      elim ending [
        | throws e ↦ (requested mw.name ∷ [], ctx', throws e)
        | returns _ ↦ (requested mw.name ∷ rest.0, rest.1, rest.2)
      ]

  -- What follows one on_response: the rest of the reversed pipeline, unless the hook raised.
  abbrev pub after_response :
      String
      → (Ctx → Res → List Event × Ctx × Ending Exc Res)
      → Ctx × Ending Exc Res
      → List Event × Ctx × Ending Exc Res
  after_response name rest (ctx, throws e) = (responded name ∷ [], ctx, throws e)
  after_response name rest (ctx, returns result) =
      let (events, ctx', ending) = rest ctx result in (responded name ∷ events, ctx', ending)

  -- for mw in reversed(pipeline): result = await mw.on_response(ctx, result), over the reversed list
  unfoldable pub response_hooks :
      List (Middleware Ctx Res Exc) → Ctx → Res → List Event × Ctx × Ending Exc Res
  response_hooks [] ctx result = ([], ctx, returns result)
  response_hooks (mw ∷ reversed) ctx result =
      after_response mw.name (response_hooks reversed) (mw.on_response ctx result)

  -- `_run_error_hooks`, over the reversed pipeline: what a hook raises is logged and swallowed.
  unfoldable pub run_error_hooks : List (Middleware Ctx Res Exc) → Ctx → Exc → List Event
  run_error_hooks [] ctx exc = []
  run_error_hooks (mw ∷ reversed) ctx exc =
      observed_error mw.name ∷ run_error_hooks reversed (mw.on_error ctx exc).0 exc

  abbrev pub after_engine :
      List (Middleware Ctx Res Exc) → Ctx × Ending Exc Res → List Event × Ctx × Ending Exc Res
  after_engine pipeline (ctx, throws e) = (engine_ran ∷ [], ctx, throws e)
  after_engine pipeline (ctx, returns result) =
      let (events, ctx', ending) = response_hooks (reverse pipeline) ctx result in
      (engine_ran ∷ events, ctx', ending)

  abbrev pub after_requests :
      Engine Ctx Res Exc
      → List (Middleware Ctx Res Exc)
      → List Event × Ctx × Ending Exc (Unit {0})
      → List Event × Ctx × Ending Exc Res
  after_requests engine pipeline (events, ctx, throws e) = (events, ctx, throws e)
  after_requests engine pipeline (events, ctx, returns _) =
      let (events', ctx', ending) = after_engine pipeline (engine.run ctx) in
      (events ++ events', ctx', ending)

  -- the body of the `try`
  unfoldable pub pipeline_body :
      Engine Ctx Res Exc → List (Middleware Ctx Res Exc) → Ctx → List Event × Ctx × Ending Exc Res
  unfolding request_hooks response_hooks
  pipeline_body engine pipeline ctx = after_requests engine pipeline (request_hooks pipeline ctx)

  abbrev pub observe :
      List (Middleware Ctx Res Exc)
      → List Event × Ctx × Ending Exc Res
      → List Event × Ending Exc Res
  observe pipeline (events, ctx, returns result) = (events, returns result)
  observe pipeline (events, ctx, throws e) =
      (events ++ run_error_hooks (reverse pipeline) ctx e, throws e)

  -- the `try` with its `except BaseException`: the hooks observe, and the exception goes on
  unfoldable pub run_pipeline :
      Engine Ctx Res Exc → List (Middleware Ctx Res Exc) → Ctx → List Event × Ending Exc Res
  unfolding pipeline_body run_error_hooks
  run_pipeline engine pipeline ctx = observe pipeline (pipeline_body engine pipeline ctx)
