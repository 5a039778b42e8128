-- ===== src/Lib.antt =====
-- AgentShip, a harness that builds, runs and serves agents. An agent's turn passes through the
-- service, which authenticates the request and binds its tenant, then through the middleware of the
-- runtime to an engine; a supervisor is an agent that dispatches specialists, retries those that
-- failed and resolves their results to one answer, and a tool with a side effect is called through
-- an idempotency ledger. The files model the packages below packages/; a path
-- that names no package is below packages/agentship-core/src/agentship:
--
-- - Errors: errors.py. `Result` is what a function returns or raises.
-- - Ledger: primitives/idempotency.py. `Entry` has the ledger's protocol with its one law and
--   DictLedger; `CallOnce` has call_once as a program of which the process may die before any call
--   of the ledger, of the tool or of its verify; `AtMostOnce` and `Replay` are about it.
-- - Specialist: primitives/dispatch.py, retry.py and conflict_resolver.py. What an agent's run does
--   is arbitrary, and may differ from run to run; runs are numbered by when they start.
-- - Supervisor: packages/agentship-langgraph/src/agentship_langgraph/templates/graph_supervisor.py and
--   graph_config.py. `Nodes` has a function for each node and edge, `Graph` composes them as the
--   graph is wired, `Derive` has the configuration of a team that is only declared by its members. A
--   turn starts from the state that its thread's checkpoint has, results and attempts included. The
--   retry loop is on fuel, `none` where it has not ended: two passes, and one more for each attempt
--   that is allowed to each routed specialist and each of which there is an earlier result, are enough.
-- - Text: the functions of `str` that the code calls. Texts are sequences of code points.
-- - Auth: auth and the Caller of context.py. The hash of an API key is
--   any function, and so is what the jwt library makes of a token.
-- - Tenancy: tenancy.py. The context variable is passed explicitly.
-- - Service: packages/agentship-service/src/agentship_service: `Problem` for errors.py, `Gate` for
--   middleware/auth.py, `Tasks` for routers/tasks.py, where the ids of new tasks are given, `RateLimit`
--   for middleware/ratelimit.py, with whole numbers of small units for its floats, and `Responses` for
--   middleware/headers.py around middleware/fallback.py. `Agents` has routers/agents.py, with the frames
--   of a stream.
-- - ThreadLock: thread_lock.py. Each method of the in-memory lock is one step, since it does not
--   await; `Exclusion` has the interleavings as a step relation, with coroutines that die and keys
--   that are reclaimed from them. The digest is any function.
-- - Registry: registry.py, over any list of entry points.
-- - Routing: primitives/model_router.py.
-- - Runtime: runtime.py: `Turn` has the middleware pipeline, where what a hook or an engine does is
--   arbitrary, and `Session` the context variables of turns that nest.
-- - Spec: spec.py: what an author writes, `Coherence` the validators, `Load` the loading of files and
--   of builders. Files, YAML and the interpreter's modules are arguments.
-- - Engine: engines/base.py: what an engine declares and the gate that a spec has to pass; `Build` has
--   build_agent of runtime.py, which composes the loading of a builder, the registry of engines, the
--   gate and the engine's build.
-- - Context: context.py, the context of a turn and the keys of its memory.
-- - A2a: a2a, and packages/agentship-service/src/agentship_service: a2a/server.py, a2a/mapping.py,
--   routers/a2a.py and registry.py. `Client` sends over any transport, `Server` answers, `Card` has the
--   card and the routes; `Transparency` joins client and server.
-- - Tools: packages/agentship-langgraph/src/agentship_langgraph/tools.py, over the program that Ledger
--   has of call_once; what the human says of a write is given with each call.
--   `Calculator` and `HttpRequest` are tools/builtins/calculator.py and http_request.py, with tools/registry.py.
-- - LangGraph: packages/agentship-langgraph/src/agentship_langgraph: engine.py, models.py, mcp.py and
--   tracing.py. `Message` splits a reply into answer and reasoning, `Models` resolves a model and its
--   errors, `Compiled` has the agent, its opening messages and its token, `Stream` the events of a turn,
--   `Turns` the turns over any graph and checkpointer, with the law on both that some results ask for, `Build` what an agent is built
--   with, and `Tracing` the spans of the callbacks.
-- - Json: the values that messages, frames and attributes carry.
-- - Skills: skills/loader.py, registry.py and render.py.
-- - Voice: packages/agentship-voice/src/agentship_voice: turn.py and trace.py. Times are whole numbers.
-- - Observability: observability/recorder.py, trace_view.py and semconv.py. `Recorder` has the spans as
--   objects that refer to each other; a reference is the number of the object, and freezing is on fuel,
--   for which the number of objects is enough. `Program` has a turn's spans as they nest, which the
--   recorder refines.
--   `Exporters` and `Factory` have packages/agentship-observability/src/agentship_observability: config.py,
--   exporters and factory.py, and `Resolving` has observability/registry.py.
-- - Prelude, Dict: shared names and lemmas; Python's dict as a list of entries in insertion order.
-- - Examples: the results at concrete inputs.
--
-- Not modelled: the graph engine, the database, audio and tracing libraries and the code that only
-- calls them, such as the opening of stores and the built-in tools that fetch a page; the web framework's
-- routing and the voice adapters; the command line; the texts of messages for people.
-- Confidences are values with a comparison; where an order is needed it is a hypothesis, which floats
-- other than NaN meet.
pub mod Prelude
pub mod Dict
pub mod Errors
pub mod Ledger
pub mod Specialist
pub mod Supervisor
pub mod Text
pub mod Auth
pub mod Tenancy
pub mod Service
pub mod ThreadLock
pub mod Registry
pub mod Routing
pub mod Runtime
pub mod Spec
pub mod Engine
pub mod Context
pub mod Voice
pub mod A2a
pub mod Tools
pub mod Observability
pub mod Json
pub mod LangGraph
pub mod Skills
pub mod Examples
