-- ===== src/LangGraph/Turns.antt =====
-- agentship_langgraph/engine.py: `run` and `resume` of a checkpointed conversation, and its amendment. LangGraph
-- and its checkpointer are a parameter: what a graph that is bound to a saver answers.
pub mod Memory
pub mod Resuming
pub mod Prompt
use agent_ship.Prelude.{
  String, Bool, true, false, Option, none, some, List, [], ◌∷◌, ◌&&◌, ◌==◌, not, if◌then◌else◌,
}
use mathlib.Core.List.{reverse}
use agent_ship.Spec.{checkpoint}
use agent_ship.Engine.{same_durability}
use agent_ship.Context.{RunContext, conversation_key}
use agent_ship.Errors.{Error, capability_error, resume_error, thread_busy_error}
use agent_ship.Json.{Json, Fields, null, string, at, is_true}
use agent_ship.LangGraph.Message.{Message, Kind, ai, ai_chunk}
use agent_ship.LangGraph.Models.{Exception, Raised, unchanged, escape_as}
use agent_ship.LangGraph.Compiled.{
  CompiledAgent, ResumeToken, initial_messages, mint_token, engine_name, new_message,
}
use agent_ship.LangGraph.Stream.{
  Item, Snapshot, snapshot, no_snapshot, wrapped, stream_graph, Streamed,
}

-- An answer of the library, or what it raises.
pub data Asked (A : Type 0) : Type 0 where
  answered : A → Asked A
  failed : Exception → Asked A

-- What a graph is invoked with: a turn's messages, Command(resume=value), or None.
pub data Input : Type 0 where
  turn_messages : List Message → Input
  command : (resume_value : Json) → Input
  nothing : Input

-- The state that an invocation gives: its messages and the values of the pending interrupts.
pub record State : Type 0 where
  pub messages_of : List Message
  pub pending : List Json

-- What `aget_state` gives: a thread that was never run has no time of creation.
pub record StateSnapshot : Type 0 where
  pub values : List Message
  pub checkpoint_id : Option String
  pub created_at : Option String

-- A graph with its saver, as the engine calls them; each thread has a name.
pub record Graph (Saver : Type 0) : Type 0 where
  pub aget_tuple : Saver → String → Asked (Option (List Message))
  pub ainvoke : Saver → String → Input → Asked State × Saver
  pub astream : Saver → String → List Message → List Item × Option Exception × Saver
  pub aget_state : Saver → String → Asked StateSnapshot
  pub aupdate_state : Saver → String → Message → Asked (Unit {0}) × Saver

-- engines/base.py's Result
pub record Result : Type 0 where
  pub output : Json
  pub resume_token : Option ResumeToken
  pub interrupt : Option Json

-- What comes back of a turn: its result, an error of AgentShip's own, or what the engine lets through.
pub data Reply : Type 0 where
  result : Result → Reply
  refused : Error → Reply
  raised : Raised → Reply

-- `state["messages"][-1]` of a state without messages
abbrev index_error : Exception
index_error = record {
  module_name = "builtins";
  transport_error = false;
  text = "list index out of range";
}

abbrev pub last_of : List Message → Option Message
last_of ms = elim (reverse ms) [ [] ↦ none | m ∷ rest ↦ some m ]

-- _interrupt_payload
unfoldable pub interrupt_payload : State → Option Json
interrupt_payload state = elim state.pending [
  | [] ↦ none
  | value ∷ values ↦ some (wrapped "payload" value)
]

abbrev is_some_payload : Option Json → Bool
is_some_payload none = false
is_some_payload (some payload) = true

-- Result(output=state["messages"][-1].content, resume_token=token)
abbrev pub finished : Option ResumeToken → Option Message → Reply
finished token none = raised (unchanged index_error)
finished token (some m) =
    result record { output = m.content; resume_token = token; interrupt = none }

-- the two ways in which an invocation ends well
unfoldable pub result_of : State → Option ResumeToken → Option Json → Reply
result_of state token (some payload) =
    result record { output = null; resume_token = token; interrupt = some payload }
result_of state token none = finished token (last_of state.messages_of)

abbrev is_text : String → Json → Bool
is_text thread_id (string claimed) = claimed == thread_id
is_text thread_id other = false

-- claimed and claimed != thread_id
abbrev pub claims_another : ResumeToken → String → Bool
claims_another token thread_id =
    let claimed = at token.blob "thread_id" in is_true claimed && not (is_text thread_id claimed)

-- Command(resume=resume_value) if resume_value is not None else None
abbrev pub resume_input : Json → Input
resume_input null = nothing
resume_input value = command value

-- isinstance(m, AIMessage), which chunks are too
abbrev is_ai : Message → Bool
is_ai m = elim m.kind [ ai ↦ true | ai_chunk ↦ true | _ ↦ false ]

abbrev first_ai : List Message → Option Message
first_ai [] = none
first_ai (m ∷ ms) = let rest = first_ai ms in if is_ai m then some m else rest

-- AIMessage(id=last.id, content=text)
abbrev amended : String → String → Message
amended id text = record (new_message ai text) { id = some id }

module _ {Saver : Type 0} (g : Graph Saver) where
  -- _has_history: a store that fails is taken for one that has none
  unfoldable pub has_history : Saver → String → Bool
  has_history saver thread_id = elim (g.aget_tuple saver thread_id) [
    | failed exc ↦ false
    | answered none ↦ false
    | answered (some ms) ↦ true
  ]

  abbrev pub minted : String → Bool → Asked StateSnapshot → (Option ResumeToken → Reply) → Reply
  minted thread_id interrupted (failed exc) next = raised (unchanged exc)
  minted thread_id interrupted (answered state) next =
      next (some (mint_token thread_id state.checkpoint_id interrupted))

  module _ (lower repr : String → String) where
    abbrev pub finalize : String → String → Bool → Asked State × Saver → Reply × Saver
    finalize thread_id model_id durable (failed exc, saver) =
        (raised (escape_as lower repr model_id exc), saver)
    finalize thread_id model_id durable (answered state, saver) =
        let payload = interrupt_payload state in
        let next = λ (token : Option ResumeToken). result_of state token payload in
        (
          if durable
              then minted thread_id (is_some_payload payload) (g.aget_state saver thread_id) next
              else next none,
          saver,
        )

    -- _invoke_and_finalize
    unfoldable pub invoke_and_finalize : Input → String → String → Bool → Saver → Reply × Saver
    unfolding escape_as interrupt_payload mint_token result_of
    invoke_and_finalize input thread_id model_id durable saver =
        finalize thread_id model_id durable (g.ainvoke saver thread_id input)

    -- `run`, which is _run_durable
    unfoldable pub run : CompiledAgent → String → RunContext → Saver → Reply × Saver
    unfolding conversation_key has_history initial_messages invoke_and_finalize
    run compiled text ctx saver =
        let thread_id = conversation_key ctx in
        let resuming = has_history saver thread_id in
        invoke_and_finalize (turn_messages (initial_messages compiled text resuming)) thread_id
          compiled.model_id (same_durability compiled.durability checkpoint) saver

    abbrev pub resume_from : Json → String → String → Saver → Asked StateSnapshot → Reply × Saver
    resume_from value thread_id model_id saver (failed exc) = (raised (unchanged exc), saver)
    resume_from value thread_id model_id saver (answered existing) = elim existing.created_at [
      | none ↦ (refused resume_error, saver)
      | some time ↦ invoke_and_finalize (resume_input value) thread_id model_id true saver
    ]

    -- `resume`; `owned` is whether another owner holds the thread's lock
    unfoldable pub resume :
        CompiledAgent → ResumeToken → RunContext → Json → (owned : Bool) → Saver → Reply × Saver
    unfolding conversation_key invoke_and_finalize at
    resume compiled token ctx value owned saver =
        let thread_id = conversation_key ctx in
        if not (token.engine == engine_name)
        then (refused capability_error, saver)
        else if claims_another token thread_id
        then (refused resume_error, saver)
        else if owned
        then (refused thread_busy_error, saver)
        else resume_from value thread_id compiled.model_id saver (g.aget_state saver thread_id)

    abbrev snapshot_of : Asked StateSnapshot → Snapshot
    snapshot_of (failed exc) = no_snapshot
    snapshot_of (answered state) = snapshot state.checkpoint_id

    module _ (render : Json → String) where
      -- `stream`
      unfoldable pub stream : CompiledAgent → String → RunContext → Saver → Streamed × Saver
      unfolding conversation_key has_history initial_messages stream_graph
      stream compiled text ctx saver =
          let thread_id = conversation_key ctx in
          let resuming = has_history saver thread_id in
          let (items, failure, after) =
            g.astream saver thread_id (initial_messages compiled text resuming) in
          (
            stream_graph lower repr render compiled thread_id
                (snapshot_of (g.aget_state after thread_id)) items failure,
            after,
          )

  abbrev wrote : Asked (Unit {0}) × Saver → Bool × Saver
  wrote (failed exc, saver) = (false, saver)
  wrote (answered _, saver) = (true, saver)

  abbrev amend_last : String → String → Saver → Option Message → Bool × Saver
  amend_last thread_id text saver none = (false, saver)
  amend_last thread_id text saver (some last) = elim last.id [
    | none ↦ (false, saver)
    | some id ↦ wrote (g.aupdate_state saver thread_id (amended id text))
  ]

  -- `amend_conversation`, which swallows every failure
  unfoldable amend_conversation : RunContext → String → Saver → Bool × Saver
  unfolding conversation_key
  amend_conversation ctx text saver =
      let thread_id = conversation_key ctx in
      elim (g.aget_state saver thread_id) [
        | failed exc ↦ (false, saver)
        | answered state ↦ amend_last thread_id text saver (first_ai (reverse state.values))
      ]
