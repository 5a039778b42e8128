-- ===== src/LangGraph/Turns/Memory.antt =====
-- A conversation over many turns: which messages a thread's checkpoints hold, as LangGraph's documentation has it
-- of a graph whose message channel accumulates.
use agent_ship.Prelude.{
  String, ◌≡◌, refl, Bool, true, false, Option, none, some, List, [], ◌∷◌, ◌++◌, ◌==◌, keep,
}
use agent_ship.Context.{RunContext, conversation_key}
use agent_ship.Json.{Json}
use agent_ship.LangGraph.Message.{Message, system}
use agent_ship.LangGraph.Compiled.{CompiledAgent, initial_messages}
use agent_ship.LangGraph.Turns.{
  Graph, Asked, answered, failed, State, Input, turn_messages, has_history, finalize,
  invoke_and_finalize, run, stream,
}

abbrev pub is_system : Message → Bool
is_system m = elim m.kind [ system ↦ true | _ ↦ false ]

abbrev pub or_none : Option (List Message) → List Message
or_none none = []
or_none (some ms) = ms

abbrev pub is_there : Option (List Message) → Bool
is_there none = false
is_there (some ms) = true

-- What a turn does to the conversation: nothing, or it goes on with the turn's messages and with others, none
-- of them a system message.
pub data Continues (input : List Message) (before after : Option (List Message)) : Type 0 where
  untouched : after ≡ before → Continues input before after
  grown :
      (new : List Message)
      → keep is_system new ≡ []
      → after ≡ some (or_none before ++ (input ++ new))
      → Continues input before after

-- A checkpointer that answers, and a graph whose nodes write no system message.
pub record Accumulates {Saver : Type 0} (g : Graph Saver)
    (conversation : Saver → String → Option (List Message)) : Type 0 where
  pub told : (saver : Saver) (t : String) → g.aget_tuple saver t ≡ answered (conversation saver t)
  pub invoked :
      (saver : Saver) (t : String) (input : List Message)
      → Continues input
          (conversation saver t)
          (conversation (g.ainvoke saver t (turn_messages input)).1 t)
  pub streamed :
      (saver : Saver) (t : String) (input : List Message)
      → Continues input (conversation saver t) (conversation (g.astream saver t input).2 t)
  pub invoked_elsewhere :
      (saver : Saver) (t u : String) (input : Input)
      → (t == u) ≡ false
      → conversation (g.ainvoke saver t input).1 u ≡ conversation saver u
  pub streamed_elsewhere :
      (saver : Saver) (t u : String) (input : List Message)
      → (t == u) ≡ false
      → conversation (g.astream saver t input).2 u ≡ conversation saver u

module _ {Saver : Type 0} (g : Graph Saver) (lower repr : String → String) where
  pub finalize-saver :
      (thread_id model_id : String) (durable : Bool) (answer : Asked State × Saver)
      → (finalize g lower repr thread_id model_id durable answer).1 ≡ answer.1
  finalize-saver thread_id model_id durable (failed exc, saver) = refl
  finalize-saver thread_id model_id durable (answered state, saver) = refl

-- A turn of the agent, by `run` or by `stream`.
pub data Turn : Type 0 where
  run_turn stream_turn : (ctx : RunContext) (text : String) → Turn

module _ {Saver : Type 0} (g : Graph Saver) (lower repr : String → String) (render : Json → String)
    (compiled : CompiledAgent) where
  unfoldable pub take_turn : Turn → Saver → Saver
  unfolding run stream
  take_turn (run_turn ctx text) saver = (run g lower repr compiled text ctx saver).1
  take_turn (stream_turn ctx text) saver = (stream g lower repr render compiled text ctx saver).1

  unfoldable pub take_turns : List Turn → Saver → Saver
  unfolding take_turn
  take_turns [] saver = saver
  take_turns (t ∷ turns) saver = take_turns turns (take_turn t saver)

abbrev pub context_of : Turn → RunContext
context_of (run_turn ctx text) = ctx
context_of (stream_turn ctx text) = ctx

abbrev pub text_of : Turn → String
text_of (run_turn ctx text) = text
text_of (stream_turn ctx text) = text

module _ {Saver : Type 0} {g : Graph Saver} {conversation : Saver → String → Option (List Message)}
    (law : Accumulates g conversation) (lower repr : String → String) (render : Json → String)
    (compiled : CompiledAgent) where
  has_history-answered :
      (saver : Saver) (t : String) (c : Option (List Message))
      → g.aget_tuple saver t ≡ answered c
      → has_history g saver t ≡ is_there c
  unfolding has_history
  has_history-answered saver t none e = rw (e, has_history) refl
  has_history-answered saver t (some ms) e = rw (e, has_history) refl

  has_history-conversation :
      (saver : Saver) (t : String) → has_history g saver t ≡ is_there (conversation saver t)
  has_history-conversation saver t =
      has_history-answered saver t (conversation saver t) (law.told saver t)

  -- A turn on its own thread.
  pub take_turn-Continues :
      (turn : Turn) (saver : Saver)
      → let t = conversation_key (context_of turn) in
        Continues
          (initial_messages compiled (text_of turn) (is_there (conversation saver t)))
          (conversation saver t)
          (conversation (take_turn g lower repr render compiled turn saver) t)
  unfolding take_turn run stream invoke_and_finalize
  take_turn-Continues (run_turn ctx text) saver =
      let t = conversation_key ctx in
      rw (finalize-saver g lower repr t compiled.model_id _ _, has_history-conversation saver t)
        (law.invoked saver t _)
  take_turn-Continues (stream_turn ctx text) saver =
      let t = conversation_key ctx in rw (has_history-conversation saver t) (law.streamed saver t _)

  -- A turn on another thread.
  pub take_turn-elsewhere :
      (turn : Turn) (saver : Saver) (u : String)
      → (conversation_key (context_of turn) == u) ≡ false
      → conversation (take_turn g lower repr render compiled turn saver) u ≡ conversation saver u
  unfolding take_turn run stream invoke_and_finalize
  take_turn-elsewhere (run_turn ctx text) saver u h =
      let t = conversation_key ctx in
      rw (finalize-saver g lower repr t compiled.model_id _ _) (law.invoked_elsewhere saver t u _ h)
  take_turn-elsewhere (stream_turn ctx text) saver u h =
      law.streamed_elsewhere saver (conversation_key ctx) u _ h
