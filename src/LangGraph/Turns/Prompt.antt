-- ===== src/LangGraph/Turns/Prompt.antt =====
-- How the system prompt of an agent stands in a conversation.
use agent_ship.Prelude.{
  String, ◌≡◌, refl, inl, inr, true, false, Option, none, some, List, [], ◌∷◌, ◌++◌, ◌&&◌, ◌==◌,
  eq_iff, keep, keep-append, if◌then◌else◌, truthy, arith, Bool-cases,
}
use mathlib.Core.List.{append-nil}
use agent_ship.Context.{conversation_key}
use agent_ship.Json.{Json}
use agent_ship.LangGraph.Message.{Message, human}
use agent_ship.LangGraph.Compiled.{CompiledAgent, initial_messages, new_message, prompt_messages}
use agent_ship.LangGraph.Turns.{Graph}
use agent_ship.LangGraph.Turns.Memory.{
  is_system, is_there, Continues, untouched, grown, Accumulates, Turn, take_turn, take_turns,
  context_of, text_of, take_turn-Continues, take_turn-elsewhere,
}

initial_prompt :
    (prompt : Option String) (text : String)
    → keep is_system (
        (if truthy prompt && true then prompt_messages prompt else [])
        ++ new_message human text ∷ [])
      ≡ (if truthy prompt then prompt_messages prompt else [])
initial_prompt none text = refl
initial_prompt (some prompt) text = ground arith

module _ (compiled : CompiledAgent) where
  -- the system messages of a conversation that is there
  abbrev the_prompt : List Message
  the_prompt = if truthy compiled.system_prompt then prompt_messages compiled.system_prompt else []

  -- A thread that has a conversation has the prompt in it, and no other system message.
  abbrev pub Prompted : Option (List Message) → Type 0
  Prompted none = Unit
  Prompted (some ms) = keep is_system ms ≡ the_prompt

  initial_messages-new :
      (text : String) → keep is_system (initial_messages compiled text false) ≡ the_prompt
  unfolding initial_messages
  initial_messages-new text = initial_prompt compiled.system_prompt text

  initial_messages-resuming :
      (text : String) → keep is_system (initial_messages compiled text true) ≡ []
  unfolding initial_messages
  initial_messages-resuming text = ground arith

  -- One more turn, where the prompt goes in exactly if there is no conversation yet.
  Continues-Prompted :
      (text : String) (before after : Option (List Message))
      → Continues (initial_messages compiled text (is_there before)) before after
      → Prompted before
      → Prompted after
  Continues-Prompted text before after (untouched e) h = rw e h
  Continues-Prompted text none after (grown new n e) h = rw (
    e,
    keep-append is_system (initial_messages compiled text false) new,
    initial_messages-new text,
    n,
    append-nil the_prompt,
  )
  Continues-Prompted text (some ms) after (grown new n e) h = rw (
    e,
    keep-append is_system ms (initial_messages compiled text true ++ new),
    keep-append is_system (initial_messages compiled text true) new,
    h,
    initial_messages-resuming text,
    n,
    append-nil the_prompt,
  )

module _ {Saver : Type 0} {g : Graph Saver} {conversation : Saver → String → Option (List Message)}
    (law : Accumulates g conversation) (lower repr : String → String) (render : Json → String)
    (compiled : CompiledAgent) where
  take_turn-Prompted :
      (turn : Turn) (saver : Saver) (u : String)
      → Prompted compiled (conversation saver u)
      → Prompted compiled (conversation (take_turn g lower repr render compiled turn saver) u)
  take_turn-Prompted turn saver u h =
      let t = conversation_key (context_of turn) in
      elim (Bool-cases (t == u)) [
        | inl e ↦
            let same : t ≡ u = (eq_iff t u).0 e in
            Continues-Prompted compiled (text_of turn) (conversation saver u)
              (conversation (take_turn g lower repr render compiled turn saver) u)
              (rw same at (take_turn-Continues law lower repr render compiled turn saver)) h
        | inr e ↦ rw (take_turn-elsewhere law lower repr render compiled turn saver u e) h
      ]

  -- Take a checkpointer that answers each time it is asked for a thread, and a graph of which each turn
  -- leaves its thread's conversation as it is, or adds the turn's messages and others, none of them a
  -- system message, and leaves the other threads alone. Whatever turns are then taken on whatever threads,
  -- by `run` or by `stream`: a thread that began with no conversation, or with the agent's prompt once in
  -- it, has the system prompt in its conversation once, if it has one and the agent has a prompt, and no
  -- other system message.
  pub system_prompt_once :
      (turns : List Turn) (saver : Saver) (u : String)
      → Prompted compiled (conversation saver u)
      → Prompted compiled (conversation (take_turns g lower repr render compiled turns saver) u)
  unfolding take_turns
  system_prompt_once [] saver u h = h
  system_prompt_once (turn ∷ turns) saver u h =
      system_prompt_once turns (take_turn g lower repr render compiled turn saver) u
        (take_turn-Prompted turn saver u h)
