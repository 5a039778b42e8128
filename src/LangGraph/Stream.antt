-- ===== src/LangGraph/Stream.antt =====
-- agentship_langgraph/engine.py: `_stream_graph` and `_pause_event`, over what LangGraph streams of a turn.
pub mod Internal
pub mod Shown
pub mod Answer
pub mod Spoken
pub mod Private
use agent_ship.Prelude.{
  String, Bool, true, false, Option, none, some, List, [], ◌∷◌, ◌++◌, map, ◌&&◌, ◌||◌, not, ◌==◌,
  elem, if◌then◌else◌,
}
use agent_ship.Spec.{checkpoint}
use agent_ship.Engine.{same_durability}
use agent_ship.Json.{Json, Fields, null, string, object, no_fields, field, is_true, or_else}
use agent_ship.LangGraph.Message.{
  Message, Kind, ToolCall, human, system, ai, ai_chunk, tool, split_reasoning,
}
use agent_ship.LangGraph.Models.{Exception, Raised, escape_as}
use agent_ship.LangGraph.Compiled.{CompiledAgent, mint_token, dump_token}

-- An event of an engine, as agentship/engines/base.py has it.
pub record Event : Type 0 where
  pub type : String
  pub data_of : Json

-- One entry of an "updates" payload: the values of the pending interrupts, which LangGraph files under
-- "__interrupt__", the messages of a node's update, or what is no dict.
pub data Update : Type 0 where
  interrupts : List Json → Update
  node_update : List Message → Update
  no_dict : Update

-- What LangGraph streams, in its two modes.
pub data Item : Type 0 where
  updates : List Update → Item
  messages : (message : Message) (langgraph_node : Option String) → Item

-- the local variables of the loop
pub record Progress : Type 0 where
  pub streamed_content : Bool
  pub last_full_content : Json
  pub interrupted : List Json

abbrev pub start : Progress
start = record { streamed_content = false; last_full_content = null; interrupted = [] }

abbrev pub said : String → Json → Event
said type value = record { type = type; data_of = value }

-- if text: yield Event(type=type, data=text)
abbrev pub said_if : String → String → List Event
said_if type text = if text == "" then [] else said type (string text) ∷ []

abbrev pub tool_results : Message → List Event
tool_results produced = elim produced.kind [
  | tool ↦
      said "tool_result"
        (object (field "tool" produced.name (field "result" produced.content no_fields)))
      ∷ []
  | _ ↦ []
]

abbrev pub tool_called : ToolCall → Event
tool_called call = said "tool_call" (
    object (field "tool" call.name (field "args" (or_else call.args (object no_fields)) no_fields)))

-- for produced in update.get("messages", [])
unfoldable pub tool_events : List Message → List Event
tool_events [] = []
tool_events (produced ∷ rest) =
    tool_results produced ++ (map tool_called produced.tool_calls ++ tool_events rest)

-- for key, update in payload.items()
unfoldable pub on_updates : List Update → Progress → List Event × Progress
unfolding tool_events
on_updates [] p = ([], p)
on_updates (interrupts pending ∷ rest) p = on_updates rest (record p { interrupted = pending })
on_updates (no_dict ∷ rest) p = on_updates rest p
on_updates (node_update produced ∷ rest) p =
    let (events, after) = on_updates rest p in (tool_events produced ++ events, after)

-- node in compiled.internal_nodes
abbrev pub is_internal : List String → Option String → Bool
is_internal internal_nodes none = false
is_internal internal_nodes (some node) = elem node internal_nodes

module _ (render : Json → String) where
  -- an AIMessageChunk
  abbrev pub on_chunk : Message → Progress → List Event × Progress
  on_chunk message p =
      let (reasoning, answer) = split_reasoning render message in
      if is_true message.content || is_true message.reasoning_content
      then (
        said_if "reasoning" reasoning ++ said_if "content" answer,
        record p { streamed_content = p.streamed_content || not (answer == "") },
      )
      else ([], p)

  -- an AIMessage that is no chunk
  abbrev pub on_whole : Message → Progress → List Event × Progress
  on_whole message p =
      let (reasoning, answer) = split_reasoning render message in
      if is_true message.content
      then (
        said_if "reasoning" reasoning,
        record p { last_full_content = if answer == "" then message.content else string answer },
      )
      else ([], p)

  unfoldable pub on_message : Message → Progress → List Event × Progress
  unfolding split_reasoning
  on_message message p = elim message.kind [
    | ai_chunk ↦ on_chunk message p
    | ai ↦ on_whole message p
    | _ ↦ ([], p)
  ]

  -- the body of the loop
  unfoldable pub on_item : List String → Item → Progress → List Event × Progress
  unfolding on_updates on_message
  on_item internal_nodes (updates payload) p = on_updates payload p
  on_item internal_nodes (messages message node) p =
      if is_internal internal_nodes node then ([], p) else on_message message p

  -- async for mode, payload in stream
  unfoldable pub drive : List String → List Item → Progress → List Event × Progress
  unfolding on_item
  drive internal_nodes [] p = ([], p)
  drive internal_nodes (i ∷ items) p =
      let (events, next) = on_item internal_nodes i p in
      let (more, last) = drive internal_nodes items next in (events ++ more, last)

-- How an async generator ends: by itself, or by what it raises.
pub record Streamed : Type 0 where
  pub events : List Event
  pub raised : Option Raised

-- A payload that is no dict is put into one.
abbrev pub wrapped : String → Json → Json
wrapped key (object d) = object d
wrapped key payload = object (field key payload no_fields)

abbrev first_value : List Json → Json
first_value [] = null
first_value (value ∷ values) = value

-- the state's checkpoint id, where the checkpointer could be asked for it
pub data Snapshot : Type 0 where
  snapshot : (checkpoint_id : Option String) → Snapshot
  no_snapshot : Snapshot

abbrev pub paused_token : CompiledAgent → String → Snapshot → Json
paused_token compiled thread_id no_snapshot = null
paused_token compiled thread_id (snapshot checkpoint_id) =
    if same_durability compiled.durability checkpoint
    then dump_token (mint_token thread_id checkpoint_id true)
    else null

-- _pause_event
unfoldable pub pause_event : CompiledAgent → String → Snapshot → List Json → Event
unfolding mint_token
pause_event compiled thread_id state pending = said "paused" (
    object (
      field "interrupt" (wrapped "value" (first_value pending))
        (field "resume_token" (paused_token compiled thread_id state) no_fields)))

abbrev pub fallback : Progress → List Event
fallback p =
    if not p.streamed_content && is_true p.last_full_content
    then said "content" p.last_full_content ∷ []
    else []

abbrev pub pause : CompiledAgent → String → Snapshot → List Json → List Event
pause compiled thread_id state [] = []
pause compiled thread_id state (value ∷ values) =
    pause_event compiled thread_id state (value ∷ values) ∷ []

abbrev pub done : Event
done = said "done" null

abbrev pub closing : CompiledAgent → String → Snapshot → Progress → List Event
closing compiled thread_id state p =
    fallback p ++ (pause compiled thread_id state p.interrupted ++ done ∷ [])

-- `lower` is str.lower, `repr` and `render` are repr and str
module _ (lower repr : String → String) (render : Json → String) where
  abbrev pub finish :
      CompiledAgent → String → Snapshot → Option Exception → List Event × Progress → Streamed
  finish compiled thread_id state none (events, p) = record {
    events = events ++ closing compiled thread_id state p;
    raised = none;
  }
  finish compiled thread_id state (some exc) (events, p) = record {
    events = events;
    raised = some (escape_as lower repr compiled.model_id exc);
  }

  -- _stream_graph, from what LangGraph streams and from what it then raises
  unfoldable pub stream_graph :
      CompiledAgent → String → Snapshot → List Item → Option Exception → Streamed
  unfolding drive pause_event escape_as
  stream_graph compiled thread_id state items failure =
      finish compiled thread_id state failure (drive render compiled.internal_nodes items start)
