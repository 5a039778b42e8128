-- ===== src/LangGraph/Stream/Shown.antt =====
-- The events of a turn other than its `reasoning` events.
use agent_ship.Prelude.{
  String, ◌≡◌, refl, Bool, List, [], ◌∷◌, ◌++◌, not, ◌==◌, keep, keep-append, map, arith,
}
use agent_ship.Json.{Json}
use agent_ship.LangGraph.Message.{Message, ToolCall}
use agent_ship.LangGraph.Compiled.{CompiledAgent}
use agent_ship.LangGraph.Stream.{
  Event, Update, interrupts, node_update, no_dict, Progress, Snapshot, on_updates, tool_events,
  tool_called, tool_results, said_if, pause_event, closing, fallback, pause, done,
}

abbrev is_shown : Event → Bool
is_shown event = not (event.type == "reasoning")

abbrev pub shown : List Event → List Event
shown = keep is_shown

pub shown-append : (xs ys : List Event) → shown (xs ++ ys) ≡ shown xs ++ shown ys
shown-append xs ys = keep-append is_shown xs ys

shown-tool_called : (calls : List ToolCall) → shown (map tool_called calls) ≡ map tool_called calls
shown-tool_called [] = refl
shown-tool_called (call ∷ calls) = rw (shown-tool_called calls)

shown-tool_results : (produced : Message) → shown (tool_results produced) ≡ tool_results produced
shown-tool_results produced = ground arith

shown-tool_events : (produced : List Message) → shown (tool_events produced) ≡ tool_events produced
unfolding tool_events
shown-tool_events [] = refl
shown-tool_events (m ∷ rest) = rw (
  shown-append (tool_results m) (map tool_called m.tool_calls ++ tool_events rest),
  shown-tool_results m,
  shown-append (map tool_called m.tool_calls) (tool_events rest),
  shown-tool_called m.tool_calls,
  shown-tool_events rest,
)

pub shown-on_updates :
    (payload : List Update) (p : Progress)
    → shown (on_updates payload p).0 ≡ (on_updates payload p).0
unfolding on_updates
shown-on_updates [] p = refl
shown-on_updates (interrupts pending ∷ rest) p =
    shown-on_updates rest (record p { interrupted = pending })
shown-on_updates (no_dict ∷ rest) p = shown-on_updates rest p
shown-on_updates (node_update produced ∷ rest) p = rw (
  shown-append (tool_events produced) (on_updates rest p).0,
  shown-tool_events produced,
  shown-on_updates rest p,
)

pub shown_answer :
    (r a : String) → shown (said_if "reasoning" r ++ said_if "content" a) ≡ said_if "content" a
shown_answer r a = ground arith

pub shown_reasoning : (r : String) → shown (said_if "reasoning" r) ≡ []
shown_reasoning r = ground arith

shown-fallback : (p : Progress) → shown (fallback p) ≡ fallback p
shown-fallback p = ground arith

shown-pause :
    (compiled : CompiledAgent) (thread_id : String) (state : Snapshot) (pending : List Json)
    → shown (pause compiled thread_id state pending) ≡ pause compiled thread_id state pending
unfolding pause_event
shown-pause compiled thread_id state [] = refl
shown-pause compiled thread_id state (value ∷ values) = refl

pub shown-closing :
    (compiled : CompiledAgent) (thread_id : String) (state : Snapshot) (p : Progress)
    → shown (closing compiled thread_id state p) ≡ closing compiled thread_id state p
shown-closing compiled thread_id state p = rw (
  shown-append (fallback p) (pause compiled thread_id state p.interrupted ++ done ∷ []),
  shown-fallback p,
  shown-append (pause compiled thread_id state p.interrupted) (done ∷ []),
  shown-pause compiled thread_id state p.interrupted,
)
