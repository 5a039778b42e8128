-- ===== src/LangGraph/Stream/Spoken.antt =====
-- What the items of a streamed turn say, and what they leave pending.
use agent_ship.Prelude.{
  String, ◌≡◌, refl, Bool, List, [], ◌∷◌, ◌++◌, ◌==◌, ◌||◌, keep, keep-append, map, if◌then◌else◌,
  arith,
}
use agent_ship.Json.{Json, string, is_true}
use agent_ship.LangGraph.Message.{Message, ToolCall, ai, ai_chunk, split_reasoning}
use agent_ship.LangGraph.Stream.{
  Event, Item, Update, interrupts, node_update, no_dict, updates, messages, Progress, on_updates,
  tool_events, tool_called, tool_results, said, is_internal,
}

abbrev pub is_content : Event → Bool
is_content event = event.type == "content"

-- `paused` and `done`
abbrev pub is_ending : Event → Bool
is_ending event = event.type == "paused" || event.type == "done"

-- Of the events that pass a test, the contents; and that no event ends the turn.
abbrev pub Said : List Json → List Event → Type 0
Said contents events =
    (keep is_content events ≡ map (said "content") contents) × (keep is_ending events ≡ [])

map-append : {A B : Type 0} (f : A → B) (xs ys : List A) → map f (xs ++ ys) ≡ map f xs ++ map f ys
map-append f [] ys = refl
map-append f (x ∷ xs) ys = rw (map-append f xs ys)

pub Said-append :
    (xs ys : List Json) (events more : List Event)
    → Said xs events
    → Said ys more
    → Said (xs ++ ys) (events ++ more)
Said-append xs ys events more (c, e) (c', e') = (
  rw (keep-append is_content events more, c, c', map-append (said "content") xs ys),
  rw (keep-append is_ending events more, e, e'),
)

calls-Said : (calls : List ToolCall) → Said [] (map tool_called calls)
calls-Said [] = (refl, refl)
calls-Said (call ∷ calls) = calls-Said calls

results-Said : (produced : Message) → Said [] (tool_results produced)
results-Said produced = (ground arith, ground arith)

tool_events-Said : (produced : List Message) → Said [] (tool_events produced)
unfolding tool_events
tool_events-Said [] = (refl, refl)
tool_events-Said (m ∷ rest) =
    Said-append [] [] (tool_results m) (map tool_called m.tool_calls ++ tool_events rest)
      (results-Said m)
      (Said-append [] [] (map tool_called m.tool_calls) (tool_events rest) (calls-Said m.tool_calls)
        (tool_events-Said rest))

pub on_updates-Said : (payload : List Update) (p : Progress) → Said [] (on_updates payload p).0
unfolding on_updates
on_updates-Said [] p = (refl, refl)
on_updates-Said (interrupts pending ∷ rest) p =
    on_updates-Said rest (record p { interrupted = pending })
on_updates-Said (no_dict ∷ rest) p = on_updates-Said rest p
on_updates-Said (node_update produced ∷ rest) p =
    Said-append [] [] (tool_events produced) (on_updates rest p).0 (tool_events-Said produced)
      (on_updates-Said rest p)

-- The interrupts that a payload reports last.
unfoldable pub pending_after : List Update → List Json → List Json
pending_after [] before = before
pending_after (interrupts pending ∷ rest) before = pending_after rest pending
pending_after (no_dict ∷ rest) before = pending_after rest before
pending_after (node_update produced ∷ rest) before = pending_after rest before

pub on_updates-progress :
    (payload : List Update) (p : Progress)
    → (on_updates payload p).1 ≡ record p { interrupted = pending_after payload p.interrupted }
unfolding on_updates pending_after
on_updates-progress [] p = refl
on_updates-progress (interrupts pending ∷ rest) p =
    on_updates-progress rest (record p { interrupted = pending })
on_updates-progress (no_dict ∷ rest) p = on_updates-progress rest p
on_updates-progress (node_update produced ∷ rest) p = on_updates-progress rest p

abbrev pub unless_empty : String → List Json
unless_empty s = if s == "" then [] else string s ∷ []

module _ (render : Json → String) where
  -- What a message adds to the answer, if it is a chunk.
  abbrev pub streamed_by : Message → List Json
  streamed_by m = elim m.kind [ ai_chunk ↦ unless_empty (split_reasoning render m).1 | _ ↦ [] ]

  abbrev pub reply : Message → Json → Json
  reply m before =
      if is_true m.content
      then if (split_reasoning render m).1 == ""
        then m.content
        else string (split_reasoning render m).1
      else before

  -- What is known of a whole reply after a message.
  abbrev pub reply_after : Message → Json → Json
  reply_after m before = elim m.kind [ ai ↦ reply m before | _ ↦ before ]

  -- The answer as it streams, and the last whole reply, of the nodes that are not internal.
  unfoldable pub streamed : List String → List Item → List Json
  streamed internal_nodes [] = []
  streamed internal_nodes (updates payload ∷ items) = streamed internal_nodes items
  streamed internal_nodes (messages m at_node ∷ items) =
      (if is_internal internal_nodes at_node then [] else streamed_by m)
      ++ streamed internal_nodes items

  unfoldable pub last_reply : List String → List Item → Json → Json
  last_reply internal_nodes [] before = before
  last_reply internal_nodes (updates payload ∷ items) before =
      last_reply internal_nodes items before
  last_reply internal_nodes (messages m at_node ∷ items) before =
      last_reply internal_nodes items
        (if is_internal internal_nodes at_node then before else reply_after m before)

-- The interrupts that a turn is waiting for at its end.
unfoldable pub pending : List Item → List Json → List Json
unfolding pending_after
pending [] before = before
pending (updates payload ∷ items) before = pending items (pending_after payload before)
pending (messages m at_node ∷ items) before = pending items before
