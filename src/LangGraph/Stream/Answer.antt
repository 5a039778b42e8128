-- ===== src/LangGraph/Stream/Answer.antt =====
-- What a streamed turn gives as the answer, and how it ends.
use agent_ship.Prelude.{
  String, ◌≡◌, refl, sym, ap, ◌∙◌, Bool, true, false, none, List, [], ◌∷◌, ◌++◌, not, ◌==◌, ◌||◌,
  keep, keep-append, map, if◌then◌else◌, Bool-cases, inl, inr, arith,
}
use mathlib.Core.List.{append_assoc, append-nil}
use agent_ship.Specialist.Values.{is_empty}
use agent_ship.Json.{Json, null, is_true}
use agent_ship.LangGraph.Message.{Message, Kind, ai, human, system, ai_chunk, tool, split_reasoning}
use agent_ship.LangGraph.Compiled.{CompiledAgent}
use agent_ship.LangGraph.Stream.{
  Event, Item, Update, updates, messages, Progress, start, Snapshot, on_item, on_message, on_chunk,
  on_whole, on_updates, drive, said, said_if, stream_graph, pause_event, fallback, pause, done,
  is_internal,
}
use agent_ship.LangGraph.Message.Reasoning.{split_reasoning-falsy, or_false}
use agent_ship.LangGraph.Stream.Spoken.{
  is_content, is_ending, Said, Said-append, on_updates-Said, on_updates-progress, pending_after,
  unless_empty, streamed_by, reply, reply_after, streamed, last_reply, pending,
}

module _ (render : Json → String) where
  -- What an item, or several, make of the loop.
  record Driven (contents : List Json) (whole : Json) (waiting : List Json) (p : Progress)
      (result : List Event × Progress) : Type 0 where
    pub saying : Said contents result.0
    pub streaming : result.1.streamed_content ≡ (p.streamed_content || not (is_empty contents))
    pub whole_reply : result.1.last_full_content ≡ whole
    pub still_pending : result.1.interrupted ≡ waiting

  or_nothing : (b : Bool) → b ≡ b || false
  or_nothing b = ground arith

  Driven-nothing : (p : Progress) → Driven [] p.last_full_content p.interrupted p ([], p)
  Driven-nothing p = record {
    saying = (refl, refl);
    streaming = or_nothing p.streamed_content;
    whole_reply = refl;
    still_pending = refl;
  }

  chunk-Said : (r a : String) → Said (unless_empty a) (said_if "reasoning" r ++ said_if "content" a)
  chunk-Said r a = (ground arith, ground arith)

  whole-Said : (r : String) → Said [] (said_if "reasoning" r)
  whole-Said r = (ground arith, ground arith)

  unless_empty-is_empty : (s : String) → is_empty (unless_empty s) ≡ (s == "")
  unless_empty-is_empty s = ground arith

  on_chunk-Driven :
      (m : Message) (p : Progress)
      → Driven
          (unless_empty (split_reasoning render m).1)
          p.last_full_content
          p.interrupted
          p
          (on_chunk render m p)
  on_chunk-Driven m p = elim (Bool-cases (is_true m.content || is_true m.reasoning_content)) [
    | inl e ↦
        let (r, a) = split_reasoning render m in
        rw e record {
          saying = chunk-Said r a;
          streaming = rw (unless_empty-is_empty a) refl;
          whole_reply = refl;
          still_pending = refl;
        }
    | inr e ↦
        rw
          (
            e,
            split_reasoning-falsy render m
                (or_false (is_true m.content) (is_true m.reasoning_content) e),
          )
          (Driven-nothing p)
  ]

  on_whole-Driven :
      (m : Message) (p : Progress)
      → Driven [] (reply render m p.last_full_content) p.interrupted p (on_whole render m p)
  on_whole-Driven m p = elim (Bool-cases (is_true m.content)) [
    | inl e ↦ rw e record {
      saying = whole-Said (split_reasoning render m).0;
      streaming = or_nothing p.streamed_content;
      whole_reply = refl;
      still_pending = refl;
    }
    | inr e ↦ rw e (Driven-nothing p)
  ]

  on_message-Driven :
      (kind : Kind) (m : Message) (p : Progress)
      → m.kind ≡ kind
      → Driven
          (streamed_by render m)
          (reply_after render m p.last_full_content)
          p.interrupted
          p
          (on_message render m p)
  unfolding on_message
  on_message-Driven ai m p e = rw e (on_whole-Driven m p)
  on_message-Driven ai_chunk m p e = rw e (on_chunk-Driven m p)
  on_message-Driven human m p e = rw e (Driven-nothing p)
  on_message-Driven system m p e = rw e (Driven-nothing p)
  on_message-Driven tool m p e = rw e (Driven-nothing p)

  or_nonempty :
      (a : Bool) (xs ys : List Json)
      → (a || not (is_empty xs)) || not (is_empty ys) ≡ a || not (is_empty (xs ++ ys))
  or_nonempty true xs ys = refl
  or_nonempty false [] ys = refl
  or_nonempty false (x ∷ xs) ys = refl

  -- An item, and the rest of the loop, whose replies and interrupts go on from the item's.
  Driven-append :
      (xs ys : List Json) (p : Progress) (first rest : List Event × Progress) (whole : Json)
      (waiting : List Json) (later : Json → Json) (then_waiting : List Json → List Json)
      → Driven xs whole waiting p first
      → Driven ys (later first.1.last_full_content) (then_waiting first.1.interrupted) first.1 rest
      → Driven (xs ++ ys) (later whole) (then_waiting waiting) p (first.0 ++ rest.0, rest.1)
  Driven-append xs ys p first rest whole waiting later then_waiting d d' = record {
    saying = Said-append xs ys first.0 rest.0 d.saying d'.saying;
    streaming =
        d'.streaming
        ∙ ap (λ b. b || not (is_empty ys)) d.streaming
        ∙ or_nonempty p.streamed_content xs ys;
    whole_reply = d'.whole_reply ∙ ap later d.whole_reply;
    still_pending = d'.still_pending ∙ ap then_waiting d.still_pending;
  }

  on_updates-Driven :
      (payload : List Update) (p : Progress)
      → Driven [] p.last_full_content (pending_after payload p.interrupted) p (on_updates payload p)
  on_updates-Driven payload p =
      let after = on_updates-progress payload p in
      record {
        saying = on_updates-Said payload p;
        streaming = ap (λ (q : Progress). q.streamed_content) after ∙ or_nothing p.streamed_content;
        whole_reply = ap (λ (q : Progress). q.last_full_content) after;
        still_pending = ap (λ (q : Progress). q.interrupted) after;
      }

  drive-Driven :
      (internal_nodes : List String) (items : List Item) (p : Progress)
      → Driven
          (streamed render internal_nodes items)
          (last_reply render internal_nodes items p.last_full_content)
          (pending items p.interrupted)
          p
          (drive render internal_nodes items p)
  unfolding drive on_item streamed last_reply pending
  drive-Driven internal_nodes [] p = Driven-nothing p
  drive-Driven internal_nodes (updates payload ∷ items) p =
      let first = on_updates payload p in
      Driven-append [] (streamed render internal_nodes items) p first
        (drive render internal_nodes items first.1) p.last_full_content
        (pending_after payload p.interrupted) (last_reply render internal_nodes items)
        (pending items) (on_updates-Driven payload p) (drive-Driven internal_nodes items first.1)
  drive-Driven internal_nodes (messages m at_node ∷ items) p =
      let external = λ (here : Bool). if here then ([], p) else on_message render m p in
      elim (is_internal internal_nodes at_node)
        as (λ here.
          Driven
            ((if here then [] else streamed_by render m) ++ streamed render internal_nodes items)
            (last_reply render internal_nodes items
              (if here then p.last_full_content else reply_after render m p.last_full_content))
            (pending items p.interrupted) p
            (
              (external here).0 ++ (drive render internal_nodes items (external here).1).0,
              (drive render internal_nodes items (external here).1).1,
            )) [
              | true ↦ drive-Driven internal_nodes items p
              | false ↦
                  let first = on_message render m p in
                  Driven-append (streamed_by render m) (streamed render internal_nodes items) p
                    first (drive render internal_nodes items first.1)
                    (reply_after render m p.last_full_content) p.interrupted
                    (last_reply render internal_nodes items) (pending items)
                    (on_message-Driven m.kind m p refl) (drive-Driven internal_nodes items first.1)
            ]

-- the content of a turn that streams these and whose last whole reply is this
abbrev pub answer_of : List Json → Json → List Json
answer_of [] whole = if is_true whole then whole ∷ [] else []
answer_of (chunk ∷ chunks) whole = chunk ∷ chunks

-- How a turn ended that raised nothing: its events before the end, and what the end consists of.
pub record Ended (compiled : CompiledAgent) (thread_id : String) (state : Snapshot)
    (contents : List Json) (waiting : List Json) (events : List Event) : Type 0 where
  pub before : List Event
  pub all_events : events ≡ before ++ (pause compiled thread_id state waiting ++ done ∷ [])
  pub no_ending : keep is_ending before ≡ []
  pub the_answer : keep is_content before ≡ map (said "content") contents

fallback-Said :
    (p : Progress) (chunks : List Json) (whole : Json)
    → p.streamed_content ≡ not (is_empty chunks)
    → p.last_full_content ≡ whole
    → (events : List Event) → Said chunks events
    → Said (answer_of chunks whole) (events ++ fallback p)
fallback-Said p [] whole h h' events s =
    rw (h, h')
      (elim (Bool-cases (is_true whole)) [
        | inl e ↦
            rw e (Said-append [] (whole ∷ []) events (said "content" whole ∷ []) s (refl, refl))
        | inr e ↦ rw e (Said-append [] [] events [] s (refl, refl))
      ])
fallback-Said p (chunk ∷ chunks) whole h h' events s = rw (h, append-nil events) s

-- The answer that a streamed turn gives, if LangGraph's stream of it raises nothing, is the chunks of the
-- nodes that are not internal, in order and each once, or if none has text the last whole reply with
-- content; after it come a `paused` event exactly if interrupts are pending, and one `done`, which is the
-- last event; none of the events before is either.
pub stream_graph-Ended :
    (lower repr : String → String) (render : Json → String) (compiled : CompiledAgent)
    (thread_id : String) (state : Snapshot) (items : List Item)
    → Ended compiled thread_id state
        (answer_of
          (streamed render compiled.internal_nodes items)
          (last_reply render compiled.internal_nodes items null))
        (pending items [])
        (stream_graph lower repr render compiled thread_id state items none).events
unfolding stream_graph
stream_graph-Ended lower repr render compiled thread_id state items =
    let (events, p) = drive render compiled.internal_nodes items start in
    let d = drive-Driven render compiled.internal_nodes items start in
    let s =
      fallback-Said p (streamed render compiled.internal_nodes items)
        (last_reply render compiled.internal_nodes items null) d.streaming d.whole_reply events
        d.saying in
    record {
      before = events ++ fallback p;
      all_events = rw (← d.still_pending) (sym (append_assoc events (fallback p) _));
      no_ending = s.1;
      the_answer = s.0;
    }

ending_silent :
    (compiled : CompiledAgent) (thread_id : String) (state : Snapshot) (waiting : List Json)
    → keep is_content (pause compiled thread_id state waiting ++ done ∷ []) ≡ []
unfolding pause_event
ending_silent compiled thread_id state [] = refl
ending_silent compiled thread_id state (value ∷ values) = refl

Ended-content :
    (compiled : CompiledAgent) (thread_id : String) (state : Snapshot)
    (contents waiting : List Json) (events : List Event)
    → Ended compiled thread_id state contents waiting events
    → keep is_content events ≡ map (said "content") contents
Ended-content compiled thread_id state contents waiting events e =
    ap (keep is_content) e.all_events
    ∙ keep-append is_content e.before (pause compiled thread_id state waiting ++ done ∷ [])
    ∙ rw (ending_silent compiled thread_id state waiting) (append-nil (keep is_content e.before))
    ∙ e.the_answer
