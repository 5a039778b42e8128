-- ===== src/LangGraph/Stream/Private.antt =====
-- What of a model's reasoning a streamed turn shows.
use agent_ship.Prelude.{
  String, ◌≡◌, refl, sym, ap, ◌∙◌, Bool, true, false, Option, none, some, List, [], ◌∷◌, not, ◌==◌,
  ◌&&◌, ◌||◌, map, Bool-cases, inl, inr, arith, All, eq_refl,
}
use agent_ship.Json.{Json, is_true}
use agent_ship.LangGraph.Message.{Message, Kind, ai, human, system, ai_chunk, tool, split_reasoning}
use agent_ship.LangGraph.Stream.Shown.{
  shown, shown-append, shown-on_updates, shown_answer, shown_reasoning, shown-closing,
}
use agent_ship.LangGraph.Message.Reasoning.{
  split_reasoning-falsy, falsy-answer_only, or_false, without_reasoning,
  split_reasoning-without_reasoning,
}
use agent_ship.LangGraph.Models.{Exception}
use agent_ship.LangGraph.Compiled.{CompiledAgent}
use agent_ship.LangGraph.Stream.{
  Event, Item, updates, messages, Progress, start, Snapshot, on_item, on_message, on_chunk,
  on_whole, on_updates, drive, said_if, stream_graph, closing, is_internal,
}

abbrev pub private : Item → Item
private (updates payload) = updates payload
private (messages message at_node) = messages (without_reasoning message) at_node

spoken : (a b : Bool) → a ≡ true → a && b ≡ false → b ≡ false
spoken a b e h = ground arith

module _ (render : Json → String) where
  -- what a chunk does to the loop, as far as its answer goes
  abbrev answered : String → Progress → List Event × Progress
  answered answer p = (
    said_if "content" answer,
    record p { streamed_content = p.streamed_content || not (answer == "") },
  )

  answered-empty : (p : Progress) → answered "" p ≡ ([], p)
  answered-empty p = elim (Bool-cases p.streamed_content) [
    | inl e ↦ ground arith
    | inr e ↦ ground arith
  ]

  abbrev hide : List Event × Progress → List Event × Progress
  hide (events, p) = (shown events, p)

  on_chunk-answered :
      (m : Message) (p : Progress)
      → hide (on_chunk render m p) ≡ answered (split_reasoning render m).1 p
  on_chunk-answered m p = elim (Bool-cases (is_true m.content || is_true m.reasoning_content)) [
    | inl e ↦
        rw e (rw (shown_answer (split_reasoning render m).0 (split_reasoning render m).1) refl)
    | inr e ↦
        rw
          (
            e,
            split_reasoning-falsy render m
                (or_false (is_true m.content) (is_true m.reasoning_content) e),
          )
          (sym (answered-empty p))
  ]

  on_whole-private :
      (m : Message) (p : Progress)
      → (is_true m.content && (split_reasoning render m).1 == "") ≡ false
      → hide (on_whole render m p) ≡ on_whole render (without_reasoning m) p
  on_whole-private m p h = elim (Bool-cases (is_true m.content)) [
    | inl e ↦ elim (Bool-cases (is_true (without_reasoning m).content)) [
      | inl e' ↦
          rw (e, e', split_reasoning-without_reasoning render m)
            (rw
              (
                shown_reasoning (split_reasoning render m).0,
                spoken (is_true m.content) ((split_reasoning render m).1 == "") e h,
              )
              refl)
      | inr e' ↦
          let nothing : (split_reasoning render m).1 ≡ "" =
            ap (λ (parts : String × String). parts.1)
              (sym (split_reasoning-without_reasoning render m))
            ∙ split_reasoning-falsy render (without_reasoning m) e' in
          absurd (ground (arith, h, e, ap (λ t. t == "") nothing, eq_refl ""))
    ]
    | inr e ↦ rw (e, falsy-answer_only m.content e)
  ]

  -- A whole reply that has content and no answer.
  abbrev is_unanswered : Message → Bool
  is_unanswered m = elim m.kind [
    | ai ↦ is_true m.content && (split_reasoning render m).1 == ""
    | _ ↦ false
  ]

  abbrev unanswered : Item → Bool
  unanswered (updates payload) = false
  unanswered (messages message at_node) = is_unanswered message

  on_chunk-hidden :
      (m : Message) (p : Progress)
      → (split_reasoning render m).0 ≡ ""
      → hide (on_chunk render m p) ≡ on_chunk render m p
  on_chunk-hidden m p h = elim (Bool-cases (is_true m.content || is_true m.reasoning_content)) [
    | inl e ↦ rw (e, h) (rw (shown_answer "" (split_reasoning render m).1) refl)
    | inr e ↦ rw e refl
  ]

  on_chunk-private :
      (m : Message) (p : Progress)
      → hide (on_chunk render m p) ≡ on_chunk render (without_reasoning m) p
  on_chunk-private m p =
      let parts = split_reasoning-without_reasoning render m in
      on_chunk-answered m p
      ∙ ap (λ (both : String × String). answered both.1 p) (sym parts)
      ∙ sym (on_chunk-answered (without_reasoning m) p)
      ∙ on_chunk-hidden (without_reasoning m) p (ap (λ (both : String × String). both.0) parts)

  on_message-private_at :
      (kind : Kind) (m : Message) (p : Progress)
      → m.kind ≡ kind
      → is_unanswered m ≡ false
      → hide (on_message render m p) ≡ on_message render (without_reasoning m) p
  unfolding on_message
  on_message-private_at ai m p e h = rw e (on_whole-private m p (rw e at h))
  on_message-private_at ai_chunk m p e h = rw e (on_chunk-private m p)
  on_message-private_at human m p e h = rw e refl
  on_message-private_at system m p e h = rw e refl
  on_message-private_at tool m p e h = rw e refl

  on_item-private :
      (internal_nodes : List String) (i : Item) (p : Progress)
      → unanswered i ≡ false
      → hide (on_item render internal_nodes i p) ≡ on_item render internal_nodes (private i) p
  unfolding on_item
  on_item-private internal_nodes (updates payload) p h =
      ap (λ (events : List Event). (events, (on_updates payload p).1)) (shown-on_updates payload p)
  on_item-private internal_nodes (messages m at_node) p h =
      elim (Bool-cases (is_internal internal_nodes at_node)) [
        | inl e ↦ rw e refl
        | inr e ↦ rw e (on_message-private_at m.kind m p refl h)
      ]

  drive-private :
      (internal_nodes : List String) (items : List Item) (p : Progress)
      → All (λ i. unanswered i ≡ false) items
      → hide (drive render internal_nodes items p)
        ≡ drive render internal_nodes (map private items) p
  unfolding drive
  drive-private internal_nodes [] p h = refl
  drive-private internal_nodes (i ∷ items) p h =
      let (events, next) = on_item render internal_nodes i p in
      let (more, last) = drive render internal_nodes items next in
      rw (
        ← on_item-private internal_nodes i p h.0,
        ← drive-private internal_nodes items next h.1,
        shown-append events more,
      )

-- If every whole reply that LangGraph streams with content has an answer, then a turn shows of the
-- model's reasoning only its `reasoning` events: without them, the stream is that of the same turn whose
-- messages carry no reasoning.
pub stream_graph-private :
    (lower repr : String → String) (render : Json → String) (compiled : CompiledAgent)
    (thread_id : String) (state : Snapshot) (items : List Item) (failure : Option Exception)
    → All (λ i. unanswered render i ≡ false) items
    → let turn = stream_graph lower repr render compiled thread_id state in
      record (turn items failure) { events = shown (turn items failure).events }
      ≡ turn (map private items) failure
unfolding stream_graph
stream_graph-private lower repr render compiled thread_id state items none h =
    rw (← drive-private render compiled.internal_nodes items start h) (
      let (events, p) = drive render compiled.internal_nodes items start in
      rw (
        shown-append events (closing compiled thread_id state p),
        shown-closing compiled thread_id state p,
      ))
stream_graph-private lower repr render compiled thread_id state items (some exc) h =
    rw (← drive-private render compiled.internal_nodes items start h)
