-- ===== src/Service/Agents/Frames.antt =====
-- The frames of a streamed turn of routers/agents.py: their numbers, and what the last one tells.
use agent_ship.Prelude.{
  ℕ, ◌+◌, String, ◌≡◌, refl, sym, ap, ◌∙◌, true, false, Option, none, some, List, [], ◌∷◌, ◌++◌,
  map, subst, not, ◌==◌, if◌then◌else◌, keep, eq_iff, Bool-cases, inl, inr, elem,
}
use mathlib.Core.Bool.{false≢true}
use agent_ship.Specialist.Values.{is_empty}
use agent_ship.Json.{
  Json, Fields, null, flag, number, string, object, optional, no_fields, field, at, set, merge,
}
use agent_ship.LangGraph.Compiled.{CompiledAgent, mint_token, dump_token}
use agent_ship.Spec.{Durability, checkpoint, not_durable, workflow}
use agent_ship.Engine.{same_durability}
use agent_ship.LangGraph.Stream.{
  Event, Item, Snapshot, snapshot, no_snapshot, stream_graph, pause, pause_event, done,
  paused_token, wrapped,
}
use agent_ship.LangGraph.Stream.Spoken.{is_ending, pending}
use agent_ship.LangGraph.Stream.Answer.{stream_graph-Ended}
use agent_ship.LangGraph.Message.Reasoning.{or_false}
use agent_ship.A2a.Server.{frame_type, allowed_event_types}
use agent_ship.Service.Agents.{
  Arrival, Frame, event_frames, stream_frames, frame_data, first_words, failure_frames,
  session_frame,
}

-- start, start + 1, …, as many as there are
abbrev count_from {ℓ} : {A : Type ℓ} → ℕ → List A → List ℕ
count_from start [] = []
count_from start (x ∷ xs) = start ∷ count_from (start + 1) xs

module _ (session_id : String) (model : Option String) (failure : Option String) where
  failure-numbered :
      (failure : Option String) (seq : ℕ)
      → map (λ (f : Frame). f.seq) (failure_frames failure seq)
        ≡ count_from seq (failure_frames failure seq)
  failure-numbered none seq = refl
  failure-numbered (some text) seq = refl

  event_frames-numbered :
      (arrivals : List Arrival) (seq : ℕ) (ttft : Option ℕ) (paused : Option Fields)
      → map (λ (f : Frame). f.seq) (event_frames session_id model failure arrivals seq ttft paused)
        ≡ count_from seq (event_frames session_id model failure arrivals seq ttft paused)
  unfolding event_frames
  event_frames-numbered [] seq ttft paused = failure-numbered failure seq
  event_frames-numbered (arrival ∷ arrivals) seq ttft paused =
      ap (λ (ns : List ℕ). seq ∷ ns) (event_frames-numbered arrivals (seq + 1) _ _)

-- The frames of a turn are numbered from 0 without a gap, whatever the engine streams and however it ends.
stream_frames-numbered :
    (name session_id : String) (model : Option String) (arrivals : List Arrival)
    (failure : Option String)
    → map (λ (f : Frame). f.seq) (stream_frames name session_id model (arrivals, failure))
      ≡ count_from 0 (stream_frames name session_id model (arrivals, failure))
unfolding stream_frames
stream_frames-numbered name session_id model arrivals failure =
    ap (λ (ns : List ℕ). 0 ∷ ns)
      (event_frames-numbered session_id model failure arrivals 1 none none)

-- A type that the contract allows and that is not `content` is that of the same event.
frame_type-keeps :
    (t kind : String)
    → elem kind allowed_event_types ≡ true
    → ("content" == kind) ≡ false
    → (frame_type t == kind) ≡ (t == kind)
unfolding frame_type
frame_type-keeps t kind allowed h = elim (Bool-cases (elem t allowed_event_types)) [
  | inl e ↦ rw (e, frame_type) refl
  | inr e ↦ elim (Bool-cases (t == kind)) [
    | inl same ↦ absurd (false≢true (sym (rw ((eq_iff t kind).0 same) at e) ∙ allowed))
    | inr differs ↦ rw (e, differs) h
  ]
]

-- A list that maps to an append is one.
map-eq-append :
    {A B : Type 0} (f : A → B) (xs : List A) (ys zs : List B)
    → map f xs ≡ ys ++ zs
    → (left : List A) × (right : List A) × (xs ≡ left ++ right)
      × (map f left ≡ ys)
      × (map f right ≡ zs)
map-eq-append f xs [] zs e = ([], xs, refl, refl, e)
map-eq-append f [] (y ∷ ys) zs e = cc
map-eq-append f (x ∷ xs) (y ∷ ys) zs e =
    let (left, right, whole, l, r) = map-eq-append f xs ys zs (cc e) in
    (x ∷ left, right, cc whole, cc (l, e), r)

-- What a turn that waits for these interrupts is to tell of its token and of its question: the token of
-- the turn's own thread at its checkpoint, for an agent that is checkpointed and whose snapshot was read.
abbrev token_told : String → Option String → Json
token_told thread_id checkpoint_id = object (
    field "engine" (string "langgraph") (
      field "blob"
        (object (
          field "thread_id" (string thread_id) (
            field "checkpoint_id" (optional checkpoint_id)
              (field "interrupt" (flag true) (field "schema_version" (number 1) no_fields)))))
        no_fields))

abbrev token_of_pause : Durability → String → Snapshot → Json
token_of_pause checkpoint thread_id (snapshot checkpoint_id) = token_told thread_id checkpoint_id
token_of_pause mode thread_id state = null

abbrev told_token : Durability → String → Snapshot → List Json → Json
told_token mode thread_id state [] = null
told_token mode thread_id state (value ∷ values) = token_of_pause mode thread_id state

paused_token-token_of_pause :
    (compiled : CompiledAgent) (thread_id : String) (state : Snapshot)
    → paused_token compiled thread_id state ≡ token_of_pause compiled.durability thread_id state
unfolding mint_token
paused_token-token_of_pause compiled thread_id no_snapshot = no_token compiled.durability
  where
    no_token : (mode : Durability) → null ≡ token_of_pause mode thread_id no_snapshot
    no_token not_durable = refl
    no_token checkpoint = refl
    no_token workflow = refl
paused_token-token_of_pause compiled thread_id (snapshot id) = at_durability compiled.durability
  where
    at_durability :
        (mode : Durability)
        → (if same_durability mode checkpoint
            then dump_token (mint_token thread_id id true)
            else null)
          ≡ token_of_pause mode thread_id (snapshot id)
    at_durability not_durable = refl
    at_durability checkpoint = refl
    at_durability workflow = refl

abbrev told_interrupt : List Json → Json
told_interrupt [] = null
told_interrupt (value ∷ values) = wrapped "value" value

-- A frame that ends a turn well and says whether it is over.
pub record Tells (compiled : CompiledAgent) (thread_id : String) (state : Snapshot)
    (waiting : List Json) (last : Frame) : Type 0 where
  pub is_done : last.type ≡ "done"
  pub says_paused : at last.data_of "paused" ≡ flag (not (is_empty waiting))
  says_token :
      at last.data_of "resume_token" ≡ told_token compiled.durability thread_id state waiting
  pub says_interrupt : at last.data_of "interrupt" ≡ told_interrupt waiting

kept_none :
    (event : Event) (events : List Event)
    → keep is_ending (event ∷ events) ≡ []
    → (is_ending event ≡ false) × (keep is_ending events ≡ [])
kept_none event events h = elim (Bool-cases (is_ending event)) [
  | inl e ↦ absurd (cc (rw e at h))
  | inr e ↦ (e, rw e at h)
]

module _ (session_id : String) (model : Option String) (compiled : CompiledAgent)
    (thread_id : String) (state : Snapshot) where
  abbrev Ends : List Json → List Frame → Type 0
  Ends waiting frames =
      (front : List Frame) × (last : Frame) × (frames ≡ front ++ last ∷ [])
      × Tells compiled thread_id state waiting last

  -- the moments at which the route reads the last events
  done_at : ℕ → Arrival
  done_at n = record { at_ms = n; event = done }

  pause_at : Json → List Json → ℕ → Arrival
  pause_at value values n = record {
    at_ms = n;
    event = pause_event compiled thread_id state (value ∷ values);
  }

  done-Ends :
      (n seq : ℕ) (ttft : Option ℕ)
      → Ends [] (event_frames session_id model none (done_at n ∷ []) seq ttft none)
  unfolding event_frames frame_data merge at set frame_type done_at
  done-Ends n seq ttft = (
    [],
    _,
    refl,
    record { is_done = refl; says_paused = refl; says_token = refl; says_interrupt = refl },
  )

  pause-Ends :
      (value : Json) (values : List Json) (m n seq : ℕ) (ttft : Option ℕ)
      → Ends (value ∷ values) (
          event_frames session_id model none
            (pause_at value values m ∷ done_at n ∷ [])
            seq
            ttft
            none)
  unfolding event_frames frame_data merge at set frame_type pause_event done_at pause_at
  pause-Ends value values m n seq ttft = (
    _ ∷ [],
    _,
    refl,
    record {
      is_done = refl;
      says_paused = refl;
      says_token = paused_token-token_of_pause compiled thread_id state;
      says_interrupt = refl;
    },
  )

  at_event :
      (a : Arrival) (event : Event)
      → a.event ≡ event
      → a ≡ record { at_ms = a.at_ms; event = event }
  at_event a event e = ap (λ (event : Event). record { at_ms = a.at_ms; event = event }) e

  ending-Ends :
      (waiting : List Json) (arrivals : List Arrival) (seq : ℕ) (ttft : Option ℕ)
      → map (λ (a : Arrival). a.event) arrivals
        ≡ pause compiled thread_id state waiting ++ done ∷ []
      → Ends waiting (event_frames session_id model none arrivals seq ttft none)
  unfolding done_at pause_at
  ending-Ends [] (a ∷ []) seq ttft e =
      subst (λ x. Ends [] (event_frames session_id model none (x ∷ []) seq ttft none))
        (sym (at_event a done (cc e))) (done-Ends a.at_ms seq ttft)
  ending-Ends (value ∷ values) (a ∷ b ∷ []) seq ttft e =
      let first = at_event a (pause_event compiled thread_id state (value ∷ values)) (cc e) in
      let second = at_event b done (cc e) in
      subst
        (λ x. Ends (value ∷ values) (event_frames session_id model none (x ∷ b ∷ []) seq ttft none))
        (sym first)
        (subst
          (λ x. Ends (value ∷ values) (
            event_frames session_id model none (pause_at value values a.at_ms ∷ x ∷ []) seq ttft
              none))
          (sym second) (pause-Ends value values a.at_ms b.at_ms seq ttft))
  ending-Ends [] [] seq ttft e = cc
  ending-Ends [] (a ∷ b ∷ arrivals) seq ttft e = cc
  ending-Ends (value ∷ values) [] seq ttft e = cc
  ending-Ends (value ∷ values) (a ∷ []) seq ttft e = cc
  ending-Ends (value ∷ values) (a ∷ b ∷ c ∷ arrivals) seq ttft e = cc

  onto-Ends :
      (waiting : List Json) (first : Frame) (frames : List Frame)
      → Ends waiting frames
      → Ends waiting (first ∷ frames)
  onto-Ends waiting first frames (front, last, whole, tells) =
      (first ∷ front, last, ap (λ (fs : List Frame). first ∷ fs) whole, tells)

  -- events before the end, none of which is a pause
  before-Ends :
      (waiting : List Json) (left right : List Arrival) (seq : ℕ) (ttft : Option ℕ)
      → keep is_ending (map (λ (a : Arrival). a.event) left) ≡ []
      → map (λ (a : Arrival). a.event) right ≡ pause compiled thread_id state waiting ++ done ∷ []
      → Ends waiting (event_frames session_id model none (left ++ right) seq ttft none)
  unfolding event_frames
  before-Ends waiting [] right seq ttft h e = ending-Ends waiting right seq ttft e
  before-Ends waiting (a ∷ left) right seq ttft h e =
      let (quiet, others) = kept_none a.event (map (λ (a : Arrival). a.event) left) h in
      let no_pause : (frame_type a.event.type == "paused") ≡ false =
        frame_type-keeps a.event.type "paused" refl refl
        ∙ or_false (a.event.type == "paused") (a.event.type == "done") quiet in
      let ttft' = first_words ttft (frame_type a.event.type) a.at_ms in
      rw no_pause (
        onto-Ends waiting _
          (event_frames session_id model none (left ++ right) (seq + 1) ttft' none)
          (before-Ends waiting left right (seq + 1) ttft' others e))

-- If a turn of LangGraph ends by itself, the last frame of its stream is a `done` that tells whether it is
-- over or waits for a human. If it waits, the frame has the interrupt's payload and, for a checkpointed
-- agent whose snapshot was read, a resume token with the turn's own thread and its checkpoint, and no token
-- otherwise; if it does not wait it has neither.
pub stream_frames-Tells :
    (lower repr : String → String) (render : Json → String) (compiled : CompiledAgent)
    (thread_id : String) (state : Snapshot) (items : List Item) (name session_id : String)
    (model : Option String) (arrivals : List Arrival)
    → map (λ (a : Arrival). a.event) arrivals
      ≡ (stream_graph lower repr render compiled thread_id state items none).events
    → (front : List Frame) × (last : Frame) × (stream_frames name session_id model (arrivals, none)
        ≡ front ++ last ∷ [])
      × Tells compiled thread_id state (pending items []) last
unfolding stream_frames
stream_frames-Tells lower repr render compiled thread_id state items name session_id model arrivals
      e =
    let ended = stream_graph-Ended lower repr render compiled thread_id state items in
    let (left, right, whole, l, r) =
      map-eq-append (λ (a : Arrival). a.event) arrivals ended.before _ (e ∙ ended.all_events) in
    let (front, last, frames, tells) =
      before-Ends session_id model compiled thread_id state (pending items []) left right 1 none
        (ap (keep is_ending) l ∙ ended.no_ending) r in
    (
      session_frame name session_id ∷ front,
      last,
      ap (λ (fs : List Frame). session_frame name session_id ∷ fs)
          (ap (λ (xs : List Arrival). event_frames session_id model none xs 1 none none) whole
            ∙ frames),
      tells,
    )
