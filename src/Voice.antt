-- ===== src/Voice.antt =====
-- agentship_voice/turn.py and trace.py: one spoken turn, and what it leaves in the conversation.
pub mod Transcript
pub mod Latency
use Prim.Native.String.{◌++◌ as ◌<>◌}
use agent_ship.Prelude.{
  ℕ, ◌-◌, String, Bool, true, false, Option, none, some, List, [], ◌∷◌, ◌++◌, map, ◌||◌, ◌==◌,
  if◌then◌else◌, keep, truthy, not,
}
use agent_ship.Text.{rstrip, join}
use agent_ship.Dict.{Dict, get}
use agent_ship.Specialist.Values.{is_empty}

-- What an event of a stream carries: a text, a dict whose values are texts or something else, or
-- something else.
pub data Payload : Type 0 where
  text : String → Payload
  fields : Dict (Option String) → Payload
  no_text : Payload

pub record StreamEvent : Type 0 where
  pub type : String
  pub payload : Payload

-- the first key whose value is a text
abbrev first_text : Dict (Option String) → List String → String
first_text d [] = ""
first_text d (key ∷ keys) = elim (get d key) [
  | none ↦ first_text d keys
  | some none ↦ first_text d keys
  | some (some value) ↦ value
]

abbrev spoken_keys : Option String → List String
spoken_keys speak_field =
    let others : List String = "content" ∷ "text" ∷ "delta" ∷ [] in
    elim speak_field [ none ↦ others | some field ↦ if field == "" then others else field ∷ others ]

-- _text_of
unfoldable pub text_of : Payload → Option String → String
text_of (text s) speak_field = s
text_of (fields d) speak_field = first_text d (spoken_keys speak_field)
text_of no_text speak_field = ""

-- Times are in milliseconds.
pub record LatencyTrace : Type 0 where
  pub asr_ms : Option ℕ
  pub rag_ms : Option ℕ
  pub llm_ttft_ms : Option ℕ
  pub llm_total_ms : Option ℕ
  pub tool_ms : Option ℕ
  pub tts_ms : Option ℕ
  pub buffer_ms : Option ℕ
  pub total_ms : Option ℕ

abbrev pub no_times : LatencyTrace
no_times = record {
  asr_ms = none;
  rag_ms = none;
  llm_ttft_ms = none;
  llm_total_ms = none;
  tool_ms = none;
  tts_ms = none;
  buffer_ms = none;
  total_ms = none;
}

pub record VoiceTurn : Type 0 where
  pub heard : Option String
  pub generated : List String
  pub spoken : List String
  pub trace : LatencyTrace

-- _reset, and the turn that a session starts with
abbrev pub reset : VoiceTurn
reset = record { heard = none; generated = []; spoken = []; trace = no_times }

-- event.type in ("content", "token")
abbrev pub is_content : StreamEvent → Bool
is_content event = event.type == "content" || event.type == "token"

-- One event of the stream at its time since the start: the chunk that is yielded, if one is.
unfoldable pub take_event : Option String → VoiceTurn → StreamEvent → ℕ → List String × VoiceTurn
unfolding text_of
take_event speak_field turn event elapsed =
    let chunk = text_of event.payload speak_field in
    let ttft : Option ℕ = elim turn.trace.llm_ttft_ms [ none ↦ some elapsed | some t ↦ some t ] in
    if not (is_content event) || chunk == "" then ([], turn) else (
      chunk ∷ [],
      record turn {
        generated = turn.generated ++ chunk ∷ [];
        trace = record turn.trace { llm_ttft_ms = ttft };
      },
    )

-- The events that the consumer waits for; an abandoned stream ends with the last of them.
unfoldable pub take_events :
    Option String → VoiceTurn → List (StreamEvent × ℕ) → List String × VoiceTurn
take_events speak_field turn [] = ([], turn)
take_events speak_field turn ((event, elapsed) ∷ events) =
    let (chunks, turn') = take_event speak_field turn event elapsed in
    let (more, turn'') = take_events speak_field turn' events in (chunks ++ more, turn'')

-- `say`: `ended` is the time at which the stream ended by itself, if it did.
unfoldable pub say :
    Option String
    → String
    → Option ℕ
    → List (StreamEvent × ℕ)
    → Option ℕ
    → VoiceTurn
    → List String × VoiceTurn
unfolding take_events
say speak_field heard asr_ms events ended turn =
    let started : VoiceTurn = record reset {
      heard = some heard;
      trace = record no_times { asr_ms = asr_ms };
    } in
    let (chunks, turn') = take_events speak_field started events in
    elim ended [
      | none ↦ (chunks, turn')
      | some t ↦ (chunks, record turn' { trace = record turn'.trace { llm_total_ms = some t } })
    ]

unfoldable confirm_spoken : String → VoiceTurn → VoiceTurn
confirm_spoken chunk turn = record turn { spoken = turn.spoken ++ chunk ∷ [] }

abbrev pub cancelled_marker : String
cancelled_marker = "[cancelled by user]"

unfoldable pub transcript : Bool → VoiceTurn → String
unfolding rstrip
transcript false turn = join turn.generated
transcript true turn =
    let heard = rstrip (join turn.spoken) in
    if heard == "" then cancelled_marker else heard <> (" " <> cancelled_marker)

-- `amend` is the agent's amend_history, where it has one: it says whether history changed.
unfoldable pub interrupted : Option (String → Bool) → VoiceTurn → Bool
unfolding transcript
interrupted amend turn =
    if is_empty turn.spoken
    then false
    else elim amend [ none ↦ false | some rewrite ↦ rewrite (transcript true turn) ]
