-- ===== src/Service/Agents.antt =====
-- agentship_service/routers/agents.py and _common.py: the routes that run, resume, stream and describe agents.
pub mod Frames
use agent_ship.Prelude.{
  ℕ, ◌+◌, ◌*◌, ◌-◌, String, Bool, true, false, Option, none, some, List, [], ◌∷◌, map, ◌&&◌, ◌||◌,
  not, ◌==◌, eqb, leb, ltb, if◌then◌else◌,
}
use Prim.Native.Char.{code}
use agent_ship.Dict.{Dict, get}
use agent_ship.Errors.{
  Error, Result, ok, raise, http_exception, capability_error, other, ◌>>=◌, ◌>>◌,
}
use agent_ship.Auth.Caller.{Caller}
use agent_ship.Auth.Scopes.{authorize}
use agent_ship.Spec.{AgentSpec, Durability}
use agent_ship.Engine.{EngineCapabilities}
use agent_ship.Json.{
  Json, Fields, null, flag, number, string, object, no_fields, field, at, set, merge, optional,
}
use agent_ship.LangGraph.Compiled.{ResumeToken}
use agent_ship.LangGraph.Stream.{Event}
use agent_ship.LangGraph.Turns as Turns
use agent_ship.A2a.Server.{frame_type}

-- c.isdigit() of the characters that a header can have
abbrev is_digit : ℕ → Bool
is_digit c = (leb 48 c && leb c 57) || eqb c 0xb2 || eqb c 0xb3 || eqb c 0xb9

-- int(raw), which reads no superscripts
unfoldable read_digits : String → ℕ → Option ℕ
read_digits String.[] n = some n
read_digits (String.◌∷◌ c s) n =
    let rest = read_digits s (n * 10 + (code c - 48)) in if leb (code c) 57 then rest else none

unfoldable all_digits : String → Bool
all_digits String.[] = true
all_digits (String.◌∷◌ c s) = is_digit (code c) && all_digits s

-- MAX_BODY_BYTES
abbrev max_body_bytes : ℕ
max_body_bytes = 1048576

abbrev limited : Option ℕ → Result (Unit {0})
limited none = raise other
limited (some n) = if ltb max_body_bytes n then raise (http_exception 413) else ok tt

-- enforce_body_limit, of the Content-Length header
unfoldable enforce_body_limit : Option String → Result (Unit {0})
unfolding read_digits all_digits
enforce_body_limit none = ok tt
enforce_body_limit (some raw) =
    if not (raw == "") && all_digits raw then limited (read_digits raw 0) else ok tt

-- a or b
abbrev or_text : Option String → Option String → Option String
or_text none b = b
or_text (some a) b = if a == "" then b else some a

-- body.session_id or uuid.uuid4().hex
abbrev session_or : Option String → String → String
session_or none fresh = fresh
session_or (some session_id) fresh = if session_id == "" then fresh else session_id

-- An event with the milliseconds since the turn started at which the route reads it.
pub record Arrival : Type 0 where
  pub at_ms : ℕ
  pub event : Event

-- An agent as the routes use it; a stream may break, with the text of what was raised.
pub record ServedAgent : Type 0 where
  pub spec : AgentSpec
  pub capabilities : EngineCapabilities
  pub run : Caller → String → Option String → String → Result Turns.Result
  pub resume : Caller → String → Option ResumeToken → Json → Result Turns.Result
  pub stream : Caller → String → Option String → String → List Arrival × Option String

abbrev pub AgentRegistry : Type 0
AgentRegistry = Dict ServedAgent

-- resolve_agent
unfoldable pub resolve_agent : AgentRegistry → String → Result ServedAgent
resolve_agent agents name = elim (get agents name) [
  | none ↦ raise (http_exception 404)
  | some agent ↦ ok agent
]

-- The model is that of the overrides, if there are any.
pub record InvokeRequest : Type 0 where
  pub input : String
  pub session_id : Option String
  pub overrides_model : Option String

pub record ResumeRequest : Type 0 where
  pub resume_token : Option ResumeToken
  pub session_id : String
  pub resume_value : Json

-- Without the times and the trace id.
pub record InvokeResponse : Type 0 where
  pub agent : String
  pub session_id : String
  pub output : Json
  pub resume_token : Option ResumeToken
  pub paused : Bool
  pub interrupt : Option Json
  pub model : Option String

abbrev is_some_json : Option Json → Bool
is_some_json none = false
is_some_json (some value) = true

-- _invoke_response
unfoldable invoke_response : String → String → Turns.Result → Option String → InvokeResponse
invoke_response name session_id result model = record {
  agent = name;
  session_id = session_id;
  output = result.output;
  resume_token = result.resume_token;
  paused = is_some_json result.interrupt;
  interrupt = result.interrupt;
  model = model;
}

-- StreamEvent
pub record Frame : Type 0 where
  pub type : String
  pub seq : ℕ
  pub data_of : Fields

-- frame_data
unfoldable pub frame_data : Json → Fields
frame_data null = no_fields
frame_data (object d) = d
frame_data value = field "content" value no_fields

abbrev optional_ms : Option ℕ → Json
optional_ms none = null
optional_ms (some ms) = number ms

-- (paused or {}).get(key)
abbrev of_pause : Option Fields → String → Json
of_pause none key = null
of_pause (some d) key = at d key

abbrev is_paused : Option Fields → Bool
is_paused none = false
is_paused (some d) = true

-- What is added to the engine's terminal frame.
abbrev pub summary : String → Option String → Option ℕ → ℕ → Option Fields → Fields
summary session_id model ttft total paused = field "session_id" (string session_id) (
    field "timings"
      (object (field "ttft_ms" (optional_ms ttft) (field "total_ms" (number total) no_fields)))
      (field "model" (optional model) (
        field "paused" (flag (is_paused paused)) (
          field "resume_token" (of_pause paused "resume_token")
            (field "interrupt" (of_pause paused "interrupt") no_fields)))))

abbrev pub first_words : Option ℕ → String → ℕ → Option ℕ
first_words (some ttft) kind at_ms = some ttft
first_words none kind at_ms = if kind == "content" || kind == "token" then some at_ms else none

abbrev pub failure_frames : Option String → ℕ → List Frame
failure_frames none seq = []
failure_frames (some text) seq =
    record { type = "error"; seq = seq; data_of = field "detail" (string text) no_fields } ∷ []

-- `frames` of `stream`, after the opening frame; `model` is what the turn used.
module _ (session_id : String) (model : Option String) (failure : Option String) where
  unfoldable pub event_frames : List Arrival → ℕ → Option ℕ → Option Fields → List Frame
  unfolding frame_type frame_data merge at
  event_frames [] seq ttft paused = failure_frames failure seq
  event_frames (arrival ∷ arrivals) seq ttft paused =
      let kind = frame_type arrival.event.type in
      let d = frame_data arrival.event.data_of in
      let ttft' = first_words ttft kind arrival.at_ms in
      let paused' : Option Fields = if kind == "paused" then some d else paused in
      record {
        type = kind;
        seq = seq;
        data_of =
            if kind == "done"
            then merge d (summary session_id model ttft' arrival.at_ms paused')
            else d;
      }
      ∷ event_frames arrivals (seq + 1) ttft' paused'

abbrev pub session_frame : String → String → Frame
session_frame name session_id = record {
  type = "session";
  seq = 0;
  data_of = field "session_id" (string session_id) (field "agent" (string name) no_fields);
}

unfoldable pub stream_frames :
    String → String → Option String → List Arrival × Option String → List Frame
unfolding event_frames
stream_frames name session_id model (arrivals, failure) =
    session_frame name session_id ∷ event_frames session_id model failure arrivals 1 none none

-- The routes. `fresh` is the id that uuid4 mints, `content_length` the header.
module _ (agents : AgentRegistry) (fresh : String) (content_length : Option String) where
  abbrev admitted : Caller → String → Result ServedAgent
  admitted caller name =
      authorize caller name "invoke"
      >> enforce_body_limit content_length
      >> resolve_agent agents name

  unfoldable pub invoke : Caller → String → InvokeRequest → Result InvokeResponse
  unfolding authorize enforce_body_limit resolve_agent invoke_response
  invoke caller name body = do
    agent ← admitted caller name
    result ← agent.run caller (session_or body.session_id fresh) body.overrides_model body.input
    ok (
        invoke_response name (session_or body.session_id fresh) result
          (or_text body.overrides_model agent.spec.model))

  unfoldable pub resume : Caller → String → ResumeRequest → Result InvokeResponse
  unfolding authorize enforce_body_limit resolve_agent invoke_response
  resume caller name body = do
    agent ← admitted caller name
    result ← agent.resume caller body.session_id body.resume_token body.resume_value
    ok (invoke_response name body.session_id result agent.spec.model)

  abbrev streaming_or_400 : ServedAgent → Result ServedAgent
  streaming_or_400 agent = if agent.capabilities.streaming then ok agent else raise capability_error

  unfoldable pub stream : Caller → String → InvokeRequest → Result (List Frame)
  unfolding authorize enforce_body_limit resolve_agent stream_frames
  stream caller name body = do
    found ← admitted caller name
    agent ← streaming_or_400 found
    let session_id = session_or body.session_id fresh
    ok (
        stream_frames name session_id (or_text body.overrides_model agent.spec.model)
          (agent.stream caller session_id body.overrides_model body.input))

-- The discovery card, less the published spec.
pub record AgentCard : Type 0 where
  pub name : String
  pub description : Option String
  pub streaming : Bool
  pub capabilities : EngineCapabilities

unfoldable pub agent_card : ServedAgent → AgentCard
agent_card agent = record {
  name = agent.spec.name;
  description = agent.spec.prompt;
  streaming = agent.capabilities.streaming;
  capabilities = record agent.capabilities { durability = agent.spec.durability };
}

-- The registry is iterated in the order of registration.
unfoldable list_agents : AgentRegistry → List AgentCard
unfolding agent_card
list_agents agents = map (λ e. agent_card e.1) agents

unfoldable get_agent : AgentRegistry → String → Result AgentCard
unfolding resolve_agent agent_card
get_agent agents name = do agent ← resolve_agent agents name; ok (agent_card agent)
