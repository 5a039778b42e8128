-- ===== src/A2a/Server.antt =====
-- agentship_service: a2a/mapping.py and a2a/server.py, JSON-RPC methods onto a built agent.
use agent_ship.Prelude.{
  ℕ, String, Bool, true, false, Option, none, some, List, [], ◌∷◌, ◌++◌, elem, ◌||◌, ◌==◌,
  if◌then◌else◌,
}
use agent_ship.Dict.{Dict, get}
use agent_ship.Errors.{Result, ok, ◌>>=◌}
use agent_ship.Auth.Caller.{Caller}
use agent_ship.A2a.{
  agent_message, WireMessage, dump, parts_of, joined_text, JsonRpcRequest, JsonRpcResponse, succeed,
  fail,
}

-- message_text(req.params)
unfoldable pub message_text : JsonRpcRequest → String
unfolding joined_text
message_text request = joined_text (parts_of request.message)

-- The magnitude of the negative code.
abbrev method_not_found : ℕ
method_not_found = 32601

-- What a built agent answers to a caller's text; `render` is str, which gives a text itself.
module _ {Value : Type 0} (render : Value → String) where
  -- result_message, with the id that is made for the message
  abbrev pub result_message : String → Value → WireMessage
  result_message fresh output = dump (agent_message fresh (render output))

  -- Methods of tasks and unknown methods have the same code.
  unfoldable pub handle_rpc :
      (Caller → String → Result Value)
      → String
      → Caller
      → JsonRpcRequest
      → Result (JsonRpcResponse WireMessage)
  unfolding message_text
  handle_rpc run fresh caller request =
      let answer : Result (JsonRpcResponse WireMessage) = do
        output ← run caller (message_text request)
        ok (succeed request.id (result_message fresh output))
      in if request.method == "message/send" then answer else ok (fail request.id method_not_found)

-- What an event carries: nothing, a dict, or a scalar; the values are texts.
pub data EventData : Type 0 where
  no_data : EventData
  fields : Dict String → EventData
  scalar : String → EventData

pub record Event : Type 0 where
  pub type : String
  pub data_of : EventData

-- _ALLOWED_EVENT_TYPES
abbrev pub allowed_event_types : List String
allowed_event_types =
    "session" ∷ "token" ∷ "content" ∷ "reasoning" ∷ "tool_call" ∷ "tool_result" ∷ "guard" ∷ "paused"
    ∷ "done" ∷ "error" ∷ []

unfoldable pub frame_type : String → String
frame_type event_type = if elem event_type allowed_event_types then event_type else "content"

unfoldable pub frame_data : EventData → Dict String
frame_data no_data = []
frame_data (fields d) = d
frame_data (scalar value) = ("content", value) ∷ []

-- d.get(key) or other
abbrev get_or_else : Dict String → String → String → String
get_or_else d key other = elim (get d key) [ none ↦ other | some s ↦ if s == "" then other else s ]

-- _event_text
unfoldable pub event_text : Event → String
unfolding frame_type frame_data get
event_text event =
    let d = frame_data event.data_of in
    let type = frame_type event.type in
    if type == "token" || type == "content"
    then get_or_else d "content" (get_or_else d "token" "")
    else ""

pub data TaskState : Type 0 where
  working completed failed : TaskState

-- A TaskStatusUpdate; `message` is the text of the message that it has.
pub record StatusUpdate : Type 0 where
  pub task_id : String
  pub context_id : String
  pub state : TaskState
  pub message : Option String
  pub final : Bool

unfoldable pub status_update : String → String → TaskState → String → Bool → StatusUpdate
status_update task_id context_id state text final = record {
  task_id = task_id;
  context_id = context_id;
  state = state;
  message = if text == "" then none else some text;
  final = final;
}

-- How an agent's stream ends: by itself, by an exception with its text, or by a cancellation, which is
-- no Exception.
pub data StreamEnd : Type 0 where
  finished cancelled : StreamEnd
  broken : String → StreamEnd

module _ (task_id context_id : String) where
  abbrev pub working_frame : String → List StatusUpdate
  working_frame chunk =
      if chunk == "" then [] else status_update task_id context_id working chunk false ∷ []

  abbrev pub last_frame : StreamEnd → List StatusUpdate
  last_frame finished = status_update task_id context_id completed "" true ∷ []
  last_frame (broken text) = status_update task_id context_id failed text true ∷ []
  last_frame cancelled = []

  -- the frames that `stream_rpc` yields for what the agent streams
  unfoldable pub stream_rpc : List Event → StreamEnd → List StatusUpdate
  unfolding event_text status_update
  stream_rpc [] ending = last_frame ending
  stream_rpc (event ∷ events) ending = working_frame (event_text event) ++ stream_rpc events ending
