-- ===== src/Service/Responses.antt =====
-- agentship_service/middleware/headers.py and fallback.py: what the two outermost layers of the service
-- make of what the rest of it sends.
pub mod Stamped
use agent_ship.Prelude.{
  ℕ, String, Bool, true, false, Option, none, some, List, [], ◌∷◌, ◌++◌, ◌||◌, not, leb, ◌==◌,
  if◌then◌else◌, elem, keep,
}
use agent_ship.Text.{lacks}
use agent_ship.Dict.{Dict, keys}
use agent_ship.Service.Problem.{Problem}

-- The messages of a response; header names are in lower case, and a name may stand twice.
pub data Message : Type 0 where
  response_start : (status : ℕ) (headers : Dict String) → Message
  response_body : String → Message

-- What the layers inside do: they send messages, and end by themselves, by an Exception, or by a
-- cancellation. They do not catch what `send` raises.
pub data Run : Type 0 where
  sends : Message → Run → Run
  returns raises is_cancelled : Run

pub data Outcome : Type 0 where
  returned raised cancelled : Outcome

abbrev pub is_raised : Outcome → Bool
is_raised raised = true
is_raised _ = false

abbrev pub is_start : Message → Bool
is_start (response_start status headers) = true
is_start (response_body content) = false

-- _BASE_SECURITY_HEADERS, and what `hsts` adds
abbrev pub security_headers : Bool → Dict String
security_headers hsts =
    let base : Dict String =
      ("x-content-type-options", "nosniff")
      ∷ ("x-frame-options", "DENY")
      ∷ ("referrer-policy", "no-referrer")
      ∷ [] in
    if hsts
    then base ++ ("strict-transport-security", "max-age=63072000; includeSubDomains") ∷ []
    else base

abbrev pub is_beyond_ascii : ℕ → Bool
is_beyond_ascii c = leb 128 c

-- trace_id.encode("ascii"), `none` where it raises
abbrev encode_ascii : String → Option String
encode_ascii trace_id = if lacks is_beyond_ascii trace_id then some trace_id else none

-- `_stamp`: what is sent in place of a message
unfoldable pub stamp : Dict String → String → Message → Option Message
unfolding keys lacks
stamp extra trace_id (response_body content) = some (response_body content)
stamp extra trace_id (response_start status headers) =
    let existing = keys headers in
    let missing : Dict String = keep (λ e. not (elem e.0 existing)) extra in
    elim (encode_ascii trace_id) [
      | none ↦ none
      | some encoded ↦
          some (response_start status (headers ++ missing ++ ("x-trace-id", encoded) ∷ []))
    ]

-- _incoming_request_id(scope), of the decoded headers
unfoldable pub incoming_request_id : Dict String → Option String
incoming_request_id [] = none
incoming_request_id ((name, value) ∷ headers) =
    if name == "x-request-id" then some value else incoming_request_id headers

abbrev pub trace_id_of : String → Dict String → String
trace_id_of fresh headers = elim (incoming_request_id headers) [
  | none ↦ fresh
  | some id ↦ if id == "" then fresh else id
]

abbrev pub internal_error : Problem
internal_error = record {
  status = 500;
  title = "Internal Server Error";
  code = some "internal_error";
  detail = none;
}

-- `dumps` is json.dumps of a problem with a trace id, and `size` str(len(body)).
module _ (dumps : String → Problem → String) (size : String → String) where
  abbrev pub problem_start : String → Message
  problem_start trace_id = response_start 500 (
      ("content-type", "application/problem+json")
      ∷ ("content-length", size (dumps trace_id internal_error))
      ∷ [])

  module _ (send : Message → Option Message) (trace_id : String) where
    -- _send_problem
    unfoldable pub send_problem : List Message × Outcome
    send_problem = elim (send (problem_start trace_id)) [
      | none ↦ ([], raised)
      | some m ↦ elim (send (response_body (dumps trace_id internal_error))) [
        | none ↦ (m ∷ [], raised)
        | some b ↦ (m ∷ b ∷ [], returned)
      ]
    ]

    -- except Exception: …
    abbrev pub escaped : Bool → List Message × Outcome
    escaped started = if started then ([], raised) else send_problem

    -- `ProblemFallbackMiddleware` around a run, after messages of which one may have started the response
    unfoldable pub watched : Bool → Run → List Message × Outcome
    unfolding send_problem
    watched started returns = ([], returned)
    watched started is_cancelled = ([], cancelled)
    watched started raises = escaped started
    watched started (sends m run) = elim (send m) [
      | none ↦ escaped (started || is_start m)
      | some sent ↦ let rest = watched (started || is_start m) run in (sent ∷ rest.0, rest.1)
    ]

  -- `SecurityHeadersMiddleware` around it, for a request with these headers
  unfoldable pub respond : Bool → String → Dict String → Run → List Message × Outcome
  unfolding watched stamp incoming_request_id
  respond hsts fresh headers run =
      let trace_id = trace_id_of fresh headers in
      watched (stamp (security_headers hsts) trace_id) trace_id false run
