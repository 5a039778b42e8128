-- ===== src/Examples/Peers.antt =====
-- Agents that call each other over the network.
use Prim.Native.String.{◌++◌ as ◌<>◌}
use agent_ship.Prelude.{String, ◌≡◌, refl, Option, none, some, List, [], ◌∷◌, ◌==◌, if◌then◌else◌}
use agent_ship.Dict.{Dict, get, put}
use agent_ship.Errors.{Result, ok, ◌>>=◌}
use agent_ship.Auth.Caller.{Caller}
use agent_ship.Spec.{bearer}
use agent_ship.Examples.Authoring.{caller_in, turn_of}
use agent_ship.A2a.{RemoteSpec}
use agent_ship.A2a.Client.{request_headers, send}
use agent_ship.A2a.Server.{Event, fields, scalar, no_data, broken, handle_rpc}
use agent_ship.A2a.Transparency.{connected, over_network, reply, send-handle_rpc}
use agent_ship.A2a.Credentials.{IsCredential, request_headers_authenticated}
use agent_ship.A2a.Streaming.{Frames, stream_rpc_ends}

abbrev environ : String → Option String
environ variable = if variable == "BOOKS_TOKEN" then some "t0k3n" else none

abbrev hex : String → String
hex s = "7231"

abbrev remote : RemoteSpec
remote = record {
  url = "https://books/a2a/books";
  card_path = "/.well-known/agent-card.json";
  auth = record { type = bearer; token_env = some "BOOKS_TOKEN" };
  timeout_seconds = 60;
}

abbrev echo : Caller → String → Result String
echo caller text = ok ("You said " <> text)

abbrev itself : String → String
itself s = s

send-handle_rpc_example :
    send environ hex
      (connected (handle_rpc itself echo "m2" (caller_in "acme")))
      "r1"
      "m1"
      remote
      (turn_of "acme" "support")
      "hi"
    ≡ (request_headers environ hex remote (turn_of "acme" "support")
        >>= (λ headers. over_network (reply itself (echo (caller_in "acme") "hi"))))
send-handle_rpc_example =
    send-handle_rpc itself echo environ hex "m2" "r1" "m1" (caller_in "acme") remote
      (turn_of "acme" "support") "hi"

abbrev sent : Dict String
sent = ("X-AgentShip-Tenant", "acme") ∷ ("Authorization", "Bearer t0k3n") ∷ []

request_headers_authenticated_example :
    IsCredential environ (remote.auth) sent × (get sent "X-AgentShip-Tenant" ≡ some "acme")
unfolding request_headers put
request_headers_authenticated_example =
    request_headers_authenticated environ hex remote (turn_of "acme" "support") {headers = sent}
      refl

abbrev spoken : List Event
spoken =
    record { type = "token"; data_of = fields (("content", "Two ") ∷ []) }
    ∷ record { type = "tool_call"; data_of = fields (("content", "search") ∷ []) }
    ∷ record { type = "chunk"; data_of = scalar "books." }
    ∷ record { type = "done"; data_of = no_data }
    ∷ []

stream_rpc_ends_example : Frames "t1" "c1" spoken (broken "lost")
stream_rpc_ends_example = stream_rpc_ends "t1" "c1" spoken (broken "lost")
