-- ===== src/A2a/Client.antt =====
-- a2a/security.py and client.py: one call of a remote agent.
use Prim.Native.String.{◌++◌ as ◌<>◌}
use agent_ship.Prelude.{String, Option, none, some, [], ◌∷◌, ◌==◌, if◌then◌else◌}
use agent_ship.Text.{take, zero_fill}
use agent_ship.Dict.{Dict, put}
use agent_ship.Errors.{Result, ok, raise, capability_error, a2a_unavailable, other, ◌>>=◌}
use agent_ship.Spec.{no_auth, bearer, oauth2, mtls}
use agent_ship.Context.{RunContext}
use agent_ship.A2a.{
  A2aAuthConfig, RemoteSpec, user_message, WireMessage, dump, parts_of, joined_text, JsonRpcRequest,
  JsonRpcResponse,
}

-- NoAuth and BearerEnvAuth
pub data OutboundAuth : Type 0 where
  open_call : OutboundAuth
  bearer_env : (token_env : String) → OutboundAuth

unfoldable pub build_outbound_auth : A2aAuthConfig → Result OutboundAuth
build_outbound_auth config = elim config.type [
  | no_auth ↦ ok open_call
  | bearer ↦ elim config.token_env [
    | none ↦ raise capability_error
    | some token_env ↦ if token_env == "" then raise capability_error else ok (bearer_env token_env)
  ]
  | oauth2 ↦ raise capability_error
  | mtls ↦ raise capability_error
]

-- {**a, **b}
unfoldable pub merged : Dict String → Dict String → Dict String
merged a [] = a
merged a ((key, value) ∷ b) = merged (put a key value) b

-- `_unwrap` of a body, which is `none` where it is no JSON-RPC response
unfoldable pub unwrap : Option (JsonRpcResponse WireMessage) → Result String
unfolding joined_text
unwrap none = raise other
unwrap (some response) = elim response.error [
  | some code ↦ raise capability_error
  | none ↦ ok (joined_text (parts_of response.result))
]

-- `environ` is os.environ.get, and `hex` s.encode("utf-8").hex().
module _ (environ : String → Option String) (hex : String → String) where
  unfoldable pub auth_headers : OutboundAuth → Result (Dict String)
  auth_headers open_call = ok []
  auth_headers (bearer_env token_env) = elim (environ token_env) [
    | none ↦ raise capability_error
    | some token ↦
        if token == ""
        then raise capability_error
        else ok (("Authorization", "Bearer " <> token) ∷ [])
  ]

  -- the span's segment of the traceparent
  abbrev span_of : RunContext → String
  span_of ctx = zero_fill 16 (take 16 (hex (if ctx.run_id == "" then "0" else ctx.run_id)))

  abbrev trace_headers : RunContext → Dict String
  trace_headers ctx = elim ctx.trace_id [
    | none ↦ []
    | some trace_id ↦
        if trace_id == ""
        then []
        else ("traceparent", "00-" <> (trace_id <> ("-" <> (span_of ctx <> "-01")))) ∷ []
  ]

  unfoldable pub propagation_headers : RunContext → Dict String
  unfolding take zero_fill
  propagation_headers ctx = ("X-AgentShip-Tenant", ctx.caller.tenant_id) ∷ trace_headers ctx

  -- A transport posts a request to a URL with headers: `none` where it raises, else the body.
  abbrev pub Transport : Type 0
  Transport = String → JsonRpcRequest → Dict String → Option (Option (JsonRpcResponse WireMessage))

  unfoldable pub request_headers : RemoteSpec → RunContext → Result (Dict String)
  unfolding build_outbound_auth auth_headers merged propagation_headers
  request_headers remote ctx = do
    auth ← build_outbound_auth remote.auth
    credential ← auth_headers auth
    ok (merged (propagation_headers ctx) credential)

  -- `RemoteA2aAgent(remote, transport).send(text, ctx)`, with the ids that are made for the request and
  -- the message
  unfoldable pub send :
      Transport → String → String → RemoteSpec → RunContext → String → Result String
  unfolding request_headers unwrap
  send transport id message_id remote ctx text = do
    headers ← request_headers remote ctx
    let request : JsonRpcRequest = record {
      id = id;
      method = "message/send";
      message = some (dump (user_message message_id text));
    }
    elim (transport remote.url request headers) [
      | none ↦ raise a2a_unavailable
      | some body ↦ unwrap body
    ]
