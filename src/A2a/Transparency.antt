-- ===== src/A2a/Transparency.antt =====
-- a2a/client.py and a2a/specialist.py joined to a2a/server.py of the service.
use text.Mathlib.TextLemmas.{append-nil}
use agent_ship.Prelude.{String, ◌≡◌, refl, ap, ◌∙◌, Option, none, some}
use agent_ship.Dict.{Dict, get}
use agent_ship.Errors.{Result, ok, raise, a2a_unavailable, ◌>>=◌}
use agent_ship.Auth.Caller.{Caller}
use agent_ship.Context.{RunContext}
use agent_ship.A2a.{
  RemoteSpec, user_message, agent_message, dump, parts_of, joined_text, WireMessage, JsonRpcRequest,
  JsonRpcResponse, succeed,
}
use agent_ship.A2a.Client.{request_headers, send, unwrap}
use agent_ship.A2a.Server.{handle_rpc, message_text, result_message}

-- A connection that delivers to a handler what is posted, and the handler's response: where the handler
-- raises, the status of the response is an error, which the client's library raises.
abbrev pub connected :
    (JsonRpcRequest → Result (JsonRpcResponse WireMessage))
    → String
    → JsonRpcRequest
    → Dict String
    → Option (Option (JsonRpcResponse WireMessage))
connected handler url request headers = elim (handler request) [
  | raise error ↦ none
  | ok response ↦ some (some response)
]

abbrev pub over_network : Result String → Result String
over_network (raise error) = raise a2a_unavailable
over_network (ok text) = ok text

-- LocalSpecialist: what the agent returns, as a text
abbrev pub reply : {Value : Type 0} → (Value → String) → Result Value → Result String
reply render (raise error) = raise error
reply render (ok output) = ok (render output)

-- What succeeds in the same way after every value, does so after a call that may raise.
>>=-congruence :
    {A B : Type 0} (first : Result A) {next next' : A → Result B}
    → ((a : A) → next a ≡ next' a)
    → (first >>= next) ≡ (first >>= next')
>>=-congruence (raise error) h = refl
>>=-congruence (ok a) h = h a

user_text :
    (fresh text : String) → joined_text (parts_of (some (dump (user_message fresh text)))) ≡ text
unfolding joined_text get
user_text fresh text = append-nil text

agent_text :
    (fresh text : String) → joined_text (parts_of (some (dump (agent_message fresh text)))) ≡ text
unfolding joined_text get
agent_text fresh text = append-nil text

module _ {Value : Type 0} (render : Value → String) (run : Caller → String → Result Value) where
  -- the response to a `message/send`, unwrapped
  answered :
      (fresh id : String) (r : Result Value)
      → elim (elim (r >>= (λ output. ok (succeed id (result_message render fresh output))))
            as (λ _. Option (Option (JsonRpcResponse WireMessage))) [
              | raise error ↦ none
              | ok response ↦ some (some response)
            ])
          as (λ _. Result String) [ none ↦ raise a2a_unavailable | some body ↦ unwrap body ]
        ≡ over_network (reply render r)
  unfolding unwrap
  answered fresh id (raise error) = refl
  answered fresh id (ok output) = ap ok (agent_text fresh (render output))

  -- A specialist over a connection to a built agent, once its credential is there, answers the text
  -- that the agent answers to its text, as in the process; where the agent raises, it is unavailable.
  pub send-handle_rpc :
      (environ : String → Option String) (hex : String → String) (fresh id message_id : String)
      (caller : Caller) (remote : RemoteSpec) (ctx : RunContext) (text : String)
      → send environ hex
          (connected (handle_rpc render run fresh caller))
          id
          message_id
          remote
          ctx
          text
        ≡ (request_headers environ hex remote ctx
            >>= (λ headers. over_network (reply render (run caller text))))
  unfolding send handle_rpc message_text
  send-handle_rpc environ hex fresh id message_id caller remote ctx text =
      >>=-congruence (request_headers environ hex remote ctx) (λ headers.
        answered fresh id (run caller _)
        ∙ ap (λ t. over_network (reply render (run caller t))) (user_text message_id text))
