-- ===== src/A2a/Card.antt =====
-- a2a/card.py: the card of an agent; and the routes of agentship_service/routers/a2a.py, with the table
-- of agents of agentship_service/registry.py.
use Prim.Native.String.{◌++◌ as ◌<>◌}
use agent_ship.Prelude.{
  String, Bool, true, false, Option, none, some, List, [], ◌∷◌, map, ◌==◌, keep, if◌then◌else◌,
}
use agent_ship.Text.{rstrip_slash}
use agent_ship.Dict.{Dict, get, put, values}
use agent_ship.Dict.Named.{put_all}
use agent_ship.Errors.{Result, ok, raise, http_exception, ◌>>=◌}
use agent_ship.Auth.Caller.{Caller}
use agent_ship.Auth.Scopes.{authorize}
use agent_ship.Spec.{A2aOAuth2Spec, A2aExposeSpec, AgentSpec}
use agent_ship.Engine.{EngineCapabilities}
use agent_ship.Engine.Build.{RunnableAgent}
use agent_ship.A2a.{JsonRpcRequest, JsonRpcResponse, WireMessage}
use agent_ship.A2a.Server.{StatusUpdate}

pub record ClientCredentialsFlow : Type 0 where
  pub token_url : String
  pub scopes : Dict String

pub record OAuthFlows : Type 0 where
  pub client_credentials : Option ClientCredentialsFlow

-- Descriptions are for people.
pub record SecurityScheme : Type 0 where
  pub type : String
  pub name : Option String
  pub location : Option String
  pub flows : Option OAuthFlows

pub record AgentCapabilities : Type 0 where
  pub streaming : Bool
  pub push_notifications : Bool
  pub state_transition_history : Bool

-- A requirement is a scheme's name, with no scopes. The version and the modes are constants.
pub record AgentCard : Type 0 where
  pub name : String
  pub description : Option String
  pub url : String
  pub capabilities : AgentCapabilities
  pub security_schemes : Dict SecurityScheme
  pub security : List String

abbrev flows_of : Option A2aOAuth2Spec → OAuthFlows
flows_of none = record { client_credentials = none }
flows_of (some oauth2) = record {
  client_credentials = some (record { token_url = oauth2.token_url; scopes = oauth2.scopes });
}

-- _security_scheme
unfoldable pub security_scheme : String → Option A2aOAuth2Spec → SecurityScheme
security_scheme name oauth2 =
    if name == "apiKey"
    then record { type = "apiKey"; name = some "X-API-Key"; location = some "header"; flows = none }
    else if name == "oauth2"
    then record { type = "oauth2"; name = none; location = none; flows = some (flows_of oauth2) }
    else if name == "mtls"
    then record { type = "mutualTLS"; name = none; location = none; flows = none }
    else record { type = name; name = none; location = none; flows = none }

-- {name: _security_scheme(name, oauth2) for name in security}, onto what is there
unfoldable pub schemes_of :
    Option A2aOAuth2Spec → List String → Dict SecurityScheme → Dict SecurityScheme
unfolding put security_scheme
schemes_of oauth2 [] schemes = schemes
schemes_of oauth2 (name ∷ names) schemes =
    schemes_of oauth2 names (put schemes name (security_scheme name oauth2))

unfoldable pub build_agent_card :
    AgentSpec → EngineCapabilities → String → List String → Option A2aOAuth2Spec → AgentCard
unfolding schemes_of rstrip_slash
build_agent_card spec capabilities base_url security oauth2 = record {
  name = spec.name;
  description = spec.prompt;
  url = rstrip_slash base_url <> ("/a2a/" <> spec.name);
  capabilities = record {
    streaming = capabilities.streaming;
    push_notifications = false;
    state_transition_history = false;
  };
  security_schemes = schemes_of oauth2 security [];
  security = security;
}

-- the block of an agent that is exposed
abbrev pub exposure : AgentSpec → Option A2aExposeSpec
exposure spec = elim spec.a2a [ none ↦ none | some a2a ↦ if a2a.expose then some a2a else none ]

-- What the JSON-RPC route answers.
pub data RpcAnswer : Type 0 where
  streamed : List StatusUpdate → RpcAnswer
  responded : JsonRpcResponse WireMessage → RpcAnswer

module _ {Authored Compiled : Type 0} where
  abbrev pub name_of : RunnableAgent Authored Compiled → String
  name_of agent = agent.spec.name

  -- AgentRegistry: a dict of agents under the names of their specs
  abbrev agent_registry :
      List (RunnableAgent Authored Compiled) → Dict (RunnableAgent Authored Compiled)
  agent_registry agents = put_all name_of [] agents

  -- resolve_agent
  unfoldable pub resolve_agent :
      Dict (RunnableAgent Authored Compiled) → String → Result (RunnableAgent Authored Compiled)
  unfolding get
  resolve_agent agents name = elim (get agents name) [
    | none ↦ raise (http_exception 404)
    | some agent ↦ ok agent
  ]

  -- _exposed_or_404, with the block that makes it so
  unfoldable pub exposed_or_404 :
      Dict (RunnableAgent Authored Compiled)
      → String
      → Result (RunnableAgent Authored Compiled × A2aExposeSpec)
  unfolding resolve_agent
  exposed_or_404 agents name = do
    agent ← resolve_agent agents name
    elim (exposure agent.spec) [ none ↦ raise (http_exception 404) | some a2a ↦ ok (agent, a2a) ]

  abbrev is_exposed : RunnableAgent Authored Compiled → Bool
  is_exposed agent = elim (exposure agent.spec) [ none ↦ false | some a2a ↦ true ]

  -- agents_index: the name and the URL of each
  unfoldable agents_index : Dict (RunnableAgent Authored Compiled) → String → List (String × String)
  unfolding values rstrip_slash
  agents_index agents base_url =
      map (λ agent. (agent.spec.name, rstrip_slash base_url <> ("/a2a/" <> agent.spec.name)))
        (keep is_exposed (values agents))

  -- the route of the card
  unfoldable pub agent_card :
      Dict (RunnableAgent Authored Compiled) → String → String → Result AgentCard
  unfolding exposed_or_404 build_agent_card
  agent_card agents base_url name = do
    found ← exposed_or_404 agents name
    ok (
        build_agent_card found.0.spec found.0.engine.capabilities base_url found.1.security
          found.1.oauth2)

  -- The route, with its dependency on the scope and what the two protocols do with an agent.
  unfoldable pub rpc :
      (RunnableAgent Authored Compiled → Caller → JsonRpcRequest → List StatusUpdate)
      → (RunnableAgent Authored Compiled
          → Caller
          → JsonRpcRequest
          → Result (JsonRpcResponse WireMessage))
      → Dict (RunnableAgent Authored Compiled)
      → Caller
      → String
      → JsonRpcRequest
      → Result RpcAnswer
  unfolding authorize exposed_or_404
  rpc stream_rpc handle_rpc agents caller name request = do
    authorized ← authorize caller name "a2a:invoke"
    found ← exposed_or_404 agents name
    elim (request.method == "message/stream") [
      | true ↦ ok (streamed (stream_rpc found.0 caller request))
      | false ↦ do response ← handle_rpc found.0 caller request; ok (responded response)
    ]
