-- ===== src/A2a.antt =====
-- agentship/a2a/models.py: references to specialists, and the messages that agents exchange.
pub mod Resolver
pub mod Client
pub mod Server
pub mod Transparency
pub mod Credentials
pub mod Streaming
pub mod Card
pub mod Exposure
use agent_ship.Prelude.{ℕ, String, Option, none, some, List, [], ◌∷◌, map, ◌==◌, keep}
use agent_ship.Text.{join}
use agent_ship.Dict.{Dict, get}
use agent_ship.Spec.{A2aAuthType}

-- The fields of schemes that are not built yet are not read.
pub record A2aAuthConfig : Type 0 where
  pub type : A2aAuthType
  pub token_env : Option String

pub record RemoteSpec : Type 0 where
  pub url : String
  pub card_path : String
  pub auth : A2aAuthConfig
  pub timeout_seconds : ℕ

pub data Role : Type 0 where
  user agent : Role

pub record TextPart : Type 0 where
  pub text : String

pub record Message : Type 0 where
  pub role : Role
  pub parts : List TextPart
  pub message_id : String

-- Message.user(text) and Message.agent(text), with the id that is made for it
abbrev pub user_message : String → String → Message
user_message fresh text = record {
  role = user;
  parts = record { text = text } ∷ [];
  message_id = fresh;
}

abbrev pub agent_message : String → String → Message
agent_message fresh text = record {
  role = agent;
  parts = record { text = text } ∷ [];
  message_id = fresh;
}

-- A message as a JSON object that is not checked yet: the keys that are read of it, which may be missing.
-- A part is an object whose values are texts.
pub record WireMessage : Type 0 where
  pub parts : Option (List (Dict String))

-- model_dump(by_alias=True)
abbrev dump_part : TextPart → Dict String
dump_part part = ("kind", "text") ∷ ("text", part.text) ∷ []

abbrev pub dump : Message → WireMessage
dump message = record { parts = some (map dump_part message.parts) }

-- d.get(key, default)
abbrev get_or : Dict String → String → String → String
get_or d key default = elim (get d key) [ none ↦ default | some value ↦ value ]

-- message.get("parts") or []
abbrev pub parts_of : Option WireMessage → List (Dict String)
parts_of none = []
parts_of (some message) = elim message.parts [ none ↦ [] | some parts ↦ parts ]

-- "".join(part.get("text", "") for part in parts if part.get("kind", "text") == "text")
unfoldable pub joined_text : List (Dict String) → String
unfolding get
joined_text parts =
    join (
      map (λ part. get_or part "text" "")
        (keep (λ part. get_or part "kind" "text" == "text") parts))

-- The ids of requests are texts. Of `params` the message is read.
pub record JsonRpcRequest : Type 0 where
  pub id : String
  pub method : String
  pub message : Option WireMessage

pub record JsonRpcResponse (R : Type 0) : Type 0 where
  pub id : String
  pub result : Option R
  pub error : Option ℕ

module _ {R : Type 0} where
  -- JsonRpcResponse.ok and JsonRpcResponse.fail; of an error only the code is kept
  abbrev pub succeed : String → R → JsonRpcResponse R
  succeed id result = record { id = id; result = some result; error = none }

  abbrev pub fail : String → ℕ → JsonRpcResponse R
  fail id code = record { id = id; result = none; error = some code }
