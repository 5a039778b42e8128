-- ===== src/Spec.antt =====
-- agentship/spec.py: what an author writes of an agent. The block `params`, which has no validator, and the
-- fields of `voice` without bounds are left out.
pub mod Coherence
pub mod Validated
pub mod Load
use agent_ship.Prelude.{ℕ, String, Bool, Option, List}
use agent_ship.Dict.{Dict}

pub data A2aAuthType : Type 0 where
  no_auth bearer oauth2 mtls : A2aAuthType

pub record A2aAuthSpec : Type 0 where
  pub type : A2aAuthType
  pub token_env : Option String

pub record A2aRemoteSpec : Type 0 where
  pub url : String
  pub card_path : String
  pub auth : A2aAuthSpec
  pub timeout_seconds : ℕ

pub record A2aOAuth2Spec : Type 0 where
  pub token_url : String
  pub scopes : Dict String

pub record A2aExposeSpec : Type 0 where
  pub expose : Bool
  pub security : List String
  pub oauth2 : Option A2aOAuth2Spec

pub record MemberSpec : Type 0 where
  pub name : String
  pub ref : Option String
  pub description : Option String
  pub prompt : Option String
  pub model : Option String
  pub a2a : Option A2aRemoteSpec

pub data Transport : Type 0 where
  stdio streamable_http : Transport

pub record McpServerSpec : Type 0 where
  pub transport : Transport
  pub command : Option String
  pub args : List String
  pub url : Option String
  pub headers : Option (Dict String)

pub data Template : Type 0 where
  single graph autonomous : Template

pub data Durability : Type 0 where
  not_durable checkpoint workflow : Durability

-- The observability block; `exporters` and `allow_saas_exporter` have the defaults that the environment
-- gives, and shares of traces are whole millionths.
pub record ObservabilitySpec : Type 0 where
  pub provider : String
  pub exporters : List String
  pub capture_content : Bool
  pub sample_ratio : ℕ
  pub allow_saas_exporter : Bool

-- The fields of the voice block that have bounds; a speed is in whole thousandths.
pub record VoiceSpec : Type 0 where
  pub tts_speed : Option ℕ
  pub endpoint_silence_ms : ℕ
  pub interrupt_min_words : ℕ
  pub latency_budget_ms : ℕ
  pub max_session_seconds : Option ℕ

pub record AgentSpec : Type 0 where
  pub name : String
  pub engine : String
  pub code : Option String
  pub template : Option Template
  pub tools : Option (List String)
  pub mcp : Option (Dict McpServerSpec)
  pub skills : Option (List String)
  pub allowed_tools : Option (List String)
  pub confirm_writes : Bool
  pub model : Option String
  pub prompt : Option String
  pub members : Option (List MemberSpec)
  pub a2a : Option A2aExposeSpec
  pub streaming : Bool
  pub output_schema : Option String
  pub durability : Durability
  pub observability : Option ObservabilitySpec
  pub voice : Option VoiceSpec
