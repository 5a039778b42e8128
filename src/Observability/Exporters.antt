-- ===== src/Observability/Exporters.antt =====
-- packages/agentship-observability/src/agentship_observability: config.py and exporters. What a backend is
-- sent: the endpoint and the headers of its OTLP exporter. `env` is the environment, `b64` is
-- b64encode of the text's bytes.
use Prim.Native.String.{◌++◌ as ◌<>◌}
use agent_ship.Prelude.{
  ℕ, String, Bool, none, some, List, [], ◌∷◌, ◌++◌, if◌then◌else◌, truthy, elem,
}
use agent_ship.Text.{rstrip_slash}
use agent_ship.Dict.{Dict, get}
use agent_ship.Errors.{Result, ok, raise, capability_error}

-- Shares of traces are whole millionths.
pub record ObservabilityConfig : Type 0 where
  pub enabled : Bool
  pub provider : String
  pub exporters : List String
  pub capture_content : Bool
  pub hash_user_id : Bool
  pub sample_ratio : ℕ
  pub allow_saas_exporter : Bool

abbrev pub uses_saas_exporter : ObservabilityConfig → Bool
uses_saas_exporter config = elem "langsmith" config.exporters

pub data SpanProcessor : Type 0 where
  simple_console : SpanProcessor
  batch_otlp : (endpoint : String) (headers : Dict String) → SpanProcessor

module _ (env : Dict String) (b64 : String → String) where
  -- os.getenv(name, default)
  abbrev getenv : String → String → String
  getenv name default = elim (get env name) [ none ↦ default | some value ↦ value ]

  -- if value := os.getenv(name): headers[header] = value
  abbrev header_if : String → String → Dict String
  header_if header name =
      let value = get env name in if truthy value then (header, getenv name "") ∷ [] else []

  unfoldable pub build_phoenix : SpanProcessor
  unfolding get
  build_phoenix =
      batch_otlp (getenv "PHOENIX_COLLECTOR_ENDPOINT" "http://localhost:6006/v1/traces") []

  abbrev basic_auth_header : String → String → String
  basic_auth_header public_key secret_key = "Basic " <> b64 (public_key <> (":" <> secret_key))

  unfoldable pub build_langfuse : SpanProcessor
  unfolding get rstrip_slash
  build_langfuse =
      let host = rstrip_slash (getenv "LANGFUSE_HOST" "https://cloud.langfuse.com") in
      let auth =
        basic_auth_header (getenv "LANGFUSE_PUBLIC_KEY" "") (getenv "LANGFUSE_SECRET_KEY" "") in
      batch_otlp (host <> "/api/public/otel/v1/traces") (("Authorization", auth) ∷ [])

  unfoldable pub build_langsmith : SpanProcessor
  unfolding get
  build_langsmith =
      batch_otlp (getenv "LANGSMITH_OTEL_ENDPOINT" "https://api.smith.langchain.com/otel/v1/traces")
        (("x-api-key", getenv "LANGSMITH_API_KEY" "")
          ∷ header_if "Langsmith-Project" "LANGSMITH_PROJECT")

  unfoldable pub build_opik : SpanProcessor
  unfolding get
  build_opik =
      batch_otlp (getenv "OPIK_OTEL_ENDPOINT" "http://localhost:5173/api/v1/private/otel/v1/traces")
        (header_if "Authorization" "OPIK_API_KEY"
          ++ (header_if "Comet-Workspace" "OPIK_WORKSPACE"
              ++ header_if "projectName" "OPIK_PROJECT_NAME"))

  -- _BUILDERS; no builder reads the configuration that it is given
  unfoldable pub builders : Dict SpanProcessor
  builders =
      ("console", simple_console)
      ∷ ("phoenix", build_phoenix)
      ∷ ("langfuse", build_langfuse)
      ∷ ("langsmith", build_langsmith)
      ∷ ("opik", build_opik)
      ∷ []

  unfoldable pub build_processor : String → Result SpanProcessor
  unfolding get
  build_processor name = elim (get builders name) [
    | none ↦ raise capability_error
    | some processor ↦ ok processor
  ]
