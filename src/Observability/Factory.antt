-- ===== src/Observability/Factory.antt =====
-- packages/agentship-observability/src/agentship_observability/factory.py: observers over tracer providers
-- that the process keeps. `env` is the environment, which stays as it is while the process runs.
pub mod Kept
use agent_ship.Prelude.{
  ℕ, String, Bool, true, false, Option, none, some, List, [], ◌∷◌, not, eqb, leb, ◌==◌, ◌&&◌, ◌||◌,
  if◌then◌else◌, elem, all,
}
use agent_ship.Dict.{Dict, get}
use agent_ship.Errors.{Result, ok, raise, capability_error, other, ◌>>=◌, ◌>>◌}
use agent_ship.Spec.{ObservabilitySpec}
use agent_ship.Observability.Exporters.{
  ObservabilityConfig, uses_saas_exporter, SpanProcessor, build_processor,
}

pub record ProviderKey : Type 0 where
  pub service_name : String
  pub exporters : List String
  pub sample_ratio : ℕ

pub record TracerProvider : Type 0 where
  pub service_name : String
  pub sample_ratio : ℕ
  pub processors : List SpanProcessor

-- _PROVIDERS
abbrev pub Providers : Type 0
Providers = List (ProviderKey × TracerProvider)

unfoldable pub same_names : List String → List String → Bool
same_names [] [] = true
same_names (x ∷ xs) (y ∷ ys) = x == y && same_names xs ys
same_names _ _ = false

unfoldable pub same_key : ProviderKey → ProviderKey → Bool
unfolding same_names
same_key j k =
    j.service_name == k.service_name
    && (same_names j.exporters k.exporters && eqb j.sample_ratio k.sample_ratio)

-- _PROVIDERS.get(key)
unfoldable pub provider_at : Providers → ProviderKey → Option TracerProvider
unfolding same_key
provider_at [] key = none
provider_at ((k, provider) ∷ providers) key =
    let rest = provider_at providers key in if same_key k key then some provider else rest

-- _resolved_exporters
unfoldable pub resolved_exporters : ObservabilityConfig → Result (List String)
resolved_exporters config =
    if uses_saas_exporter config && not config.allow_saas_exporter
    then raise capability_error
    else ok config.exporters

-- ExporterName
abbrev exporter_names : List String
exporter_names = "console" ∷ "phoenix" ∷ "langfuse" ∷ "langsmith" ∷ "opik" ∷ []

-- ObservabilityConfig(**config.model_dump()), which is a ValidationError for other names and ratios
unfoldable as_config : ObservabilitySpec → Result ObservabilityConfig
as_config spec =
    if all (λ name. elem name exporter_names) spec.exporters && leb spec.sample_ratio 1000000
    then ok record {
      enabled = true;
      provider = spec.provider;
      exporters = spec.exporters;
      capture_content = spec.capture_content;
      hash_user_id = true;
      sample_ratio = spec.sample_ratio;
      allow_saas_exporter = spec.allow_saas_exporter;
    }
    else raise other

pub data Observer : Type 0 where
  no_op : Observer
  otel : (provider : TracerProvider) (capture_content : Bool) → Observer

module _ (env : Dict String) (b64 : String → String) where
  -- _provider_key
  abbrev pub provider_key : ObservabilityConfig → ProviderKey
  provider_key config = record {
    service_name = elim (get env "AGENTSHIP_SERVICE_NAME") [
      | none ↦ "agentship"
      | some name ↦ name
    ];
    exporters = config.exporters;
    sample_ratio = config.sample_ratio;
  }

  -- the loop that adds the processors
  unfoldable pub processors_of : List String → Result (List SpanProcessor)
  unfolding build_processor
  processors_of [] = ok []
  processors_of (name ∷ names) = do
    processor ← build_processor env b64 name
    rest ← processors_of names
    ok (processor ∷ rest)

  -- A provider that is not kept yet.
  unfoldable pub new_provider : ObservabilityConfig → Result TracerProvider
  unfolding resolved_exporters processors_of get
  new_provider config = do
    names ← resolved_exporters config
    processors ← processors_of names
    ok record {
      service_name = (provider_key config).service_name;
      sample_ratio = config.sample_ratio;
      processors = processors;
    }

  unfoldable pub build_tracer_provider :
      Providers → ObservabilityConfig → Result TracerProvider × Providers
  unfolding provider_at new_provider get
  build_tracer_provider providers config =
      let key = provider_key config in
      elim (provider_at providers key) [
        | some provider ↦ (ok provider, providers)
        | none ↦ elim (new_provider config) [
          | raise error ↦ (raise error, providers)
          | ok provider ↦ (ok provider, (key, provider) ∷ providers)
        ]
      ]

  abbrev pub over : Bool → Result TracerProvider × Providers → Result Observer × Providers
  over capture_content (raise error, providers) = (raise error, providers)
  over capture_content (ok provider, providers) = (ok (otel provider capture_content), providers)

  unfoldable build_otel_observer : Providers → ObservabilityConfig → Result Observer × Providers
  unfolding build_tracer_provider
  build_otel_observer providers config =
      over config.capture_content (build_tracer_provider providers config)

  unfoldable build_observer : Providers → ObservabilityConfig → Result Observer × Providers
  unfolding build_otel_observer
  build_observer providers config =
      if not config.enabled || config.provider == "none"
      then (ok no_op, providers)
      else build_otel_observer providers config
