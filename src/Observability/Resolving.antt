-- ===== src/Observability/Resolving.antt =====
-- observability/registry.py of the kernel: which observer an agent's block asks for. `env` is the
-- environment, `lower` is str.lower.
use agent_ship.Prelude.{
  ℕ, String, Bool, true, false, Option, none, some, List, [], ◌∷◌, not, eqb, ◌==◌, if◌then◌else◌,
  elem, keep, map,
}
use agent_ship.Text.{strip, split_at}
use agent_ship.Dict.{Dict, get}
use agent_ship.Errors.{Result, ok, raise, capability_error}
use agent_ship.Registry.{EntryPoint, Registry, find}
use agent_ship.Spec.{ObservabilitySpec}

abbrev env_or : Dict String → String → String → String
env_or env name default = elim (get env name) [ none ↦ default | some value ↦ value ]

abbrev is_comma : ℕ → Bool
is_comma c = eqb c b','

unfoldable default_exporters : Dict String → List String
unfolding get strip split_at
default_exporters env =
    keep (λ name. not (name == ""))
      (map strip (split_at is_comma (env_or env "AGENTSHIP_OTEL_EXPORTERS" "")))

unfoldable saas_egress_allowed : (String → String) → Dict String → Bool
unfolding get strip
saas_egress_allowed lower env =
    elem (lower (strip (env_or env "AGENTSHIP_OTEL_ALLOW_SAAS" "")))
      ("1" ∷ "true" ∷ "yes" ∷ "on" ∷ [])

-- A block as it was written; `names_provider` is whether `provider` is in its `model_fields_set`.
pub record Block : Type 0 where
  pub spec : ObservabilitySpec
  pub names_provider : Bool

abbrev tracing_is_on : Option Block → Bool
tracing_is_on none = true
tracing_is_on (some block) = not (block.spec.provider == "none")

-- ObservabilitySpec(exporters=default_exporters())
unfoldable default_spec : (String → String) → Dict String → ObservabilitySpec
unfolding default_exporters saas_egress_allowed
default_spec lower env = record {
  provider = "otel";
  exporters = default_exporters env;
  capture_content = false;
  sample_ratio = 1000000;
  allow_saas_exporter = saas_egress_allowed lower env;
}

abbrev asked_for_provider : Option Block → Bool
asked_for_provider none = false
asked_for_provider (some block) = block.names_provider

module _ {Observer : Type 0} (lower : String → String) (env : Dict String)
    (entry_points : List (EntryPoint (ObservabilitySpec → Result Observer)))
    (observers : Registry (ObservabilitySpec → Result Observer)) where
  abbrev spec_of : Option Block → ObservabilitySpec
  spec_of none = default_spec lower env
  spec_of (some block) = block.spec

  -- What the factory raises leaves `resolve_observer` as it is.
  abbrev pub built : Result Observer → Result (Option Observer)
  built (raise error) = raise error
  built (ok observer) = ok (some observer)

  -- `none` leaves the agent on the no-op observer
  unfoldable resolve_observer : Option Block → Result (Option Observer)
  unfolding find default_spec
  resolve_observer block =
      if not (tracing_is_on block)
      then ok none
      else elim (find entry_points observers (spec_of block).provider).0 [
        | some factory ↦ built (factory (spec_of block))
        | none ↦ if asked_for_provider block then raise capability_error else ok none
      ]
