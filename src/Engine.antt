-- ===== src/Engine.antt =====
-- agentship/engines/base.py: what an engine declares, and the check of a spec against it.
pub mod Gate
pub mod Build
use agent_ship.Prelude.{
  String, Bool, true, false, Option, none, some, List, [], ◌∷◌, ◌&&◌, ◌||◌, not, eqb, ℕ, ◌==◌, elem,
  truthy, if◌then◌else◌,
}
use agent_ship.Text.{is_slash, lacks, split_at}
use agent_ship.Errors.{Result, ok, raise, capability_error, ◌>>◌}
use agent_ship.Specialist.Values.{is_empty}
use agent_ship.Spec.{AgentSpec, Durability, not_durable, checkpoint, workflow}

pub data Hitl : Type 0 where
  no_hitl interrupt deferred_tool : Hitl

pub data StructuredOutput : Type 0 where
  unstructured native assisted : StructuredOutput

pub record EngineCapabilities : Type 0 where
  pub providers : List String
  pub streaming : Bool
  pub tool_calling : Bool
  pub hitl : Hitl
  pub durability : Durability
  pub cycles : Bool
  pub structured_output : StructuredOutput
  pub multimodal_in : List String
  pub live_bidi : Bool
  pub multi_agent : Bool

-- if unmet: raise CapabilityError(…)
abbrev pub lacking_if : Bool → Result (Unit {0})
lacking_if unmet = if unmet then raise capability_error else ok tt

-- bool(xs) for `xs: list | dict | None`
abbrev pub has_items {ℓ} : {A : Type ℓ} → Option (List A) → Bool
has_items none = false
has_items (some xs) = not (is_empty xs)

abbrev pub same_durability : Durability → Durability → Bool
same_durability not_durable not_durable = true
same_durability checkpoint checkpoint = true
same_durability workflow workflow = true
same_durability _ _ = false

abbrev pub is_unstructured : StructuredOutput → Bool
is_unstructured unstructured = true
is_unstructured _ = false

abbrev pub first_of : List String → String
first_of [] = ""
first_of (piece ∷ pieces) = piece

-- `lower` is str.lower
module _ (lower : String → String) where
  -- model.split("/", 1)[0].lower()
  abbrev pub provider_of : String → String
  provider_of model = lower (first_of (split_at is_slash model))

  abbrev pub reaches : List String → String → Bool
  reaches providers model =
      is_empty providers
      || model == ""
      || lacks is_slash model
      || elem (provider_of model) providers

  -- _assert_provider_supported
  unfoldable pub assert_provider_supported : EngineCapabilities → AgentSpec → Result (Unit {0})
  unfolding split_at lacks
  assert_provider_supported caps spec = elim spec.model [
    | none ↦ ok tt
    | some model ↦ lacking_if (not (reaches caps.providers model))
  ]

  unfoldable pub assert_supports_spec : EngineCapabilities → AgentSpec → Result (Unit {0})
  unfolding assert_provider_supported
  assert_supports_spec caps spec =
      lacking_if (spec.streaming && not caps.streaming)
      >> lacking_if (truthy spec.output_schema && is_unstructured caps.structured_output)
      >> lacking_if (has_items spec.members && not caps.multi_agent)
      >> lacking_if ((has_items spec.tools || has_items spec.mcp) && not caps.tool_calling)
      >> lacking_if (
          not (same_durability spec.durability not_durable)
          && not (same_durability spec.durability caps.durability))
      >> assert_provider_supported caps spec
