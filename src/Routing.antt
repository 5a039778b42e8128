-- ===== src/Routing.antt =====
-- primitives/model_router.py: which model a turn uses.
pub mod Precedence
use agent_ship.Prelude.{
  String, Bool, true, false, not, Option, none, some, List, [], ◌∷◌, ◌==◌, if◌then◌else◌, truthy,
}
use agent_ship.Errors.{Result, ok, raise, capability_error}

pub data Tier : Type 0 where
  cheap balanced strong : Tier

pub record TaskHint : Type 0 where
  pub tier : Option Tier
  pub model : Option String
  pub modality : Option String

pub record RouterTable : Type 0 where
  pub tiers : Tier → Option String
  pub default : Option String

-- TaskHint()
abbrev pub no_hint : TaskHint
no_hint = record { tier = none; model = none; modality = none }

-- The first text that is there and not empty decides; an `Option` that is false gives way.
abbrev or_next : Option String → Result String → Result String
or_next none rest = rest
or_next (some s) rest = if s == "" then rest else ok s

abbrev pub by_tier : RouterTable → Option Tier → Option String
by_tier table none = none
by_tier table (some tier) = table.tiers tier

-- LookupModelRouter.pick, for the spec's `model`
unfoldable pub pick : RouterTable → Option String → Option TaskHint → Result String
pick table spec_model task =
    let hint : TaskHint = elim task [ none ↦ no_hint | some h ↦ h ] in
    or_next hint.model (
      or_next (by_tier table hint.tier)
        (or_next spec_model (or_next table.default (raise capability_error))))

-- DefaultModelRouter.pick: spec.model or ""
unfoldable default_pick : Option String → Option TaskHint → Result String
default_pick none task = ok ""
default_pick (some s) task = ok s
