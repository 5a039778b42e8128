-- ===== src/Registry.antt =====
-- agentship/registry.py: providers by name, from code and from entry points.
pub mod Resolve
use agent_ship.Prelude.{
  String, Bool, true, false, Option, none, some, List, [], ◌∷◌, ◌==◌, if◌then◌else◌,
}
use agent_ship.Dict.{Dict, get, put}

-- An installed entry point: its name, and what `load` returns, or `none` where it raises.
pub record EntryPoint (T : Type 0) : Type 0 where
  pub name : String
  pub load : Option T

pub record Registry (T : Type 0) : Type 0 where
  pub providers : Dict T
  pub discovered : Bool

module _ {T : Type 0} where
  unfoldable pub register : Registry T → String → T → Registry T
  register r name provider = record r { providers = put r.providers name provider }

  -- The loop of `_discover`: a name that is there is skipped, and so is a plugin that does not load.
  unfoldable pub load_all : Dict T → List (EntryPoint T) → Dict T
  load_all providers [] = providers
  load_all providers (ep ∷ eps) =
      load_all
        (elim (get providers ep.name) [
          | some p ↦ providers
          | none ↦ elim ep.load [ none ↦ providers | some p ↦ put providers ep.name p ]
        ])
        eps

  module _ (entry_points : List (EntryPoint T)) where
    unfoldable pub discover : Registry T → Registry T
    unfolding load_all
    discover r =
        if r.discovered
        then r
        else record { providers = load_all r.providers entry_points; discovered = true }

    -- `get`, with the registry that it leaves
    unfoldable pub find : Registry T → String → Option T × Registry T
    unfolding discover
    find r name = elim (get r.providers name) [
      | some p ↦ (some p, r)
      | none ↦ let r' = discover r in (get r'.providers name, r')
    ]
