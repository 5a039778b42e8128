-- ===== src/A2a/Resolver.antt =====
-- a2a/models.py, resolver.py and specialist.py: a reference becomes a specialist in the process or
-- over the network.
use agent_ship.Prelude.{String, Bool, true, false, Option, none, some, if◌then◌else◌}
use agent_ship.Dict.{Dict, get}
use agent_ship.Errors.{Result, ok, raise, capability_error}
use agent_ship.Spec.Coherence.{is_some}
use agent_ship.A2a.{RemoteSpec}
use agent_ship.A2a.Client.{OutboundAuth, build_outbound_auth}

pub record AgentRef : Type 0 where
  pub name : String
  pub local_ref : Option String
  pub remote : Option RemoteSpec

abbrev same : Bool → Bool → Bool
same true b = b
same false true = false
same false false = true

-- AgentRef(…), with its model_post_init
unfoldable agent_ref : AgentRef → Result AgentRef
agent_ref ref =
    if same (is_some ref.local_ref) (is_some ref.remote) then raise capability_error else ok ref

-- What a reference resolves to: a local agent, or a client of the remote one with its credential.
pub data Specialist (Agent : Type 0) : Type 0 where
  local : (name : String) (agent : Agent) → Specialist Agent
  networked : (name : String) (remote : RemoteSpec) (auth : OutboundAuth) → Specialist Agent

module _ {Agent : Type 0} where
  abbrev local_or_raise : String → Option Agent → Result (Specialist Agent)
  local_or_raise name none = raise capability_error
  local_or_raise name (some agent) = ok (local name agent)

  abbrev networked_by : String → RemoteSpec → Result OutboundAuth → Result (Specialist Agent)
  networked_by name remote (raise error) = raise error
  networked_by name remote (ok auth) = ok (networked name remote auth)

  -- registry.get(ref.local_ref), where None is no key
  abbrev registered : Dict Agent → Option String → Option Agent
  registered registry none = none
  registered registry (some key) = get registry key

  -- `SpecialistResolver.resolve`
  unfoldable pub resolve : Dict Agent → AgentRef → Result (Specialist Agent)
  unfolding get build_outbound_auth
  resolve registry ref = elim ref.remote [
    | some remote ↦ networked_by ref.name remote (build_outbound_auth remote.auth)
    | none ↦ local_or_raise ref.name (registered registry ref.local_ref)
  ]
