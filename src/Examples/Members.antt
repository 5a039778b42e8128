-- ===== src/Examples/Members.antt =====
-- A team that is declared by its members.
use agent_ship.Prelude.{
  String, ◌≡◌, ◌≢◌, refl, ap, false, none, some, [], ◌∷◌, ◌==◌, elem, if◌then◌else◌, arith, inl,
  inr, Bool-cases,
}
use agent_ship.Errors.{ok, ◌>>=◌}
use agent_ship.Spec.{MemberSpec, AgentSpec}
use agent_ship.Examples.Authoring.{support}
use agent_ship.Supervisor.Nodes.{RouteEntry, classify, lookup_route}
use agent_ship.Supervisor.Derive.{
  to_self, derive_graph_config, label_of, derive_graph_config-routes, derive_graph_config-capital,
}

abbrev inline : String → MemberSpec
inline name = record {
  name = name;
  ref = none;
  description = none;
  prompt = none;
  model = none;
  a2a = none;
}

abbrev team : AgentSpec
team = record support { members = some (inline "triage" ∷ inline "Billing" ∷ []) }

derive_graph_config-routes_example :
    (derive_graph_config team >>= (λ cfg. lookup_route cfg (classify cfg "Billing")))
    ≡ ok (to_self "Billing")
derive_graph_config-routes_example = derive_graph_config-routes team "triage" "Billing" refl

abbrev lower : String → String
lower s = if s == "Billing" then "billing" else s

lower-lower : (s : String) → lower (lower s) ≡ lower s
lower-lower s = elim (Bool-cases (s == "Billing")) [ inl e ↦ rw e refl | inr e ↦ rw (e, e) refl ]

other_than : ◌≢◌ {A = String} "Billing" "triage"
other_than e = ground (arith, ap (λ s. s == "Billing") e)

capital : ◌≢◌ {A = String} (lower "Billing") "Billing"
capital e = ground (arith, ap (λ s. s == "Billing") e)

-- The model replies with the member's very name.
derive_graph_config-capital_example :
    (chosen : RouteEntry) × ((derive_graph_config team
        >>= (λ cfg. lookup_route cfg (classify cfg (label_of lower (some "Billing")))))
      ≡ ok chosen)
    × (elem "Billing" chosen.specialists ≡ false)
derive_graph_config-capital_example =
    derive_graph_config-capital lower lower-lower team "triage" "Billing" (some "Billing") refl
      other_than capital
