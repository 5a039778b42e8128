-- ===== src/Supervisor/Derive.antt =====
-- `derive_graph_config`: the supervisor of a team that is declared by its members alone.
use agent_ship.Prelude.{
  String, ◌≡◌, ◌≢◌, refl, sym, ap, ◌∙◌, inl, inr, true, false, not, Option, none, some, List, [],
  ◌∷◌, map, ◌&&◌, ◌==◌, if◌then◌else◌, elem, arith, eq_iff, Bool-cases,
}
use agent_ship.Text.{strip}
use agent_ship.Dict.{Dict, get, put, get-put, get-put_self}
use agent_ship.Errors.{Result, ok, raise, other, ◌>>=◌}
use agent_ship.Specialist.Dispatch.{single}
use agent_ship.Specialist.Conflict.{first_by_priority}
use agent_ship.Spec.{AgentSpec}
use agent_ship.Spec.Coherence.{or_nil}
use agent_ship.Supervisor.Nodes.{RouteEntry, GraphConfig, classify, default_route, lookup_route}

abbrev pub to_self : String → RouteEntry
to_self name = record { specialists = name ∷ []; strategy = single }

-- {m.name: RouteEntry([m.name], "single") for m in members}, onto what is there
unfoldable route_members : List String → Dict RouteEntry → Dict RouteEntry
route_members [] routing = routing
route_members (name ∷ names) routing = route_members names (put routing name (to_self name))

-- _require_default_route; a ValidationError is no AgentShipError
unfoldable require_default_route : GraphConfig → Result GraphConfig
require_default_route cfg = elim (get cfg.routing "_default") [
  | none ↦ raise other
  | some entry ↦ ok cfg
]

-- names[0], an IndexError where there is none
abbrev first_name : List String → Result String
first_name [] = raise other
first_name (name ∷ names) = ok name

abbrev names_of : AgentSpec → List String
names_of spec = map (λ m. m.name) (or_nil spec.members)

unfoldable pub derive_graph_config : AgentSpec → Result GraphConfig
unfolding put route_members require_default_route
derive_graph_config spec = do
  first ← first_name (names_of spec)
  require_default_route (record {
    intents = names_of spec;
    routing = put (route_members (names_of spec) []) "_default" (to_self first);
    conflict_resolver = record { priority = names_of spec; on_tie = first_by_priority };
    retry = record { max_attempts = 3; on = "timeout" ∷ "specialist_error" ∷ [] };
    confirm_before_write = false;
  })

-- (reply.content or "").strip().lower()
unfoldable pub label_of : (String → String) → Option String → String
unfolding strip
label_of lower none = lower (strip "")
label_of lower (some content) = lower (strip content)

get-route_members :
    (names : List String) (routing : Dict RouteEntry) (name : String)
    → get (route_members names routing) name
      ≡ (if elem name names then some (to_self name) else get routing name)
unfolding route_members
get-route_members [] routing name = refl
get-route_members (n ∷ names) routing name =
    get-route_members names (put routing n (to_self n)) name
    ∙ rw (get-put routing n name (to_self n)) (ground (arith, eq_iff n name, eq_iff name n))

abbrev derived : List String → String → GraphConfig
derived names first = record {
  intents = names;
  routing = put (route_members names []) "_default" (to_self first);
  conflict_resolver = record { priority = names; on_tie = first_by_priority };
  retry = record { max_attempts = 3; on = "timeout" ∷ "specialist_error" ∷ [] };
  confirm_before_write = false;
}

-- The member that a label is for: the one of that name, or else the first.
abbrev member_for : List String → String → String → String
member_for names first label =
    if elem label names && not (label == "_default") then label else first

module _ (names : List String) (first label : String) where
  abbrev routing : Dict RouteEntry
  routing = put (route_members names []) "_default" (to_self first)

  default_entry : get routing "_default" ≡ some (to_self first)
  default_entry = get-put_self (route_members names []) "_default" (to_self first)

  entry :
      elem label names ≡ true → get routing label ≡ some (to_self (member_for names first label))
  entry h =
      get-put (route_members names []) "_default" label (to_self first)
      ∙ rw (get-route_members names [] label, h)
          (ground (arith, eq_iff "_default" label, eq_iff label "_default"))

  abbrev cfg : GraphConfig
  cfg = derived names first

  defaults : default_route cfg ≡ ok (to_self first)
  unfolding default_route
  defaults = rw (default_route, default_entry) refl

  accepted : require_default_route cfg ≡ ok cfg
  unfolding require_default_route
  accepted = rw (require_default_route, default_entry) refl

  looked_up : lookup_route cfg (classify cfg label) ≡ ok (to_self (member_for names first label))
  unfolding lookup_route classify
  looked_up = elim (Bool-cases (elem label names)) [
    | inl e ↦
        ap (λ b. lookup_route cfg (if b then some label else none)) e
        ∙ rw (lookup_route, entry e) refl
    | inr e ↦ ap (λ b. lookup_route cfg (if b then some label else none)) e ∙ defaults ∙ rw e refl
  ]

  routes :
      (require_default_route cfg >>= (λ cfg. lookup_route cfg (classify cfg label)))
      ≡ ok (to_self (member_for names first label))
  routes = ap (λ r. r >>= (λ cfg. lookup_route cfg (classify cfg label))) accepted ∙ looked_up

-- A team that is declared by its members alone routes each label to one specialist: to the member of
-- that name, or, for any other label and for `_default`, to the first member.
pub derive_graph_config-routes :
    (spec : AgentSpec) (first : String) (label : String)
    → first_name (names_of spec) ≡ ok first
    → (derive_graph_config spec >>= (λ cfg. lookup_route cfg (classify cfg label)))
      ≡ ok (to_self (member_for (names_of spec) first label))
unfolding derive_graph_config
derive_graph_config-routes spec first label h =
    ap
      (λ r.
        (r >>= (λ f. require_default_route (derived (names_of spec) f)))
        >>= (λ cfg. lookup_route cfg (classify cfg label)))
      h
    ∙ routes (names_of spec) first label

label_of-lower :
    (lower : String → String)
    → ((s : String) → lower (lower s) ≡ lower s)
    → (reply : Option String) → lower (label_of lower reply) ≡ label_of lower reply
unfolding label_of
label_of-lower lower idem none = idem (strip "")
label_of-lower lower idem (some content) = idem (strip content)

not_equal : (a b : String) → a ≢ b → (a == b) ≡ false
not_equal a b h = elim (Bool-cases (a == b)) [
  | inl e ↦ absurd (h (ground (arith, eq_iff a b, e)))
  | inr e ↦ e
]

not_member_for :
    (names : List String) (first label name : String)
    → name ≢ first
    → name ≢ label
    → (name == member_for names first label) ≡ false
not_member_for names first label name hf hl =
    elim (Bool-cases (elem label names && not (label == "_default"))) [
      | inl e ↦ rw e (not_equal name label hl)
      | inr e ↦ rw e (not_equal name first hf)
    ]

-- A member other than the first gets no request at all if its name has a capital: whatever the model
-- replies, the label is in lower case, and the member's name is not. `lower` gives lower case, which is
-- its own lower case.
pub derive_graph_config-capital :
    (lower : String → String)
    → ((s : String) → lower (lower s) ≡ lower s)
    → (spec : AgentSpec) (first name : String) (reply : Option String)
    → first_name (names_of spec) ≡ ok first
    → name ≢ first
    → lower name ≢ name
    → (chosen : RouteEntry) × ((derive_graph_config spec
          >>= (λ cfg. lookup_route cfg (classify cfg (label_of lower reply))))
        ≡ ok chosen)
      × (elem name chosen.specialists ≡ false)
derive_graph_config-capital lower idem spec first name reply h other_than capital = (
  to_self (member_for (names_of spec) first (label_of lower reply)),
  derive_graph_config-routes spec first (label_of lower reply) h,
  rw
      (not_member_for (names_of spec) first (label_of lower reply) name other_than
        (λ e. capital (ap lower e ∙ label_of-lower lower idem reply ∙ sym e)))
      refl,
)
