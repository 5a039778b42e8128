-- ===== src/Auth/Grants.antt =====
-- What the scope grammar means for an agent and a verb.
use Prim.Native.String.{◌++◌ as ◌<>◌}
use text.Mathlib.TextLemmas.{append_assoc, nil-append, cons-append}
use agent_ship.Prelude.{
  String, ◌≡◌, refl, ap, ◌∙◌, Bool, true, false, List, [], ◌∷◌, ◌&&◌, ◌||◌, ◌==◌, if◌then◌else◌,
  any, arith,
}
use agent_ship.Text.{split_at, lacks, split_at-lacks, split_at-append}
use agent_ship.Errors.{ok, raise, auth_error}
use agent_ship.Auth.Caller.{Caller}
use agent_ship.Auth.Scopes.{is_colon, scope_grants, required_scope, authorize}

-- A scope covers a verb of an agent: it is `*`, or it has exactly the three segments of a scope, each
-- of which is `*` or `agent`, the agent's name and the verb in turn.
abbrev covers_segments : List String → String → String → Bool
covers_segments (a ∷ name ∷ v ∷ []) agent verb =
    (a == "*" || a == "agent") && (name == "*" || name == agent) && (v == "*" || v == verb)
covers_segments _ agent verb = false

abbrev pub covers : String → String → String → Bool
covers scope agent verb = scope == "*" || covers_segments (split_at is_colon scope) agent verb

colon-append : (t : String) → ":" <> t ≡ String.◌∷◌ ":" t
colon-append t = cons-append ":" "" t ∙ ap (String.◌∷◌ ":") (nil-append t)

-- The segments of the scope that is required, if the name has no colon: those of the verb stand last.
pub split-required_scope :
    (agent verb : String)
    → lacks is_colon agent ≡ true
    → split_at is_colon (required_scope agent verb) ≡ "agent" ∷ agent ∷ split_at is_colon verb
unfolding lacks
split-required_scope agent verb ha =
    ap (split_at is_colon)
      (append_assoc "agent" ":" (agent <> (":" <> verb)) ∙ ap (λ t. "agent" <> t) (colon-append _))
    ∙ split_at-append is_colon "agent" ":" (agent <> (":" <> verb)) refl refl
    ∙ ap (λ ps. "agent" ∷ ps)
        (ap (λ t. split_at is_colon (agent <> t)) (colon-append verb)
          ∙ split_at-append is_colon agent ":" verb ha refl)

scope_grants-covers :
    (scope agent verb : String)
    → lacks is_colon agent ≡ true
    → lacks is_colon verb ≡ true
    → scope_grants scope (required_scope agent verb) ≡ covers scope agent verb
unfolding scope_grants
scope_grants-covers scope agent verb ha hv =
    rw (split-required_scope agent verb ha, split_at-lacks is_colon verb hv) (ground arith)

any-scope_grants :
    (scopes : List String) (agent verb : String)
    → lacks is_colon agent ≡ true
    → lacks is_colon verb ≡ true
    → any (λ scope. scope_grants scope (required_scope agent verb)) scopes
      ≡ any (λ scope. covers scope agent verb) scopes
any-scope_grants [] agent verb ha hv = refl
any-scope_grants (s ∷ scopes) agent verb ha hv =
    rw (scope_grants-covers s agent verb ha hv, any-scope_grants scopes agent verb ha hv)

-- For an agent's name and a verb without a colon, `authorize` accepts a caller exactly if one of the
-- caller's scopes covers the verb of the agent, and otherwise raises `forbidden`.
pub authorize-covers :
    (caller : Caller) (agent verb : String)
    → lacks is_colon agent ≡ true
    → lacks is_colon verb ≡ true
    → authorize caller agent verb ≡ (
        if any (λ scope. covers scope agent verb) caller.scopes
        then ok tt
        else raise (auth_error "forbidden"))
unfolding authorize
authorize-covers caller agent verb ha hv = rw (any-scope_grants caller.scopes agent verb ha hv)
