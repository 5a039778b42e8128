-- ===== src/Auth/Scopes.antt =====
-- auth/__init__.py: the scope grammar and `authorize`.
use Prim.Native.String.{◌++◌ as ◌<>◌}
use agent_ship.Prelude.{
  ℕ, String, Bool, true, false, List, [], ◌∷◌, ◌&&◌, ◌||◌, eqb, ◌==◌, if◌then◌else◌, any,
}
use agent_ship.Text.{split_at}
use agent_ship.Errors.{Result, ok, raise, auth_error}
use agent_ship.Auth.Caller.{Caller}

abbrev pub is_colon : ℕ → Bool
is_colon c = eqb c b':'

-- len(granted) == len(required) and all(g in ("*", r) for g, r in zip(granted, required))
unfoldable pub segments_match : List String → List String → Bool
segments_match [] [] = true
segments_match [] (r ∷ rs) = false
segments_match (g ∷ gs) [] = false
segments_match (g ∷ gs) (r ∷ rs) = (g == "*" || g == r) && segments_match gs rs

unfoldable pub scope_grants : String → String → Bool
unfolding split_at segments_match
scope_grants granted required =
    if granted == "*"
    then true
    else segments_match (split_at is_colon granted) (split_at is_colon required)

abbrev pub required_scope : String → String → String
required_scope agent verb = "agent:" <> (agent <> (":" <> verb))

unfoldable pub authorize : Caller → String → String → Result (Unit {0})
unfolding scope_grants
authorize caller agent verb =
    if any (λ scope. scope_grants scope (required_scope agent verb)) caller.scopes
    then ok tt
    else raise (auth_error "forbidden")
