-- ===== src/Examples/Access.antt =====
-- Requests that are authenticated and authorised.
use agent_ship.Prelude.{String, ◌≡◌, ◌≢◌, refl, ◌⊎◌, true, some, [], ◌∷◌, elem, if◌then◌else◌, any}
use agent_ship.Text.{lacks}
use agent_ship.Dict.{get, put}
use agent_ship.Errors.{ok, raise, auth_error}
use agent_ship.Auth.Caller.{Caller, Headers, AuthProvider}
use agent_ship.Auth.Scopes.{authorize}
use agent_ship.Auth.Grants.{covers, authorize-covers}
use agent_ship.Auth.Providers.{
  KeyEntry, caller_of, add_keys, extract_key, api_key_authenticate, ForwardedHeaders,
  forwarded_authenticate,
}
use agent_ship.Auth.Identity.{IsEntryOf, forwarded_authenticate_sound, api_key_authenticate_sound}
use agent_ship.Service.Gate.{http, lifespan, Scope, default_public_paths, serve}
use agent_ship.Service.Gate.Sound.{IsPublic, serve-open}

abbrev ann : Caller
ann = record {
  tenant_id = "acme";
  user_id = "ann";
  scopes = "agent:*:invoke" ∷ [];
  auth_method = some "api_key";
}

abbrev ann_key : KeyEntry
ann_key = record { key = "k1"; tenant = some "acme"; user = "ann"; scopes = "agent:*:invoke" ∷ [] }

abbrev plain : String → String
plain s = s

authorize-covers_example : authorize ann "desk" "invoke" ≡ (
    if any (λ scope. covers scope "desk" "invoke") ann.scopes
    then ok tt
    else raise (auth_error "forbidden"))
unfolding lacks
authorize-covers_example = authorize-covers ann "desk" "invoke" refl refl

abbrev with_key : Headers
with_key = ("x-api-key", "k1") ∷ []

api_key_authenticate_sound_example :
    (key : String) × (entry : KeyEntry) × IsEntryOf entry (ann_key ∷ [])
    × (extract_key with_key "x-api-key" ≡ some key)
    × (plain entry.key ≡ plain key)
    × (ann ≡ caller_of plain entry)
unfolding api_key_authenticate add_keys get put
api_key_authenticate_sound_example =
    api_key_authenticate_sound plain (ann_key ∷ []) "x-api-key" with_key refl

abbrev proxy : ForwardedHeaders
proxy = record {
  trusted = "gateway" ∷ [];
  forwarded_by_header = "x-forwarded-by";
  tenant_header = "x-tenant";
  user_header = "x-user";
  scopes_header = "x-scopes";
}

abbrev forwarded : Headers
forwarded = ("x-forwarded-by", "gateway") ∷ ("x-tenant", "acme") ∷ ("x-user", "ann") ∷ []

abbrev forwarded_ann : Caller
forwarded_ann = record {
  tenant_id = "acme";
  user_id = "ann";
  scopes = [];
  auth_method = some "forwarded";
}

forwarded_authenticate_sound_example :
    (source : String) × (get forwarded "x-forwarded-by" ≡ some source)
    × (elem source ("gateway" ∷ []) ≡ true)
    × (get forwarded "x-user" ≡ some "ann")
    × (forwarded_ann.user_id ≢ "")
    × (forwarded_ann.tenant_id ≢ "")
unfolding forwarded_authenticate get
forwarded_authenticate_sound_example =
    forwarded_authenticate_sound proxy forwarded {caller = forwarded_ann} refl

abbrev by_key : AuthProvider
by_key = api_key_authenticate plain (add_keys plain [] (ann_key ∷ [])) "x-api-key"

abbrev health_check : Scope
health_check = record {
  type = http;
  method = "GET";
  path = "/healthz";
  headers = [];
  subprotocols = [];
}

serve-open_example :
    ((health_check.type ≡ http) × IsPublic default_public_paths health_check)
    ⊎ (health_check.type ≡ lifespan)
unfolding serve
serve-open_example = serve-open by_key default_public_paths health_check refl
