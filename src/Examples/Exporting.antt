-- ===== src/Examples/Exporting.antt =====
-- A bearer token that is accepted, and tracer providers that are kept.
use agent_ship.Prelude.{
  ℕ, zero, suc, String, ◌≡◌, refl, Bool, true, false, none, some, List, [], ◌∷◌, if◌then◌else◌,
  ◌==◌,
}
use agent_ship.Dict.{Dict, get}
use agent_ship.Text.{strip, after_prefix, split_at}
use agent_ship.Json.{Json, Fields, string, no_fields, field, at}
use agent_ship.Errors.{raise, capability_error}
use agent_ship.Auth.Caller.{Caller}
use agent_ship.Auth.Providers.{extract_bearer}
use agent_ship.Auth.Jwt.{Decoded, claims, invalid_token, JwtConfig, jwt_authenticate, IsKeyOf}
use agent_ship.Auth.Jwt.Claims.{ClaimedBy, jwt_authenticate_sound}
use agent_ship.Observability.Exporters.{ObservabilityConfig, builders}
use agent_ship.Observability.Factory.{new_provider, build_tracer_provider}
use agent_ship.Observability.Factory.Kept.{
  after_all, build_tracer_provider-new_provider, kept_provider_passes_gate,
}

abbrev same_text : String → String
same_text s = s

abbrev unshown : Json → String
unshown value = ""

-- Only the token "t1" verifies, and only by the key 7.
abbrev decode : String → ℕ → Decoded
decode token zero = invalid_token
decode token (suc key) =
    if token == "t1"
    then claims (field "sub" (string "ann") (field "scope" (string "agent:*:invoke") no_fields))
    else invalid_token

abbrev by_token : JwtConfig ℕ
by_token = record {
  public_key = some 7;
  jwks_client = none;
  user_claim = "sub";
  tenant_claim = "tenant";
  scopes_claim = "scope";
}

abbrev bearer : Dict String
bearer = ("authorization", "Bearer t1") ∷ []

abbrev ann : Caller
ann = record {
  tenant_id = "default";
  user_id = "ann";
  scopes = "agent:*:invoke" ∷ [];
  auth_method = some "jwt";
}

jwt_authenticate_sound_example :
    (token : String) × (key : ℕ) × (payload : Fields) × (extract_bearer bearer ≡ some token)
    × IsKeyOf decode unshown by_token token key
    × (decode token key ≡ claims payload)
    × ClaimedBy decode unshown by_token payload ann
unfolding jwt_authenticate get strip after_prefix at split_at
jwt_authenticate_sound_example = jwt_authenticate_sound decode unshown by_token bearer refl

abbrev config : List String → Bool → ObservabilityConfig
config exporters allowed = record {
  enabled = true;
  provider = "otel";
  exporters = exporters;
  capture_content = false;
  hash_user_id = true;
  sample_ratio = 1000000;
  allow_saas_exporter = allowed;
}

build_tracer_provider-new_provider_example :
    (build_tracer_provider [] same_text
      (after_all [] same_text
        (config ("langsmith" ∷ []) false ∷ config ("console" ∷ []) false ∷ [])
        [])
      (config ("console" ∷ []) false)).0
    ≡ new_provider [] same_text (config ("console" ∷ []) false)
build_tracer_provider-new_provider_example =
    build_tracer_provider-new_provider [] same_text
      (config ("langsmith" ∷ []) false ∷ config ("console" ∷ []) false ∷ [])
      (config ("console" ∷ []) false) refl

kept_provider_passes_gate_example :
    (new_provider [] same_text (config ("langsmith" ∷ []) false) ≡ raise capability_error)
    × ((build_tracer_provider [] same_text
          (build_tracer_provider [] same_text [] (config ("langsmith" ∷ []) true)).1
          (config ("langsmith" ∷ []) false)).0
        ≡ (build_tracer_provider [] same_text [] (config ("langsmith" ∷ []) true)).0)
unfolding build_tracer_provider builders
kept_provider_passes_gate_example =
    kept_provider_passes_gate [] same_text [] (config ("langsmith" ∷ []) true)
      (config ("langsmith" ∷ []) false) refl refl refl refl refl
