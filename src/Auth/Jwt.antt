-- ===== src/Auth/Jwt.antt =====
-- auth/jwt.py: a bearer token that a library validates. `Key` is whatever verifies a signature,
-- `decode` is jwt.decode with the provider's algorithms, audience and issuer, and `render` is str on
-- what is no text.
pub mod Claims
use agent_ship.Prelude.{
  String, ◌≡◌, ◌≢◌, refl, Bool, true, false, Option, none, some, List, [], ◌∷◌, not, ◌==◌, ◌&&◌,
  ◌||◌, if◌then◌else◌, arith, Option-cases, inl, inr,
}
use agent_ship.Text.{words}
use agent_ship.Json.{Json, Items, Fields, null, string, array, no_items, item, at, is_true, to_text}
use agent_ship.Errors.{Result, ok, raise, auth_error, other, ◌>>=◌, >>=-eq-ok}
use agent_ship.Auth.Caller.{Caller, Headers, AuthProvider}
use agent_ship.Auth.Providers.{extract_bearer}
use agent_ship.Auth.Composite.{falls_through}

-- What jwt.decode makes of a token: its claims, an ExpiredSignatureError, or another
-- InvalidTokenError.
pub data Decoded : Type 0 where
  claims : Fields → Decoded
  expired_signature invalid_token : Decoded

-- The arguments of the constructor that a request depends on; `jwks_client` is the client that is given
-- or made of the URL, `none` without either, and gives no key where it raises.
pub record JwtConfig (Key : Type 0) : Type 0 where
  pub public_key : Option Key
  pub jwks_client : Option (String → Option Key)
  pub user_claim : String
  pub tenant_claim : String
  pub scopes_claim : String

abbrev is_given : {A : Type 0} → Option A → Bool
is_given none = false
is_given (some a) = true

-- The constructor refuses no key source, and two, by a ValueError.
unfoldable pub jwt_provider : {Key : Type 0} → JwtConfig Key → Result (JwtConfig Key)
jwt_provider config =
    let has_static = is_given config.public_key in
    let has_jwks = is_given config.jwks_client in
    if (has_static && has_jwks) || (not has_static && not has_jwks) then raise other else ok config

-- str(part) for part in raw
abbrev pub texts : (Json → String) → Items → List String
texts render no_items = []
texts render (item part parts) = to_text render part ∷ texts render parts

-- _parse_scopes
unfoldable pub claimed_scopes : (Json → String) → Json → List String
claimed_scopes render (string raw) = words raw
claimed_scopes render (array parts) = texts render parts
claimed_scopes render _ = []

module _ {Key : Type 0} (decode : String → Key → Decoded) (render : Json → String) where
  -- _caller_from
  unfoldable pub caller_from : JwtConfig Key → Fields → Result Caller
  unfolding at claimed_scopes
  caller_from config payload =
      let user_id = at payload config.user_claim in
      let tenant_id = at payload config.tenant_claim in
      if not (is_true user_id)
      then raise (auth_error "invalid_token")
      else ok record {
        tenant_id = if is_true tenant_id then to_text render tenant_id else "default";
        user_id = to_text render user_id;
        scopes = claimed_scopes render (at payload config.scopes_claim);
        auth_method = some "jwt";
      }

  -- _resolve_key; without a key source its assertion fails
  unfoldable pub resolve_key : JwtConfig Key → String → Result Key
  resolve_key config token = elim config.public_key [
    | some key ↦ ok key
    | none ↦ elim config.jwks_client [
      | none ↦ raise other
      | some get_signing_key ↦ elim (get_signing_key token) [
        | none ↦ raise (auth_error "invalid_token")
        | some key ↦ ok key
      ]
    ]
  ]

  unfoldable pub checked : JwtConfig Key → Decoded → Result Caller
  unfolding caller_from
  checked config expired_signature = raise (auth_error "expired_token")
  checked config invalid_token = raise (auth_error "invalid_token")
  checked config (claims payload) = caller_from config payload

  unfoldable pub jwt_authenticate : JwtConfig Key → AuthProvider
  unfolding extract_bearer resolve_key checked
  jwt_authenticate config headers = elim (extract_bearer headers) [
    | none ↦ raise (auth_error "no_credentials")
    | some token ↦ resolve_key config token >>= (λ key. checked config (decode token key))
  ]

  -- The key by which a token is to be verified: the one that was given, or the one that the key set has
  -- for it.
  abbrev pub IsKeyOf : JwtConfig Key → String → Key → Type 0
  IsKeyOf config token key = elim config.public_key [
    | some given ↦ given ≡ key
    | none ↦
        (get_signing_key : String → Option Key) × (config.jwks_client ≡ some get_signing_key)
        × (get_signing_key token ≡ some key)
  ]
