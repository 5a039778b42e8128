-- ===== src/Auth/Jwt/Claims.antt =====
-- What a token that is accepted has claimed, and which requests are left to other providers.
use agent_ship.Prelude.{
  String, ◌≡◌, refl, true, some, if◌then◌else◌, arith, Option-cases, Bool-cases, inl, inr,
}
use agent_ship.Json.{Json, Fields, at, is_true, to_text}
use agent_ship.Errors.{ok, >>=-eq-ok}
use agent_ship.Auth.Caller.{Caller, Headers}
use agent_ship.Auth.Providers.{extract_bearer}
use agent_ship.Auth.Jwt.{
  Decoded, claims, expired_signature, invalid_token, JwtConfig, claimed_scopes, caller_from,
  resolve_key, checked, jwt_authenticate, IsKeyOf,
}

module _ {Key : Type 0} (decode : String → Key → Decoded) (render : Json → String) where
  -- The caller that claims make, where they name a user.
  pub record ClaimedBy (config : JwtConfig Key) (payload : Fields) (caller : Caller) : Type 0 where
    pub names_user : is_true (at payload config.user_claim) ≡ true
    pub the_user : caller.user_id ≡ to_text render (at payload config.user_claim)
    pub the_tenant : caller.tenant_id ≡ (
        if is_true (at payload config.tenant_claim)
        then to_text render (at payload config.tenant_claim)
        else "default")
    pub the_scopes : caller.scopes ≡ claimed_scopes render (at payload config.scopes_claim)

  caller_from-ClaimedBy :
      (config : JwtConfig Key) (payload : Fields) {caller : Caller}
      → caller_from decode render config payload ≡ ok caller
      → ClaimedBy config payload caller
  unfolding caller_from
  caller_from-ClaimedBy config payload h =
      elim (Bool-cases (is_true (at payload config.user_claim))) [
        | inl e ↦ record {
          names_user = e;
          the_user = ground (arith, e);
          the_tenant = ground (arith, e);
          the_scopes = ground (arith, e);
        }
        | inr e ↦ absurd (ground (arith, e))
      ]

  checked-claims :
      (config : JwtConfig Key) (verdict : Decoded) {caller : Caller}
      → checked decode render config verdict ≡ ok caller
      → (payload : Fields) × (verdict ≡ claims payload) × ClaimedBy config payload caller
  unfolding checked
  checked-claims config (claims payload) h = (payload, refl, caller_from-ClaimedBy config payload h)
  checked-claims config expired_signature h = absurd (ground arith)
  checked-claims config invalid_token h = absurd (ground arith)

  resolve_key-IsKeyOf :
      (config : JwtConfig Key) (token : String) {key : Key}
      → resolve_key decode render config token ≡ ok key
      → IsKeyOf decode render config token key
  unfolding resolve_key
  resolve_key-IsKeyOf config token h = elim (Option-cases config.public_key) [
    | inr (given, e) ↦ rw e (ground (arith, e))
    | inl e ↦ elim (Option-cases config.jwks_client) [
      | inl none_given ↦ absurd (ground (arith, e, none_given))
      | inr (get_signing_key, e') ↦ rw e (elim (Option-cases (get_signing_key token)) [
        | inl unknown ↦ absurd (ground (arith, e, e', unknown))
        | inr (key, known) ↦ (get_signing_key, e', ground (arith, e, e', known))
      ])
    ]
  ]

  -- A request is accepted by its bearer token only if the library decodes that token with the configured
  -- key, or with the key that the key set has for it, to claims that name a user; the caller's user,
  -- tenant and scopes are then those of the claims, with the tenant `default` where they have none.
  pub jwt_authenticate_sound :
      (config : JwtConfig Key) (headers : Headers) {caller : Caller}
      → jwt_authenticate decode render config headers ≡ ok caller
      → (token : String) × (key : Key) × (payload : Fields) × (extract_bearer headers ≡ some token)
        × IsKeyOf decode render config token key
        × (decode token key ≡ claims payload)
        × ClaimedBy config payload caller
  unfolding jwt_authenticate
  jwt_authenticate_sound config headers h = elim (Option-cases (extract_bearer headers)) [
    | inl e ↦ absurd (ground (arith, e))
    | inr (token, e) ↦
        let (key, resolved, verified) =
          >>=-eq-ok (resolve_key decode render config token)
            (λ key. checked decode render config (decode token key)) (ground (arith, e)) in
        let (payload, decoded, by_claims) = checked-claims config (decode token key) verified in
        (token, key, payload, e, resolve_key-IsKeyOf config token resolved, decoded, by_claims)
  ]
