-- ===== src/A2a/Credentials.antt =====
-- The headers of an outbound call, of a2a/security.py.
use Prim.Native.String.{◌++◌ as ◌<>◌}
use agent_ship.Prelude.{
  String, ◌≡◌, refl, sym, ap, ◌∙◌, ◌⊎◌, inl, inr, false, Option, none, some, [], ◌∷◌, ◌==◌, arith,
  Option-cases, Bool-cases,
}
use agent_ship.Dict.{Dict, get, put, get-put, get-put_self}
use agent_ship.Errors.{Result, ok, ◌>>=◌, >>=-eq-ok}
use agent_ship.Spec.{A2aAuthType, no_auth, bearer, oauth2, mtls}
use agent_ship.Context.{RunContext}
use agent_ship.A2a.{A2aAuthConfig, RemoteSpec}
use agent_ship.A2a.Client.{
  bearer_env, build_outbound_auth, auth_headers, merged, propagation_headers, request_headers,
}

-- The credential that a configuration stands for: none where it asks for none, else a token of an
-- environment variable that it names.
abbrev pub IsCredential : (String → Option String) → A2aAuthConfig → Dict String → Type 0
IsCredential environ config headers =
    ((config.type ≡ no_auth) × (get headers "Authorization" ≡ none))
    ⊎ ((config.type ≡ bearer)
        × ((variable : String) × (token : String) × (config.token_env ≡ some variable)
            × (environ variable ≡ some token)
            × ((token == "") ≡ false)
            × (get headers "Authorization" ≡ some ("Bearer " <> token))))

-- The one header of a credential.
abbrev bearer_header : String → Dict String
bearer_header token = ("Authorization", "Bearer " <> token) ∷ []

abbrev Token : (String → Option String) → A2aAuthConfig → Dict String → Type 0
Token environ config credential =
    (variable : String) × (token : String) × (config.token_env ≡ some variable)
    × (environ variable ≡ some token)
    × ((token == "") ≡ false)
    × (credential ≡ bearer_header token)

module _ (environ : String → Option String) (hex : String → String) where
  bearer-Token :
      (variable : String) {credential : Dict String}
      → auth_headers environ hex (bearer_env variable) ≡ ok credential
      → Token environ (record { type = bearer; token_env = some variable }) credential
  unfolding auth_headers
  bearer-Token variable {credential} h = elim (Option-cases (environ variable)) [
    | inl e ↦ absurd (ground (arith, e))
    | inr (token, e) ↦ elim (Bool-cases (token == "")) [
      | inl blank ↦ absurd (ground (arith, e, blank))
      | inr full ↦
          let same : Path (Result (Dict String)) (ok credential) (ok (bearer_header token)) =
            sym h ∙ rw (auth_headers, e, full) refl in
          (variable, token, refl, e, full, cc same)
    ]
  ]

  -- A credential is what the configuration asks for.
  credential-cases :
      (type : A2aAuthType) (token_env : Option String) {credential : Dict String}
      → (build_outbound_auth (record { type = type; token_env = token_env })
          >>= auth_headers environ hex)
        ≡ ok credential
      → ((type ≡ no_auth) × (credential ≡ []))
        ⊎ ((type ≡ bearer)
            × Token environ (record { type = type; token_env = token_env }) credential)
  unfolding build_outbound_auth auth_headers
  credential-cases no_auth token_env h = inl (refl, cc)
  credential-cases bearer none h = cc
  credential-cases bearer (some variable) h = elim (Bool-cases (variable == "")) [
    | inl blank ↦ absurd (ground (arith, blank))
    | inr full ↦ inr (refl, bearer-Token variable (rw full at h))
  ]
  credential-cases oauth2 token_env h = cc
  credential-cases mtls token_env h = cc

  -- Neither the tenant's header nor the trace's is a credential.
  propagation-Authorization :
      (ctx : RunContext) → get (propagation_headers environ hex ctx) "Authorization" ≡ none
  unfolding propagation_headers get
  propagation-Authorization ctx = elim (Option-cases ctx.trace_id) [
    | inl e ↦ rw e refl
    | inr (trace_id, e) ↦ elim (Bool-cases (trace_id == "")) [
      | inl blank ↦ rw (e, blank) refl
      | inr full ↦ rw (e, full) refl
    ]
  ]

  -- A call that is sent carries the tenant of the turn, and the credential that its configuration asks
  -- for: a bearer's token is the value, which is not empty, of the environment variable that is named;
  -- no scheme but `none` is sent without.
  pub request_headers_authenticated :
      (remote : RemoteSpec) (ctx : RunContext) {headers : Dict String}
      → request_headers environ hex remote ctx ≡ ok headers
      → IsCredential environ remote.auth headers
        × (get headers "X-AgentShip-Tenant" ≡ some ctx.caller.tenant_id)
  unfolding request_headers merged propagation_headers put get
  request_headers_authenticated remote ctx {headers} h =
      let (auth, h1, h2) = >>=-eq-ok (build_outbound_auth remote.auth) _ h in
      let (credential, h3, h4) = >>=-eq-ok (auth_headers environ hex auth) _ h2 in
      let sent : merged (propagation_headers environ hex ctx) credential ≡ headers = cc h4 in
      elim (credential-cases remote.auth.type remote.auth.token_env {credential = credential}
        (ap (λ r. r >>= auth_headers environ hex) h1 ∙ h3)) [
          | inl (t, e) ↦
              let same : propagation_headers environ hex ctx ≡ headers =
                ap (merged (propagation_headers environ hex ctx)) (sym e) ∙ sent in
              (
                inl (t, ap (λ d. get d "Authorization") (sym same) ∙ propagation-Authorization ctx),
                ap (λ d. get d "X-AgentShip-Tenant") (sym same),
              )
          | inr (t, (variable, token, named, read, full, e)) ↦
              let same : put (propagation_headers environ hex ctx) "Authorization"
                    ("Bearer " <> token)
                  ≡ headers =
                ap (merged (propagation_headers environ hex ctx)) (sym e) ∙ sent in
              (
                inr (
                  t,
                  (
                    variable,
                    token,
                    named,
                    read,
                    full,
                    ap (λ d. get d "Authorization") (sym same)
                        ∙ get-put_self (propagation_headers environ hex ctx) "Authorization"
                            ("Bearer " <> token),
                  ),
                ),
                ap (λ d. get d "X-AgentShip-Tenant") (sym same)
                    ∙ get-put (propagation_headers environ hex ctx) "Authorization"
                        "X-AgentShip-Tenant" ("Bearer " <> token),
              )
        ]
