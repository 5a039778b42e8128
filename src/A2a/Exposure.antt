-- ===== src/A2a/Exposure.antt =====
-- Who reaches an agent over the network.
use agent_ship.Prelude.{
  String, ◌≡◌, refl, sym, ap, subst, ◌∙◌, inl, inr, true, false, Option, none, some, List, [], ◌∷◌,
  ◌==◌, elem, if◌then◌else◌, All, any, length, arith, eq_iff, Option-cases, Bool-cases,
}
use agent_ship.Text.{split_at, lacks}
use agent_ship.Dict.{Dict, get, put, get-put}
use agent_ship.Errors.{Result, ok, raise, auth_error, >>=-eq-ok}
use agent_ship.Specialist.Values.{is_empty}
use agent_ship.Auth.Caller.{Caller}
use agent_ship.Auth.Scopes.{is_colon, segments_match, scope_grants, required_scope, authorize}
use agent_ship.Auth.Grants.{split-required_scope}
use agent_ship.Spec.{A2aOAuth2Spec, A2aExposeSpec, AgentSpec}
use agent_ship.Spec.Coherence.{validate}
use agent_ship.Spec.Validated.{validate-verdict}
use agent_ship.Engine.Build.{RunnableAgent}
use agent_ship.A2a.{JsonRpcRequest, JsonRpcResponse, WireMessage}
use agent_ship.A2a.Server.{StatusUpdate}
use agent_ship.A2a.Card.{
  SecurityScheme, security_scheme, schemes_of, AgentCard, build_agent_card, exposure, resolve_agent,
  exposed_or_404, agent_card, rpc,
}

get-schemes_of :
    (oauth2 : Option A2aOAuth2Spec) (names : List String) (schemes : Dict SecurityScheme)
    (name : String)
    → get (schemes_of oauth2 names schemes) name
      ≡ (if elem name names then some (security_scheme name oauth2) else get schemes name)
unfolding schemes_of
get-schemes_of oauth2 [] schemes name = refl
get-schemes_of oauth2 (n ∷ names) schemes name =
    get-schemes_of oauth2 names (put schemes n (security_scheme n oauth2)) name
    ∙ rw (get-put schemes n name (security_scheme n oauth2))
        (ground (arith, eq_iff n name, eq_iff name n))

three_of_four :
    (gs : List String) (a b c d : String)
    → length gs ≡ 3
    → segments_match gs (a ∷ b ∷ c ∷ d ∷ []) ≡ false
unfolding segments_match
three_of_four [] a b c d h = refl
three_of_four (x ∷ []) a b c d h = ground arith
three_of_four (x ∷ y ∷ []) a b c d h = ground arith
three_of_four (x ∷ y ∷ z ∷ []) a b c d h = ground arith
three_of_four (x ∷ y ∷ z ∷ w ∷ gs) a b c d h = absurd (omega (arith, h))

one_of_three : ¬ (length (split_at is_colon "*") ≡ 3)
unfolding split_at
one_of_three e = omega (arith, e)

not_star : (scope : String) → length (split_at is_colon scope) ≡ 3 → (scope == "*") ≡ false
not_star scope h = elim (Bool-cases (scope == "*")) [
  | inl e ↦
      let star : scope ≡ "*" = ground (arith, eq_iff scope "*", e) in
      absurd (one_of_three (ap (λ s. length (split_at is_colon s)) (sym star) ∙ h))
  | inr e ↦ e
]

three_grant_none :
    (scopes : List String) (name : String)
    → lacks is_colon name ≡ true
    → All (λ scope. length (split_at is_colon scope) ≡ 3) scopes
    → any (λ scope. scope_grants scope (required_scope name "a2a:invoke")) scopes ≡ false
unfolding scope_grants split_at
three_grant_none [] name hn hs = refl
three_grant_none (scope ∷ scopes) name hn (h, hs) =
    rw
      (
        not_star scope h,
        split-required_scope name "a2a:invoke" hn,
        three_grant_none scopes name hn hs,
      )
      (rw (three_of_four (split_at is_colon scope) "agent" name "a2a" "invoke" h) refl)

-- Of a spec that was validated, the exposure is closed.
validate-closed :
    (spec : AgentSpec) (a2a : A2aExposeSpec)
    → spec.a2a ≡ some a2a
    → a2a.expose ≡ true
    → validate spec ≡ ok tt
    → is_empty a2a.security ≡ false
validate-closed spec a2a has open_ h =
    let v = sym (validate-verdict spec) ∙ h in ground (arith, v, has, open_)

exposure-some :
    (spec : AgentSpec) {a2a : A2aExposeSpec}
    → exposure spec ≡ some a2a
    → (spec.a2a ≡ some a2a) × (a2a.expose ≡ true)
exposure-some spec {a2a} h = elim (Option-cases spec.a2a) [
  | inl e ↦ absurd (ground (arith, e))
  | inr (a, e) ↦ elim (Bool-cases a.expose) [
    | inl shown ↦
        let same : a ≡ a2a = ground (arith, e, shown) in
        subst (λ (v : A2aExposeSpec). (spec.a2a ≡ some v) × (v.expose ≡ true)) same (e, shown)
    | inr hidden ↦ absurd (ground (arith, e, hidden))
  ]
]

module _ {Authored Compiled : Type 0} where
  found-get :
      (agents : Dict (RunnableAgent Authored Compiled)) (name : String)
      {agent : RunnableAgent Authored Compiled}
      → resolve_agent agents name ≡ ok agent
      → get agents name ≡ some agent
  unfolding resolve_agent
  found-get agents name h = elim (Option-cases (get agents name)) [
    | inl e ↦ absurd (ground (arith, e))
    | inr (a, e) ↦ ground (arith, e)
  ]

  exposed-cases :
      (agents : Dict (RunnableAgent Authored Compiled)) (name : String)
      {found : RunnableAgent Authored Compiled × A2aExposeSpec}
      → exposed_or_404 agents name ≡ ok found
      → (get agents name ≡ some found.0)
        × (found.0.spec.a2a ≡ some found.1)
        × (found.1.expose ≡ true)
  unfolding exposed_or_404
  exposed-cases agents name {found} h =
      let (agent, h1, h2) = >>=-eq-ok (resolve_agent agents name) _ h in
      elim (Option-cases (exposure agent.spec)) [
        | inl e ↦ absurd (ground (arith, e))
        | inr (a2a, e) ↦
            let same : (agent, a2a) ≡ found = ground (arith, e) in
            let (has, shown) = exposure-some agent.spec e in
            subst
              (λ (f : RunnableAgent Authored Compiled × A2aExposeSpec).
                (get agents name ≡ some f.0) × (f.0.spec.a2a ≡ some f.1) × (f.1.expose ≡ true))
              same (found-get agents name h1, has, shown)
      ]

  -- A caller all of whose scopes have three segments, wildcards or not, never gets to an agent over A2A,
  -- if the agent's name has no colon: not even with a scope that is said to grant any verb on it.
  rpc_forbidden :
      (stream_rpc : RunnableAgent Authored Compiled → Caller → JsonRpcRequest → List StatusUpdate)
      (handle_rpc : RunnableAgent Authored Compiled
        → Caller
        → JsonRpcRequest
        → Result (JsonRpcResponse WireMessage))
      (agents : Dict (RunnableAgent Authored Compiled)) (caller : Caller) (name : String)
      (request : JsonRpcRequest)
      → lacks is_colon name ≡ true
      → All (λ scope. length (split_at is_colon scope) ≡ 3) caller.scopes
      → rpc stream_rpc handle_rpc agents caller name request ≡ raise (auth_error "forbidden")
  unfolding rpc authorize
  rpc_forbidden stream_rpc handle_rpc agents caller name request hn hs =
      rw (three_grant_none caller.scopes name hn hs) refl

  validated-get :
      (agents : Dict (RunnableAgent Authored Compiled)) (name : String)
      {agent : RunnableAgent Authored Compiled}
      → All (λ e. validate e.1.spec ≡ ok tt) agents
      → get agents name ≡ some agent
      → validate agent.spec ≡ ok tt
  unfolding get
  validated-get [] name v h = cc
  validated-get ((key, a) ∷ agents) name {agent} v h = elim (Bool-cases (key == name)) [
    | inl e ↦
        let same : a ≡ agent = ground (arith, e) in
        subst (λ (x : RunnableAgent Authored Compiled). validate x.spec ≡ ok tt) same v.0
    | inr e ↦ validated-get agents name {agent = agent} v.1 (ground (arith, e))
  ]

  -- If the specs of all agents were validated: a card is served only of an agent that is exposed; it
  -- requires at least one scheme, describes exactly the schemes that it requires, and claims to stream
  -- exactly if the agent's engine does.
  agent_card_honest :
      (agents : Dict (RunnableAgent Authored Compiled)) (base_url name : String) {card : AgentCard}
      → All (λ e. validate e.1.spec ≡ ok tt) agents
      → agent_card agents base_url name ≡ ok card
      → (agent : RunnableAgent Authored Compiled) × (a2a : A2aExposeSpec) × (get agents name
          ≡ some agent)
        × (agent.spec.a2a ≡ some a2a)
        × (a2a.expose ≡ true)
        × (card.capabilities.streaming ≡ agent.engine.capabilities.streaming)
        × (is_empty card.security ≡ false)
        × ((scheme : String)
            → get card.security_schemes scheme ≡ (
                if elem scheme card.security
                then some (security_scheme scheme a2a.oauth2)
                else none))
  unfolding agent_card exposed_or_404 resolve_agent build_agent_card
  agent_card_honest agents base_url name {card} validated h =
      let (found, h1, h2) = >>=-eq-ok (exposed_or_404 agents name) _ h in
      let (there, has, shown) = exposed-cases agents name h1 in
      let same : build_agent_card found.0.spec found.0.engine.capabilities base_url found.1.security
            found.1.oauth2
          ≡ card =
        cc h2 in
      (
        found.0,
        found.1,
        there,
        has,
        shown,
        ap (λ (c : AgentCard). c.capabilities.streaming) (sym same),
        ap (λ (c : AgentCard). is_empty c.security) (sym same)
            ∙ validate-closed found.0.spec found.1 has shown
                (validated-get agents name validated there),
        (λ scheme.
            subst
              (λ (c : AgentCard). get c.security_schemes scheme ≡ (
                if elem scheme c.security
                then some (security_scheme scheme found.1.oauth2)
                else none))
              same (get-schemes_of found.1.oauth2 found.1.security [] scheme)),
      )
