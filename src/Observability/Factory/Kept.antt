-- ===== src/Observability/Factory/Kept.antt =====
-- What the provider that an agent gets has to do with the agent's own configuration.
use agent_ship.Prelude.{
  String, ◌≡◌, refl, sym, ◌∙◌, Bool, true, false, none, some, List, [], ◌∷◌, not, ◌&&◌, arith,
  eq_iff, All, Option-cases, Bool-cases, inl, inr, ◌⊎◌,
}
use agent_ship.Dict.{Dict}
use agent_ship.Errors.{Error, Result, ok, raise, capability_error, ◌>>=◌}
use agent_ship.Observability.Exporters.{ObservabilityConfig, uses_saas_exporter}
use agent_ship.Observability.Factory.{
  ProviderKey, TracerProvider, Providers, same_names, same_key, provider_at, resolved_exporters,
  provider_key, processors_of, new_provider, build_tracer_provider,
}

Result-cases :
    {A : Type 0} (result : Result A)
    → ((error : Error) × (result ≡ raise error)) ⊎ ((value : A) × (result ≡ ok value))
Result-cases (raise error) = inl (error, refl)
Result-cases (ok value) = inr (value, refl)

same_names-eq : (xs ys : List String) → same_names xs ys ≡ true → xs ≡ ys
unfolding same_names
same_names-eq [] [] h = refl
same_names-eq [] (y ∷ ys) h = absurd (ground arith)
same_names-eq (x ∷ xs) [] h = absurd (ground arith)
same_names-eq (x ∷ xs) (y ∷ ys) h =
    let both : (x ≡ y) × (same_names xs ys ≡ true) = ground (arith, eq_iff x y) in
    rw (both.0, same_names-eq xs ys both.1) refl

same_names_self : (xs : List String) → same_names xs xs ≡ true
unfolding same_names
same_names_self [] = refl
same_names_self (x ∷ xs) = ground (arith, eq_iff x x, same_names_self xs)

same_key-eq : (j k : ProviderKey) → same_key j k ≡ true → j ≡ k
unfolding same_key
same_key-eq j k h =
    let parts : (j.service_name ≡ k.service_name)
        × (same_names j.exporters k.exporters ≡ true)
        × (j.sample_ratio ≡ k.sample_ratio) =
      ground (arith, eq_iff j.service_name k.service_name) in
    let names = same_names-eq j.exporters k.exporters parts.1 in
    λ i. record { service_name = parts.0 i; exporters = names i; sample_ratio = parts.2 i }

same_key_self : (k : ProviderKey) → same_key k k ≡ true
unfolding same_key
same_key_self k = ground (arith, same_names_self k.exporters, eq_iff k.service_name k.service_name)

module _ (env : Dict String) (b64 : String → String) where
  -- The provider that a key stands for.
  unfoldable provider_for : ProviderKey → Result TracerProvider
  unfolding processors_of
  provider_for key = do
    processors ← processors_of env b64 key.exporters
    ok record {
      service_name = key.service_name;
      sample_ratio = key.sample_ratio;
      processors = processors;
    }

  abbrev AreSound : Providers → Type 0
  AreSound = All (λ kept. provider_for kept.0 ≡ ok kept.1)

  abbrev passes_gate : ObservabilityConfig → Bool
  passes_gate config = not (uses_saas_exporter config && not config.allow_saas_exporter)

  new_provider-passes :
      (config : ObservabilityConfig)
      → passes_gate config ≡ true
      → new_provider env b64 config ≡ provider_for (provider_key env b64 config)
  unfolding new_provider provider_for resolved_exporters
  new_provider-passes config h =
      let open_gate : (uses_saas_exporter config && not config.allow_saas_exporter) ≡ false =
        ground arith in
      rw open_gate refl

  provider_at_sound :
      (providers : Providers) (key : ProviderKey) {provider : TracerProvider}
      → AreSound providers
      → provider_at providers key ≡ some provider
      → provider_for key ≡ ok provider
  unfolding provider_at
  provider_at_sound [] key s h = absurd (ground arith)
  provider_at_sound ((k, kept) ∷ providers) key s h = elim (Bool-cases (same_key k key)) [
    | inl e ↦ rw (← same_key-eq k key e) (ground (arith, e, s.0))
    | inr e ↦ provider_at_sound providers key s.1 (ground (arith, e))
  ]

  new_provider-ok :
      (config : ObservabilityConfig) {provider : TracerProvider}
      → new_provider env b64 config ≡ ok provider
      → provider_for (provider_key env b64 config) ≡ ok provider
  unfolding new_provider resolved_exporters
  new_provider-ok config h = elim (Bool-cases (passes_gate config)) [
    | inl e ↦ sym (new_provider-passes config e) ∙ h
    | inr e ↦ absurd (ground (arith, e))
  ]

  build-raises :
      (providers : Providers) (config : ObservabilityConfig) {error : Error}
      → provider_at providers (provider_key env b64 config) ≡ none
      → new_provider env b64 config ≡ raise error
      → build_tracer_provider env b64 providers config ≡ (raise error, providers)
  unfolding build_tracer_provider
  build-raises providers config e n = ground (arith, e, n)

  build-adds :
      (providers : Providers) (config : ObservabilityConfig) {provider : TracerProvider}
      → provider_at providers (provider_key env b64 config) ≡ none
      → new_provider env b64 config ≡ ok provider
      → build_tracer_provider env b64 providers config
        ≡ (ok provider, (provider_key env b64 config, provider) ∷ providers)
  unfolding build_tracer_provider
  build-adds providers config e n = ground (arith, e, n)

  build_tracer_provider_sound :
      (providers : Providers) (config : ObservabilityConfig)
      → AreSound providers
      → AreSound (build_tracer_provider env b64 providers config).1
  unfolding build_tracer_provider
  build_tracer_provider_sound providers config s =
      elim (Option-cases (provider_at providers (provider_key env b64 config))) [
        | inr (kept, e) ↦ rw (build_tracer_provider, e) s
        | inl e ↦ elim (Result-cases (new_provider env b64 config)) [
          | inl (error, n) ↦ rw (build-raises providers config e n) s
          | inr (provider, n) ↦ rw (build-adds providers config e n) (new_provider-ok config n, s)
        ]
      ]

  -- The providers that are kept after these configurations, in order.
  unfoldable pub after_all : List ObservabilityConfig → Providers → Providers
  unfolding build_tracer_provider
  after_all [] providers = providers
  after_all (config ∷ configs) providers =
      after_all configs (build_tracer_provider env b64 providers config).1

  after_all_sound :
      (configs : List ObservabilityConfig) (providers : Providers)
      → AreSound providers
      → AreSound (after_all configs providers)
  unfolding after_all
  after_all_sound [] providers s = s
  after_all_sound (config ∷ configs) providers s =
      after_all_sound configs (build_tracer_provider env b64 providers config).1
        (build_tracer_provider_sound providers config s)

  -- Whatever was built before in the process, a configuration that the gate lets through gets the
  -- provider that it would get in a new process, with its own exporters, sampling and service name.
  pub build_tracer_provider-new_provider :
      (earlier : List ObservabilityConfig) (config : ObservabilityConfig)
      → not (uses_saas_exporter config && not config.allow_saas_exporter) ≡ true
      → (build_tracer_provider env b64 (after_all earlier []) config).0
        ≡ new_provider env b64 config
  unfolding build_tracer_provider
  build_tracer_provider-new_provider earlier config h =
      let key = provider_key env b64 config in
      elim (Option-cases (provider_at (after_all earlier []) key)) [
        | inr (kept, e) ↦
            rw (build_tracer_provider, e)
              (sym (provider_at_sound (after_all earlier []) key (after_all_sound earlier [] tt) e)
                ∙ sym (new_provider-passes config h))
        | inl e ↦ elim (Result-cases (new_provider env b64 config)) [
          | inl (error, n) ↦ rw (build-raises (after_all earlier []) config e n, n) refl
          | inr (provider, n) ↦ rw (build-adds (after_all earlier []) config e n, n) refl
        ]
      ]

  built-is_kept :
      (providers : Providers) (config : ObservabilityConfig) {provider : TracerProvider}
      → (build_tracer_provider env b64 providers config).0 ≡ ok provider
      → provider_at (build_tracer_provider env b64 providers config).1 (provider_key env b64 config)
        ≡ some provider
  unfolding build_tracer_provider provider_at
  built-is_kept providers config b =
      let key = provider_key env b64 config in
      elim (Option-cases (provider_at providers key)) [
        | inr (kept, e) ↦ ground (arith, e)
        | inl e ↦ elim (Result-cases (new_provider env b64 config)) [
          | inl (error, n) ↦ absurd (ground (arith, e, n))
          | inr (provider, n) ↦ ground (arith, e, n, same_key_self key)
        ]
      ]

  kept-is_built :
      (providers : Providers) (config : ObservabilityConfig) {provider : TracerProvider}
      → provider_at providers (provider_key env b64 config) ≡ some provider
      → (build_tracer_provider env b64 providers config).0 ≡ ok provider
  unfolding build_tracer_provider
  kept-is_built providers config e = ground (arith, e)

  -- A configuration with the SaaS exporter that does not allow it is refused in a new process; but after
  -- one with the same exporters and sampling got a provider, it gets that provider too.
  pub kept_provider_passes_gate :
      (providers : Providers) (first later : ObservabilityConfig) {provider : TracerProvider}
      → (build_tracer_provider env b64 providers first).0 ≡ ok provider
      → first.exporters ≡ later.exporters
      → first.sample_ratio ≡ later.sample_ratio
      → uses_saas_exporter later ≡ true
      → later.allow_saas_exporter ≡ false
      → (new_provider env b64 later ≡ raise capability_error)
        × ((build_tracer_provider env b64 (build_tracer_provider env b64 providers first).1 later).0
            ≡ ok provider)
  unfolding new_provider resolved_exporters build_tracer_provider
  kept_provider_passes_gate providers first later b names ratio saas shut =
      let same_key : provider_key env b64 first ≡ provider_key env b64 later = λ i. record {
        service_name = (provider_key env b64 first).service_name;
        exporters = names i;
        sample_ratio = ratio i;
      } in
      (
        rw (saas, shut) refl,
        kept-is_built (build_tracer_provider env b64 providers first).1 later
            (rw (← same_key) (built-is_kept providers first b)),
      )
