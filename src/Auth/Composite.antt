-- ===== src/Auth/Composite.antt =====
-- auth/composite.py: providers tried in order of precedence.
use agent_ship.Prelude.{
  ◌≡◌, refl, Bool, true, false, List, [], ◌∷◌, ◌++◌, ◌==◌, if◌then◌else◌, All, all, Bool-cases, inl,
  inr,
}
use agent_ship.Errors.{Result, ok, raise, auth_error}
use agent_ship.Auth.Caller.{Caller, Headers, AuthProvider}

-- A provider that has nothing to authenticate raises this, and the next one is tried.
abbrev pub falls_through : Result Caller → Bool
falls_through (ok caller) = false
falls_through (raise (auth_error code)) = code == "no_credentials"
falls_through (raise _) = false

unfoldable pub composite_authenticate : List AuthProvider → AuthProvider
composite_authenticate [] headers = raise (auth_error "no_credentials")
composite_authenticate (provider ∷ providers) headers =
    let rest = composite_authenticate providers headers in
    if falls_through (provider headers) then rest else provider headers

-- The first provider that does not fall through decides, with a caller or with its own rejection:
-- those behind it are not asked.
pub composite_first_decides :
    (before : List AuthProvider) (provider : AuthProvider) (after : List AuthProvider)
    (headers : Headers)
    → All (λ p. falls_through (p headers) ≡ true) before
    → falls_through (provider headers) ≡ false
    → composite_authenticate (before ++ provider ∷ after) headers ≡ provider headers
unfolding composite_authenticate
composite_first_decides [] provider after headers b h = rw h
composite_first_decides (p ∷ before) provider after headers b h =
    rw b.0 (composite_first_decides before provider after headers b.1 h)

-- A composite itself falls through exactly if all its providers do, so that composites nest.
falls_through-composite :
    (providers : List AuthProvider) (headers : Headers)
    → falls_through (composite_authenticate providers headers)
      ≡ all (λ p. falls_through (p headers)) providers
unfolding composite_authenticate
falls_through-composite [] headers = refl
falls_through-composite (p ∷ providers) headers = elim (Bool-cases (falls_through (p headers))) [
  | inl e ↦ rw e (falls_through-composite providers headers)
  | inr e ↦ rw (e, e)
]
