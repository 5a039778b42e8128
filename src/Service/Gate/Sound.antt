-- ===== src/Service/Gate/Sound.antt =====
-- What middleware/auth.py serves, and as whom.
use Prim.Native.String.{◌++◌ as ◌<>◌}
use text.Mathlib.TextFind.{find_cases}
use text.Mathlib.Text.{is_le, when}
use Prim.Native.Nat.{compare as compare_ℕ}
use Prim.Native.Nat.compare
use Prim.Native.String.{find, len}
use mathlib.Core.Bool.{false≢true}
use agent_ship.Prelude.{
  ℕ, zero, suc, String, Bool, none, some, ◌≡◌, refl, sym, ap, ◌∙◌, ◌⊎◌, inl, inr, Bool-cases, true,
  false, List, arith, elem, ◌==◌, eq_iff, suc,
}
use agent_ship.Errors.{ok}
use agent_ship.Auth.Caller.{Caller, AuthProvider}
use agent_ship.Service.Gate.{
  contains, ScopeType, http, websocket, lifespan, Scope, open_to_all, served_as, is_public,
  credential_from_subprotocol, serve_type, serve,
}

-- What may be served to anyone over HTTP: a preflight, a path that is listed, and one with "/.well-known/"
-- in it.
pub data IsPublic (public_paths : List String) (scope : Scope) : Type 0 where
  preflight : scope.method ≡ "OPTIONS" → IsPublic public_paths scope
  listed : elem scope.path public_paths ≡ true → IsPublic public_paths scope
  well_known :
      (before after : String)
      → scope.path ≡ before <> ("/.well-known/" <> after)
      → IsPublic public_paths scope

not_beyond : (n : ℕ) → is_le (compare_ℕ (suc n) n) ≡ false
not_beyond zero = refl
not_beyond (suc n) = rw (compare.suc-suc (suc n) n) (not_beyond n)

when_found :
    (b : Bool) (n : ℕ)
    → elim (when b n) as (λ _. Bool) [ none ↦ false | some i ↦ true ] ≡ true
    → b ≡ true
when_found true n h = refl
when_found false n h = h

contains-parts :
    (sub text : String)
    → contains sub text ≡ true
    → (before : String) × (after : String) × (text ≡ before <> (sub <> after))
contains-parts sub text h = elim (find_cases text sub) [
  | inl (before, after, e, at) ↦ (before, after, e)
  | inr missing ↦ absurd (
      false≢true (
        sym (not_beyond (len text))
        ∙ ap (λ k. is_le (compare_ℕ k (len text))) (sym missing)
        ∙ when_found (is_le (compare_ℕ (find text sub) (len text))) (find text sub) h))
]

is_public-IsPublic :
    (public_paths : List String) (scope : Scope)
    → is_public public_paths scope ≡ true
    → IsPublic public_paths scope
unfolding is_public
is_public-IsPublic public_paths scope h = elim (Bool-cases (scope.method == "OPTIONS")) [
  | inl e ↦ preflight ((eq_iff scope.method "OPTIONS").0 e)
  | inr e ↦ elim (Bool-cases (elem scope.path public_paths)) [
    | inl e' ↦ listed e'
    | inr e' ↦
        let (before, after, parts) =
          contains-parts "/.well-known/" scope.path (ground (arith, e, e')) in
        well_known before after parts
  ]
]

-- The headers that the provider is shown.
abbrev shown_headers : ScopeType → Scope → Scope
shown_headers websocket scope = credential_from_subprotocol scope
shown_headers type scope = scope

module _ (auth : AuthProvider) (public_paths : List String) where
  serve_type-open :
      (type : ScopeType) (scope : Scope)
      → serve_type auth public_paths type scope ≡ open_to_all
      → ((type ≡ http) × (is_public public_paths scope ≡ true)) ⊎ (type ≡ lifespan)
  unfolding serve_type
  serve_type-open http scope h = ground (arith, Bool-cases (is_public public_paths scope))
  serve_type-open websocket scope h = ground arith
  serve_type-open lifespan scope h = inr refl

  serve_type-as :
      (type : ScopeType) (scope : Scope) {caller : Caller}
      → serve_type auth public_paths type scope ≡ served_as caller
      → auth (shown_headers type scope).headers ≡ ok caller
  unfolding serve_type
  serve_type-as http scope h = ground (arith, Bool-cases (is_public public_paths scope))
  serve_type-as websocket scope h = ground arith
  serve_type-as lifespan scope h = cc

  -- If the app runs with no caller, the scope is a preflight over HTTP, an HTTP request to a path that is
  -- listed as public or has "/.well-known/" in it, or neither HTTP nor a WebSocket.
  pub serve-open :
      (scope : Scope)
      → serve auth public_paths scope ≡ open_to_all
      → ((scope.type ≡ http) × IsPublic public_paths scope) ⊎ (scope.type ≡ lifespan)
  unfolding serve
  serve-open scope h = elim (serve_type-open scope.type scope h) [
    | inl (over_http, public) ↦ inl (over_http, is_public-IsPublic public_paths scope public)
    | inr other ↦ inr other
  ]

  -- If the app runs as a caller, that caller is the one that the provider authenticated from the
  -- request's headers, for a WebSocket with the credential of its subprotocol.
  serve-as :
      (scope : Scope) {caller : Caller}
      → serve auth public_paths scope ≡ served_as caller
      → auth (shown_headers scope.type scope).headers ≡ ok caller
  unfolding serve
  serve-as scope = serve_type-as scope.type scope
