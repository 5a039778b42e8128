-- ===== src/Service/Gate.antt =====
-- agentship_service/middleware/auth.py: every request is authenticated, then served as its caller.
pub mod Sound
use Prim.Native.String.{◌++◌ as ◌<>◌}
use text.Mathlib.Text.{find?}
use agent_ship.Prelude.{
  ℕ, String, Bool, true, false, Option, none, some, List, [], ◌∷◌, map, ◌&&◌, ◌||◌, not, ◌==◌,
  if◌then◌else◌, elem, any,
}
use agent_ship.Text.{strip}
use agent_ship.Dict.{Dict, get, put, keys}
use agent_ship.Errors.{Error, Result, ok, raise, auth_error}
use agent_ship.Auth.Caller.{Caller, Headers, AuthProvider}

-- An ASGI scope, as far as it is read. `lifespan` is any other type of scope.
pub data ScopeType : Type 0 where
  http websocket lifespan : ScopeType

pub record Scope : Type 0 where
  pub type : ScopeType
  pub method : String
  pub path : String
  pub headers : Headers
  pub subprotocols : List String

-- What becomes of a request: the app runs with no caller, or as a caller, or it does not run.
pub data Served : Type 0 where
  open_to_all : Served
  served_as : Caller → Served
  rejected : (status : ℕ) (code : String) → Served
  closed : (code : ℕ) → Served
  crashed : Error → Served

abbrev pub default_public_paths : List String
default_public_paths =
    "/" ∷ "/healthz" ∷ "/openapi.json" ∷ "/docs" ∷ "/redoc" ∷ "/studio" ∷ "/favicon.svg" ∷ []

-- sub in text
abbrev pub contains : String → String → Bool
contains sub text = elim (find? text sub) [ none ↦ false | some i ↦ true ]

unfoldable pub is_public : List String → Scope → Bool
is_public public_paths scope =
    scope.method == "OPTIONS" || elem scope.path public_paths || contains "/.well-known/" scope.path

-- A credential in the WebSocket subprotocol becomes a header, unless a header carries one.
promote : Headers → List String → Headers
unfolding keys strip
promote headers (bearer ∷ token ∷ rest) =
    if strip bearer == "bearer"
    then put headers "authorization" ("Bearer " <> strip token)
    else headers
promote headers _ = headers

unfoldable pub credential_from_subprotocol : Scope → Scope
unfolding promote keys
credential_from_subprotocol scope =
    if any (λ name. name == "authorization" || name == "x-api-key") (keys scope.headers)
    then scope
    else record scope { headers = promote scope.headers scope.subprotocols }

abbrev after_authentication : ScopeType → Result Caller → Served
after_authentication type (ok caller) = served_as caller
after_authentication websocket (raise (auth_error code)) = closed 4401
after_authentication type (raise (auth_error code)) =
    if code == "forbidden" then rejected 403 code else rejected 401 code
after_authentication type (raise error) = crashed error

module _ (auth : AuthProvider) (public_paths : List String) where
  unfoldable pub serve_type : ScopeType → Scope → Served
  unfolding credential_from_subprotocol
  serve_type lifespan scope = open_to_all
  serve_type websocket scope =
      after_authentication websocket (auth (credential_from_subprotocol scope).headers)
  serve_type http scope =
      if is_public public_paths scope
      then open_to_all
      else after_authentication http (auth scope.headers)

  unfoldable pub serve : Scope → Served
  unfolding serve_type is_public
  serve scope = serve_type scope.type scope
