-- ===== src/Auth/Caller.antt =====
-- context.py: the authenticated caller; and what a provider reads of a request, its headers.
use agent_ship.Prelude.{String, Option, List}
use agent_ship.Dict.{Dict}
use agent_ship.Errors.{Result}

-- `scopes` is a frozenset: only membership and `any` are asked of it.
pub record Caller : Type 0 where
  pub tenant_id : String
  pub user_id : String
  pub scopes : List String
  pub auth_method : Option String

-- Header names in lower case: the framework's mapping ignores case.
abbrev pub Headers : Type 0
Headers = Dict String

-- A provider turns a request's headers into a caller, or raises.
abbrev pub AuthProvider : Type 0
AuthProvider = Headers → Result Caller
