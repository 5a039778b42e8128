-- ===== src/Auth/Providers.antt =====
-- auth/api_key.py and auth/forwarded.py: two ways to prove an identity.
use agent_ship.Prelude.{
  ℕ, String, Bool, Option, none, some, List, [], ◌∷◌, ◌||◌, not, eqb, ◌==◌, if◌then◌else◌, elem,
  keep, truthy,
}
use agent_ship.Text.{is_space, strip, after_prefix, split_at}
use agent_ship.Dict.{Dict, get, put}
use agent_ship.Errors.{Result, ok, raise, auth_error, other}
use agent_ship.Auth.Caller.{Caller, Headers, AuthProvider}

-- s or None
abbrev pub or_none : String → Option String
or_none s = if s == "" then none else some s

-- s or default, for `s : str | None`
abbrev pub or_default : Option String → String → String
or_default none d = d
or_default (some s) d = if s == "" then d else s

abbrev stripped_after : Option String → Option String
stripped_after none = none
stripped_after (some rest) = or_none (strip rest)

-- headers.get("authorization", ""), and the key behind its "Bearer "
unfoldable pub extract_bearer : Headers → Option String
unfolding strip after_prefix
extract_bearer headers =
    stripped_after (after_prefix "Bearer " (or_default (get headers "authorization") ""))

-- A dedicated header that is there and not empty decides, also where only blanks stand in it.
unfoldable pub extract_key : Headers → String → Option String
unfolding extract_bearer strip
extract_key headers api_key_header =
    let direct = get headers api_key_header in
    if truthy direct then or_none (strip (or_default direct "")) else extract_bearer headers

-- One object of the JSON key table, with the fields that it has.
pub record KeyEntry : Type 0 where
  pub key : String
  pub tenant : Option String
  pub user : String
  pub scopes : List String

module _ (hash : String → String) where
  unfoldable pub caller_of : KeyEntry → Caller
  caller_of entry = record {
    tenant_id = elim entry.tenant [ none ↦ "default" | some t ↦ t ];
    user_id = entry.user;
    scopes = entry.scopes;
    auth_method = some "api_key";
  }

  -- The table of callers by the digest of their key, from the entries of the JSON list, where the
  -- shape of the entries has been checked.
  unfoldable pub add_keys : Dict Caller → List KeyEntry → Dict Caller
  unfolding caller_of
  add_keys table [] = table
  add_keys table (entry ∷ entries) = add_keys (put table (hash entry.key) (caller_of entry)) entries

  -- EnvApiKeyStore.lookup: the first stored digest that equals the presented one
  unfoldable pub lookup : Dict Caller → String → Option Caller
  lookup by_hash presented_key = get by_hash (hash presented_key)

  unfoldable pub api_key_authenticate : Dict Caller → String → AuthProvider
  unfolding extract_key lookup
  api_key_authenticate by_hash api_key_header headers = elim (extract_key headers api_key_header) [
    | none ↦ raise (auth_error "no_credentials")
    | some key ↦ elim (lookup by_hash key) [
      | none ↦ raise (auth_error "invalid_api_key")
      | some caller ↦ ok caller
    ]
  ]

pub record ForwardedHeaders : Type 0 where
  pub trusted : List String
  pub forwarded_by_header : String
  pub tenant_header : String
  pub user_header : String
  pub scopes_header : String

-- The constructor refuses an empty allow-list, by a ValueError.
unfoldable forwarded_provider : ForwardedHeaders → Result ForwardedHeaders
forwarded_provider config = elim config.trusted [ [] ↦ raise other | t ∷ ts ↦ ok config ]

abbrev is_separator : ℕ → Bool
is_separator c = eqb c b',' || is_space c

-- [part for part in re.split(r"[,\s]+", raw.strip()) if part]
unfoldable parse_scopes : String → List String
unfolding strip split_at is_space
parse_scopes raw = keep (λ part. not (part == "")) (split_at is_separator (strip raw))

forwarded_caller : ForwardedHeaders → Headers → String → Caller
unfolding parse_scopes
forwarded_caller config headers user_id = record {
  tenant_id = or_default (get headers config.tenant_header) "default";
  user_id = user_id;
  scopes = parse_scopes (or_default (get headers config.scopes_header) "");
  auth_method = some "forwarded";
}

unfoldable pub forwarded_authenticate : ForwardedHeaders → AuthProvider
unfolding forwarded_caller
forwarded_authenticate config headers = elim (get headers config.forwarded_by_header) [
  | none ↦ raise (auth_error "no_credentials")
  | some forwarded_by ↦
      if not (elem forwarded_by config.trusted)
      then raise (auth_error "untrusted_source")
      else (let user = get headers config.user_header in
          if not (truthy user)
          then raise (auth_error "no_credentials")
          else ok (forwarded_caller config headers (or_default user "")))
]
