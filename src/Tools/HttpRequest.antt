-- ===== src/Tools/HttpRequest.antt =====
-- agentship/tools: builtins/http_request.py, the request that is made; and registry.py, `resolve_tool`.
use Prim.Native.String.{◌++◌ as ◌<>◌}
use agent_ship.Prelude.{
  ℕ, String, Bool, Option, none, some, ◌&&◌, ◌||◌, not, ◌==◌, eqb, if◌then◌else◌,
}
use agent_ship.Text.{strip, lacks}
use agent_ship.Dict.{Dict, get, put}
use agent_ship.Errors.{Result, ok, raise, spec_error}
use agent_ship.Json.{Fields, is_true, object}

pub record Request : Type 0 where
  pub url : String
  pub body : Option Fields
  pub headers : Dict String
  pub method : String

abbrev has_fields : Fields → Bool
has_fields d = is_true (object d)

-- body or params
abbrev or_params : Fields → Fields → Fields
or_params body params = if has_fields body then body else params

-- headers.setdefault(key, value)
abbrev with_default : Dict String → String → String → Dict String
with_default d key value = elim (get d key) [ none ↦ put d key value | some there ↦ d ]

-- What is sent, or nothing where there is no URL. `upper` is str.upper and `urlencode` that of urllib.
unfoldable prepare :
    (String → String)
    → (Fields → String)
    → String
    → String
    → Fields
    → Dict String
    → Fields
    → Option Request
unfolding strip get put
prepare upper urlencode url method params headers body =
    let address = strip url in
    let verb = upper method in
    let sends = verb == "POST" && (has_fields body || has_fields params) in
    if address == ""
    then none
    else some record {
      url =
          if has_fields params && verb == "GET"
          then address <> ("?" <> urlencode params)
          else address;
      body = if sends then some (or_params body params) else none;
      headers = if sends then with_default headers "Content-Type" "application/json" else headers;
      method = verb;
    }

-- What a module has under a name.
pub data Candidate (Tool : Type 0) : Type 0 where
  a_tool : Tool → Candidate Tool
  something_else not_there : Candidate Tool

abbrev pub is_colon : ℕ → Bool
is_colon c = eqb c b':'

abbrev pub imported : {Tool : Type 0} → Candidate Tool → Result Tool
imported (a_tool tool) = ok tool
imported _ = raise spec_error

-- resolve_tool: `import_ref` imports the attribute of a `module:attr` reference
unfoldable pub resolve_tool :
    {Tool : Type 0} → (String → Candidate Tool) → (String → Option Tool) → String → Result Tool
unfolding lacks
resolve_tool import_ref registered ref =
    if not (lacks is_colon ref)
    then imported (import_ref ref)
    else elim (registered ref) [ none ↦ raise spec_error | some tool ↦ ok tool ]
