-- ===== src/LangGraph/Models.antt =====
-- agentship_langgraph/models.py: what a chat model is built with, and which failures are the provider's.
use Prim.Native.String.{◌++◌ as ◌<>◌}
use agent_ship.Prelude.{
  ℕ, String, Bool, true, false, Option, none, some, List, [], ◌∷◌, ◌||◌, ◌==◌, eqb, elem, any,
  if◌then◌else◌,
}
use agent_ship.Text.{strip, split_at, after_prefix, is_slash}
use agent_ship.Dict.{Dict, get}
use agent_ship.Errors.{Result, ok, raise, spec_error}
use agent_ship.Engine.{first_of}
use agent_ship.Json.{Json, Fields, null, flag, object, no_fields, field, set}

-- What is read of an exception: the module of its type, whether it is a ConnectionError or a TimeoutError,
-- and its text.
pub record Exception : Type 0 where
  pub module_name : String
  pub transport_error : Bool
  pub text : String

-- What leaves the engine: a ModelError with its message, or the exception as it was.
pub data Raised : Type 0 where
  model_error : (message : String) → Raised
  unchanged : Exception → Raised

abbrev is_dot : ℕ → Bool
is_dot c = eqb c b'.'

-- _PROVIDER_MODULES
abbrev provider_modules : List String
provider_modules =
    "litellm" ∷ "openai" ∷ "anthropic" ∷ "google" ∷ "cohere" ∷ "mistralai" ∷ "groq" ∷ "httpx"
    ∷ "httpcore" ∷ []

unfoldable is_provider_error : Exception → Bool
unfolding split_at
is_provider_error exc =
    exc.transport_error || elem (first_of (split_at is_dot exc.module_name)) provider_modules

-- _PROVIDER_ENV_VAR
abbrev provider_env_vars : Dict String
provider_env_vars =
    ("openai", "OPENAI_API_KEY")
    ∷ ("anthropic", "ANTHROPIC_API_KEY")
    ∷ ("gemini", "GEMINI_API_KEY")
    ∷ ("groq", "GROQ_API_KEY")
    ∷ ("mistral", "MISTRAL_API_KEY")
    ∷ ("cohere", "COHERE_API_KEY")
    ∷ ("together_ai", "TOGETHER_AI_API_KEY")
    ∷ []

-- _CREDENTIAL_MARKERS
abbrev credential_markers : List String
credential_markers =
    "missing credentials" ∷ "api_key" ∷ "api key" ∷ "authentication" ∷ "invalid_api_key"
    ∷ "incorrect api key" ∷ "no api key" ∷ []

abbrev pub starts_with : String → String → Bool
starts_with prefix s = elim (after_prefix prefix s) [ none ↦ false | some rest ↦ true ]

-- part in s
unfoldable occurs_in : String → String → Bool
unfolding after_prefix
occurs_in part String.[] = starts_with part ""
occurs_in part (String.◌∷◌ c s) = starts_with part (String.◌∷◌ c s) || occurs_in part s

-- `lower` is str.lower, `repr` is repr of a text
module _ (lower : String → String) where
  -- _provider_env_var
  unfoldable provider_env_var : String → Option String
  unfolding split_at strip get
  provider_env_var model =
      get provider_env_vars
        (if model == "" then "" else lower (strip (first_of (split_at is_slash model))))

  -- _is_credential_error
  unfoldable is_credential_error : Exception → Bool
  unfolding occurs_in
  is_credential_error exc = any (λ marker. occurs_in marker (lower exc.text)) credential_markers

  module _ (repr : String → String) where
    abbrev key_of_provider : Option String → String
    key_of_provider none = "the provider's API key environment variable"
    key_of_provider (some env_var) = env_var

    -- the message of the ModelError
    unfoldable map_model_error : String → Exception → String
    unfolding provider_env_var is_credential_error
    map_model_error model exc =
        if is_credential_error exc
        then "No API credentials for model "
          <> (repr model
              <> (". Set "
                  <> (key_of_provider (provider_env_var model)
                      <> " — export it, or put it in a .env in this directory (see .env.example) — and retry.")))
        else "Model call failed for " <> (repr model <> (": " <> exc.text))

    -- except Exception as exc: if is_provider_error(exc): raise map_model_error(…) from exc; raise
    unfoldable pub escape_as : String → Exception → Raised
    unfolding is_provider_error map_model_error
    escape_as model exc =
        if is_provider_error exc then model_error (map_model_error model exc) else unchanged exc

-- _PARAM_TO_FIELD.get(name, name)
abbrev field_name : String → String
field_name name = if name == "timeout" then "request_timeout" else name

-- for name, value in params.items(): what goes to the constructor, and what goes into model_kwargs
unfoldable sort_params : Fields → Fields → Fields → Fields × Fields
unfolding set
sort_params no_fields kwargs model_kwargs = (kwargs, model_kwargs)
sort_params (field name null params) kwargs model_kwargs = sort_params params kwargs model_kwargs
sort_params (field name value params) kwargs model_kwargs =
    let via_model_kwargs = name == "reasoning_effort" in
    sort_params params (if via_model_kwargs then kwargs else set kwargs (field_name name) value)
      (if via_model_kwargs then set model_kwargs name value else model_kwargs)

unfoldable has_key : Fields → String → Bool
has_key no_fields key = false
has_key (field k value d) key = k == key || has_key d key

-- d.setdefault(key, value)
abbrev set_default : Fields → String → Json → Fields
set_default d key value = if has_key d key then d else set d key value

abbrev with_model_kwargs : Fields × Fields → Fields
with_model_kwargs (kwargs, no_fields) = kwargs
with_model_kwargs (kwargs, field k value more) =
    set kwargs "model_kwargs" (object (field k value more))

-- The keyword arguments that ChatLiteLLM is called with, after the model.
unfoldable pub resolve_model : String → Fields → Result (String × Fields)
unfolding strip sort_params has_key set
resolve_model model params =
    let kwargs = with_model_kwargs (sort_params params no_fields no_fields) in
    let with_usage =
      set_default kwargs "stream_options" (object (field "include_usage" (flag true) no_fields)) in
    if strip model == ""
    then raise spec_error
    else ok (model, set_default with_usage "streaming" (flag true))
