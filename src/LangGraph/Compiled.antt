-- ===== src/LangGraph/Compiled.antt =====
-- agentship_langgraph/engine.py: a built agent without its graph, what a turn of it begins with, and tokens.
use agent_ship.Prelude.{
  ℕ, String, Bool, Option, none, some, List, [], ◌∷◌, ◌++◌, truthy, not, ◌&&◌, if◌then◌else◌,
}
use agent_ship.Dict.{Dict}
use agent_ship.Spec.{Durability}
use agent_ship.Json.{Json, Fields, null, flag, number, string, no_fields, field, object, optional}
use agent_ship.LangGraph.Message.{Message, Kind, human, system}

-- _CompiledAgent, less its graph
pub record CompiledAgent : Type 0 where
  pub system_prompt : Option String
  pub model_id : String
  pub durability : Durability
  pub members : List String
  pub bound_tools : List String
  pub internal_nodes : List String
  pub mcp_servers : Dict String

-- A message that is constructed of its content alone.
abbrev pub new_message : Kind → String → Message
new_message kind text = record {
  kind = kind;
  id = none;
  name = null;
  content = string text;
  reasoning_content = null;
  tool_calls = [];
}

abbrev pub prompt_messages : Option String → List Message
prompt_messages none = []
prompt_messages (some prompt) = new_message system prompt ∷ []

unfoldable pub initial_messages : CompiledAgent → String → Bool → List Message
initial_messages compiled text resuming =
    (if truthy compiled.system_prompt && not resuming
      then prompt_messages compiled.system_prompt
      else [])
    ++ new_message human text ∷ []

pub record ResumeToken : Type 0 where
  pub engine : String
  pub blob : Fields

-- LangGraphEngine.name
abbrev pub engine_name : String
engine_name = "langgraph"

-- _TOKEN_SCHEMA_VERSION
abbrev token_schema_version : ℕ
token_schema_version = 1

-- _mint_token, from the checkpoint id of a snapshot's config
unfoldable pub mint_token : String → Option String → Bool → ResumeToken
mint_token thread_id checkpoint_id interrupted = record {
  engine = engine_name;
  blob = field "thread_id" (string thread_id) (
      field "checkpoint_id" (optional checkpoint_id) (
        field "interrupt" (flag interrupted)
          (field "schema_version" (number token_schema_version) no_fields)));
}

-- token.model_dump()
abbrev pub dump_token : ResumeToken → Json
dump_token token =
    object (field "engine" (string token.engine) (field "blob" (object token.blob) no_fields))
