-- ===== src/Examples/Authoring.antt =====
-- Specs, their engines, and the keys of turns and tool calls.
use agent_ship.Prelude.{String, ◌≡◌, refl, true, false, Option, none, some, [], ◌∷◌, all}
use agent_ship.Dict.{get}
use agent_ship.Errors.{ok, raise, capability_error}
use agent_ship.Registry.{Registry, find}
use agent_ship.Auth.Caller.{Caller}
use agent_ship.Spec.{bearer, A2aRemoteSpec, MemberSpec, checkpoint, AgentSpec}
use agent_ship.Spec.Load.{Modules}
use agent_ship.Engine.{no_hitl, unstructured, EngineCapabilities, assert_supports_spec}
use agent_ship.Engine.Gate.{requirements, provides, assert_supports_spec-provides}
use agent_ship.Engine.Build.{
  Built, declared, Engine, RunnableAgent, build_agent, build_agent_honours,
}
use agent_ship.Context.{invoke, RunContext}

abbrev remote : A2aRemoteSpec
remote = record {
  url = "https://books";
  card_path = "/.well-known/agent-card.json";
  auth = record { type = bearer; token_env = some "BOOKS_TOKEN" };
  timeout_seconds = 30;
}

abbrev books : MemberSpec
books = record {
  name = "books";
  ref = none;
  description = none;
  prompt = some "You know books.";
  model = none;
  a2a = some remote;
}

abbrev pub support : AgentSpec
support = record {
  name = "support";
  engine = "langgraph";
  code = none;
  template = none;
  tools = some ("search" ∷ []);
  mcp = none;
  skills = none;
  allowed_tools = none;
  confirm_writes = true;
  model = some "openai/gpt-4o";
  prompt = none;
  members = none;
  a2a = none;
  streaming = true;
  output_schema = none;
  durability = checkpoint;
  observability = none;
  voice = none;
}

-- A member that is both inline and remote.
abbrev torn : AgentSpec
torn = record support { members = some (books ∷ []) }

abbrev langgraph : EngineCapabilities
langgraph = record {
  providers = "openai" ∷ [];
  streaming = true;
  tool_calling = true;
  hitl = no_hitl;
  durability = checkpoint;
  cycles = true;
  structured_output = unstructured;
  multimodal_in = [];
  live_bidi = false;
  multi_agent = false;
}

abbrev same_case : String → String
same_case s = s

-- The engine takes no members.
assert_supports_spec-provides_example :
    assert_supports_spec same_case langgraph torn ≡ raise capability_error
assert_supports_spec-provides_example = assert_supports_spec-provides same_case langgraph torn

abbrev compiler : Engine String String
compiler = record {
  name = "langgraph";
  capabilities = langgraph;
  build = λ spec authored. ok spec.name;
}

abbrev engines : Registry (Engine String String)
engines = record { providers = ("langgraph", compiler) ∷ []; discovered = true }

abbrev modules : Modules (Built String)
modules = record {
  from_file = λ path. some (λ attr. some (declared support));
  imported = λ name. none;
}

abbrev pointer : AgentSpec
pointer = record support { code = some "agents.py:support"; streaming = false }

abbrev pub built : RunnableAgent String String
built = record { spec = support; engine = compiler; compiled = "support" }

build_agent_honours_example :
    (◌≡◌ {A = Option String} none none)
    × ((find [] engines "langgraph").0 ≡ some compiler)
    × (all (provides same_case langgraph) (requirements support) ≡ true)
unfolding build_agent get assert_supports_spec
build_agent_honours_example =
    build_agent_honours same_case modules [] engines pointer {agent = built} refl

abbrev pub caller_in : String → Caller
caller_in tenant = record { tenant_id = tenant; user_id = "ann"; scopes = []; auth_method = none }

abbrev pub turn_of : String → String → RunContext
turn_of tenant agent = record {
  caller = caller_in tenant;
  session_id = "s1";
  run_id = "r1";
  agent_name = agent;
  mode = invoke;
  trace_id = none;
  input_text = "hello";
  routed_model = none;
}
