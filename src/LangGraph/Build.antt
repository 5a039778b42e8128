-- ===== src/LangGraph/Build.antt =====
-- agentship_langgraph/engine.py, `build` and what it calls, and mcp.py: from a spec to an agent on LangGraph.
pub mod Bound
use agent_ship.Prelude.{
  String, Bool, true, false, Option, none, some, List, [], ◌∷◌, ◌++◌, map, keep, not, ◌==◌, ◌||◌,
  ◌&&◌, elem, if◌then◌else◌, truthy,
}
use agent_ship.Dict.{Dict, get, put}
use agent_ship.Errors.{Result, ok, raise, spec_error, ◌>>=◌, ◌>>◌}
use agent_ship.Specialist.Values.{is_empty}
use agent_ship.Spec.{AgentSpec, McpServerSpec, Transport, stdio, streamable_http, Template}
use agent_ship.Spec.Coherence.{or_nil}
use agent_ship.Engine.{has_items}
use agent_ship.Json.{Json, Fields, no_fields}
use agent_ship.Skills.{Skill, render_agent_prompt}
use agent_ship.LangGraph.Compiled.{CompiledAgent}
use agent_ship.LangGraph.Models as Models

-- What an MCP client is told of a server.
pub data Connection : Type 0 where
  stdio_connection : (command : Option String) (args : List String) → Connection
  http_connection : (url : Option String) (headers : Option (Dict String)) → Connection

-- _interpreter_for; `executable` is sys.executable
unfoldable pub interpreter_for : String → Option String → Option String
interpreter_for executable none = none
interpreter_for executable (some command) =
    if command == "python" || command == "python3" then some executable else some command

-- A dict of headers that is empty is left out.
abbrev given_headers : Option (Dict String) → Option (Dict String)
given_headers none = none
given_headers (some []) = none
given_headers (some (header ∷ headers)) = some (header ∷ headers)

abbrev pub connection : String → McpServerSpec → Connection
connection executable server = elim server.transport [
  | stdio ↦ stdio_connection (interpreter_for executable server.command) server.args
  | streamable_http ↦ http_connection server.url (given_headers server.headers)
]

unfoldable to_connections : String → Dict McpServerSpec → Dict Connection
unfolding interpreter_for
to_connections executable mcp = map (λ e. (e.0, connection executable e.1)) mcp

-- A native tool, before it is wrapped.
pub record NativeTool : Type 0 where
  pub name : String
  pub side_effecting : Bool

-- What calls a bound tool: the wrapper of tools.py, or a server behind a guard against errors only.
pub data Origin : Type 0 where
  wrapped : (side_effecting confirm_writes : Bool) → Origin
  of_server : (server : String) → Origin

pub record BoundTool : Type 0 where
  pub name : String
  pub origin : Origin

abbrev pub served : String → String → BoundTool
served server name = record { name = name; origin = of_server server }

-- mcp_servers[discovered.name] = server_name
abbrev pub attribute_all : String → List String → Dict String → Dict String
attribute_all server [] servers = servers
attribute_all server (name ∷ names) servers = attribute_all server names (put servers name server)

abbrev pub allowed : Option (List String) → List BoundTool → List BoundTool
allowed none tools = tools
allowed (some names) tools = keep (λ tool. elem tool.name names) tools

-- `resolve` is resolve_tool, `discover` what a server lists or why it cannot
module _ (resolve : String → Result NativeTool)
    (discover : String → McpServerSpec → Result (List String)) where
  -- for ref in spec.tools or []
  unfoldable pub native_tools : Bool → List String → Result (List BoundTool)
  native_tools confirm [] = ok []
  native_tools confirm (ref ∷ refs) = do
    tool ← resolve ref
    rest ← native_tools confirm refs
    ok (record { name = tool.name; origin = wrapped tool.side_effecting confirm } ∷ rest)

  -- for server_name, server_spec in spec.mcp.items()
  unfoldable pub server_tools :
      Dict McpServerSpec → Dict String → Result (List BoundTool × Dict String)
  unfolding put
  server_tools [] servers = ok ([], servers)
  server_tools ((server, config) ∷ mcp) servers = do
    names ← discover server config
    rest ← server_tools mcp (attribute_all server names servers)
    ok (map (served server) names ++ rest.0, rest.1)

  -- _resolve_tools, with the servers by tool
  unfoldable pub resolve_tools : AgentSpec → Result (List BoundTool × Dict String)
  unfolding native_tools server_tools
  resolve_tools spec = do
    native ← native_tools spec.confirm_writes (or_nil spec.tools)
    served ← server_tools (or_nil spec.mcp) []
    ok (allowed spec.allowed_tools (native ++ served.0), served.1)

-- An authored object: whether it is a LangGraphAgent, and its `internal_nodes`, if it has any.
pub record Authored : Type 0 where
  pub is_langgraph_agent : Bool
  pub internal_nodes : List String

-- Which body the graph is built from.
pub data Body : Type 0 where
  authored_graph supervisor template default_graph : Body

abbrev is_langgraph : Option Authored → Bool
is_langgraph none = false
is_langgraph (some a) = a.is_langgraph_agent

abbrev declared_nodes : Option Authored → List String
declared_nodes none = []
declared_nodes (some a) = a.internal_nodes

abbrev is_some_template : Option Template → Bool
is_some_template none = false
is_some_template (some t) = true

unfoldable pub body_of : AgentSpec → Option Authored → Body
body_of spec authored =
    if is_langgraph authored
    then authored_graph
    else if has_items spec.members
    then supervisor
    else if is_some_template spec.template
    then template
    else default_graph

abbrev owns_prompt : Body → Bool
owns_prompt supervisor = true
owns_prompt template = true
owns_prompt _ = false

-- graph_supervisor.INTERNAL_NODES
abbrev supervisor_internal_nodes : List String
supervisor_internal_nodes = "classify" ∷ []

abbrev or_supervisor : List String → Bool → List String
or_supervisor [] has_members = if has_members then supervisor_internal_nodes else []
or_supervisor (node_name ∷ node_names) has_members = node_name ∷ node_names

abbrev or_empty_text : Option String → String
or_empty_text none = ""
or_empty_text (some s) = s

abbrev model_of : Option String → Option String → String
model_of (some routed) model = if routed == "" then or_empty_text model else routed
model_of none model = or_empty_text model

-- What `build` calls: the tools' parts as above, skills, the declarative supervisor with the names of its
-- members, and the graph of a body.
module _ (resolve : String → Result NativeTool)
    (discover : String → McpServerSpec → Result (List String))
    (resolve_skill : String → Result Skill) (supervise : AgentSpec → Result (List String)) where
  abbrev members_of : Body → AgentSpec → Result (List String)
  members_of supervisor spec = supervise spec
  members_of body spec = ok []

  abbrev prompt_of : Body → AgentSpec → Result (Option String)
  prompt_of body spec =
      if owns_prompt body
      then ok none
      else render_agent_prompt resolve_skill spec.prompt spec.skills

  -- `build`, with the model that a run in progress is routed to and the generation parameters
  unfoldable pub build : Option String → Fields → AgentSpec → Option Authored → Result CompiledAgent
  unfolding resolve_tools body_of render_agent_prompt
  build routed params spec authored = do
    model ← Models.resolve_model (model_of routed spec.model) params
    bound ← resolve_tools resolve discover spec
    members ← members_of (body_of spec authored) spec
    system_prompt ← prompt_of (body_of spec authored) spec
    ok record {
      system_prompt = system_prompt;
      model_id = or_empty_text spec.model;
      durability = spec.durability;
      members = members;
      bound_tools = map (λ (tool : BoundTool). tool.name) bound.0;
      internal_nodes = or_supervisor (declared_nodes authored) (has_items spec.members);
      mcp_servers = bound.1;
    }
