-- ===== src/LangGraph/Build/Bound.antt =====
-- The tools that an agent is built with.
use agent_ship.Prelude.{
  String, ◌≡◌, refl, Bool, true, Option, none, some, List, [], ◌∷◌, ◌++◌, map, keep, elem, All,
  Bool-cases, inl, inr, ◌⊎◌, arith, eq_refl,
}
use agent_ship.Prelude.Splits.{All-map, All-elem_self}
use agent_ship.Dict.{Dict}
use agent_ship.Errors.{Result, ok, >>=-eq-ok}
use agent_ship.Spec.{AgentSpec, McpServerSpec}
use agent_ship.Spec.Coherence.{or_nil}
use agent_ship.LangGraph.Build.{
  NativeTool, BoundTool, wrapped, of_server, native_tools, served, attribute_all, server_tools,
  allowed, resolve_tools, Origin,
}

abbrev is_allowed : Option (List String) → String → Bool
is_allowed none name = true
is_allowed (some names) name = elem name names

-- A predicate on the tools, of those that a list keeps.
All-append :
    (P : BoundTool → Type 0) (xs ys : List BoundTool) → All P xs → All P ys → All P (xs ++ ys)
All-append P [] ys h h' = h'
All-append P (x ∷ xs) ys h h' = (h.0, All-append P xs ys h.1 h')

All-allowed :
    (P : BoundTool → Type 0) (names : List String) (xs : List BoundTool)
    → All P xs
    → All (λ tool. P tool × (elem tool.name names ≡ true)) (keep (λ tool. elem tool.name names) xs)
All-allowed P names [] h = tt
All-allowed P names (x ∷ xs) h = elim (Bool-cases (elem x.name names)) [
  | inl e ↦ rw e ((h.0, e), All-allowed P names xs h.1)
  | inr e ↦ rw e (All-allowed P names xs h.1)
]

All-unrestricted :
    (P : BoundTool → Type 0) (xs : List BoundTool)
    → All P xs
    → All (λ tool. P tool × (true ≡ true)) xs
All-unrestricted P [] h = tt
All-unrestricted P (x ∷ xs) h = ((h.0, refl), All-unrestricted P xs h.1)

allowed-All :
    (P : BoundTool → Type 0) (names : Option (List String)) (xs : List BoundTool)
    → All P xs
    → All (λ tool. P tool × (is_allowed names tool.name ≡ true)) (allowed names xs)
allowed-All P none xs h = All-unrestricted P xs h
allowed-All P (some names) xs h = All-allowed P names xs h

module _ (resolve : String → Result NativeTool)
    (discover : String → McpServerSpec → Result (List String)) where
  -- One of the declared servers has that name and lists that tool.
  abbrev Offered : Dict McpServerSpec → String → String → Type 0
  Offered [] server name = ⊥
  Offered ((key, config) ∷ mcp) server name =
      ((key ≡ server)
        × (names : List String) × (discover key config ≡ ok names)
        × (elem name names ≡ true))
      ⊎ Offered mcp server name

  -- The tool that a reference of the spec resolves to, with its own name and its own `side_effecting`,
  -- behind the wrapper, which is told whether writes are to be confirmed.
  abbrev Resolved : Bool → List String → String → (side_effecting confirm : Bool) → Type 0
  Resolved confirm_writes refs name side_effecting confirm =
      (ref : String) × (tool : NativeTool) × (elem ref refs ≡ true)
      × (resolve ref ≡ ok tool)
      × (name ≡ tool.name)
      × (side_effecting ≡ tool.side_effecting)
      × (confirm ≡ confirm_writes)

  abbrev pub Declared : Bool → List String → Dict McpServerSpec → BoundTool → Type 0
  Declared confirm_writes refs mcp tool = elim tool.origin [
    | wrapped side_effecting confirm ↦ Resolved confirm_writes refs tool.name side_effecting confirm
    | of_server server ↦ Offered mcp server tool.name
  ]

  Declared-ref :
      (confirm : Bool) (ref : String) (refs : List String) (mcp : Dict McpServerSpec)
      (tools : List BoundTool)
      → All (Declared confirm refs mcp) tools
      → All (Declared confirm (ref ∷ refs) mcp) tools
  Declared-ref confirm ref refs mcp tools h =
      All-map _ _ (λ tool. weaken tool.name tool.origin) tools h
    where
      weaken :
          (name : String) (origin : Origin)
          → Declared confirm refs mcp record { name = name; origin = origin }
          → Declared confirm (ref ∷ refs) mcp record { name = name; origin = origin }
      weaken name (wrapped s c) (r, tool, e, resolved, n, f, g) =
          (r, tool, ground (arith, e), resolved, n, f, g)
      weaken name (of_server server) offered = offered

  native_tools-Declared :
      (confirm : Bool) (refs : List String) (mcp : Dict McpServerSpec) {tools : List BoundTool}
      → native_tools resolve discover confirm refs ≡ ok tools
      → All (Declared confirm refs mcp) tools
  unfolding native_tools
  native_tools-Declared confirm [] mcp {tools} h = let e : [] ≡ tools = cc h in rw (← e) tt
  native_tools-Declared confirm (ref ∷ refs) mcp {tools} h =
      let (tool, resolved, h') = >>=-eq-ok (resolve ref) _ h in
      let (rest, found, made) = >>=-eq-ok (native_tools resolve discover confirm refs) _ h' in
      let e : record { name = tool.name; origin = wrapped tool.side_effecting confirm } ∷ rest
          ≡ tools =
        cc made in
      rw (← e) (
        (ref, tool, ground (arith, eq_refl ref), resolved, refl, refl, refl),
        Declared-ref confirm ref refs mcp rest (native_tools-Declared confirm refs mcp found),
      )

  -- The tools of a server, each with a name that the server lists.
  served-Declared :
      (confirm : Bool) (refs : List String) (mcp : Dict McpServerSpec) (server : String)
      (config : McpServerSpec) (names : List String)
      → discover server config ≡ ok names
      → All (Declared confirm refs ((server, config) ∷ mcp)) (map (served server) names)
  served-Declared confirm refs mcp server config names h = on names (All-elem_self names)
    where
      on :
          (some_names : List String)
          → All (λ name. elem name names ≡ true) some_names
          → All (Declared confirm refs ((server, config) ∷ mcp)) (map (served server) some_names)
      on [] l = tt
      on (name ∷ some_names) l = (inl (refl, names, h, l.0), on some_names l.1)

  Declared-server :
      (confirm : Bool) (refs : List String) (entry : String × McpServerSpec)
      (mcp : Dict McpServerSpec) (tools : List BoundTool)
      → All (Declared confirm refs mcp) tools
      → All (Declared confirm refs (entry ∷ mcp)) tools
  Declared-server confirm refs entry mcp tools h =
      All-map _ _ (λ tool. weaken tool.name tool.origin) tools h
    where
      weaken :
          (name : String) (origin : Origin)
          → Declared confirm refs mcp record { name = name; origin = origin }
          → Declared confirm refs (entry ∷ mcp) record { name = name; origin = origin }
      weaken name (wrapped s c) resolved = resolved
      weaken name (of_server server) offered = inr offered

  server_tools-Declared :
      (confirm : Bool) (refs : List String) (mcp : Dict McpServerSpec) (before : Dict String)
      {result : List BoundTool × Dict String}
      → server_tools resolve discover mcp before ≡ ok result
      → All (Declared confirm refs mcp) result.0
  unfolding server_tools
  server_tools-Declared confirm refs [] before {result} h =
      let e : ([], before) ≡ result = cc h in rw (← e) tt
  server_tools-Declared confirm refs ((server, config) ∷ mcp) before {result} h =
      let (names, listed, h') = >>=-eq-ok (discover server config) _ h in
      let (rest, found, made) =
        >>=-eq-ok (server_tools resolve discover mcp (attribute_all server names before)) _ h' in
      let e : (map (served server) names ++ rest.0, rest.1) ≡ result = cc made in
      rw (← e) (
        All-append (Declared confirm refs ((server, config) ∷ mcp)) (map (served server) names)
          rest.0 (served-Declared confirm refs mcp server config names listed)
          (Declared-server confirm refs (server, config) mcp rest.0
            (server_tools-Declared confirm refs mcp (attribute_all server names before) found)))

  -- Every tool that an agent is built with has a name that `allowed_tools` lists, if the spec has such a
  -- list. It is either what a reference in the spec's `tools` resolves to, under its own name and behind the
  -- wrapper, which is told the tool's own `side_effecting` and whether the spec says `confirm_writes`; or it
  -- is listed by an MCP server that the spec declares.
  pub resolve_tools-Declared :
      (spec : AgentSpec) {result : List BoundTool × Dict String}
      → resolve_tools resolve discover spec ≡ ok result
      → All
          (λ tool.
            Declared spec.confirm_writes (or_nil spec.tools) (or_nil spec.mcp) tool
            × (is_allowed spec.allowed_tools tool.name ≡ true))
          result.0
  unfolding resolve_tools
  resolve_tools-Declared spec {result} h =
      let refs = or_nil spec.tools in
      let mcp = or_nil spec.mcp in
      let (native, found, h') =
        >>=-eq-ok (native_tools resolve discover spec.confirm_writes refs) _ h in
      let (remote, found', made) = >>=-eq-ok (server_tools resolve discover mcp []) _ h' in
      let e : (allowed spec.allowed_tools (native ++ remote.0), remote.1) ≡ result = cc made in
      rw (← e) (
        allowed-All (Declared spec.confirm_writes refs mcp) spec.allowed_tools (native ++ remote.0)
          (All-append (Declared spec.confirm_writes refs mcp) native remote.0
            (native_tools-Declared spec.confirm_writes refs mcp found)
            (server_tools-Declared spec.confirm_writes refs mcp [] found')))
