-- ===== src/LangGraph/Tracing.antt =====
-- agentship_langgraph/tracing.py and observability/attributes.py: LangChain's callbacks as spans of the observer.
pub mod Gate
use Prim.Native.String.{◌++◌ as ◌<>◌}
use agent_ship.Prelude.{
  ℕ, suc, ◌+◌, String, Bool, true, false, Option, none, some, List, [], ◌∷◌, ◌++◌, map, ◌||◌, ◌&&◌,
  not, ◌==◌, eqb, if◌then◌else◌, elem, keep, truthy,
}
use agent_ship.Text.{is_slash, lacks, split_at, join}
use agent_ship.Dict.{Dict, get, put}
use agent_ship.Engine.{first_of}
use agent_ship.Observability.Tree.{span_model, model_span_prefix, tool_prefix}
use agent_ship.Json.{
  Json, Items, Fields, null, number, string, array, no_items, item, no_fields, field, at, set,
  merge, is_true, or_else, optional,
}
use agent_ship.LangGraph.Message.{Message, split_reasoning}

pub data SpanKind : Type 0 where
  agent llm tool internal : SpanKind

-- What is done to the observer's spans; each span that it starts has a number.
pub data Action : Type 0 where
  started :
      (span : ℕ) (name : String) (kind : SpanKind) (attributes : Fields) (parent : Option ℕ)
      → Action
  stamped : (span : ℕ) (attributes : Fields) → Action
  errored : (span : ℕ) (error : String) → Action
  ended : (span : ℕ) → Action

-- What is read of an LLMResult: the two places where tokens are counted, the first generation's finish
-- reason and message with its reasoning tokens, and the texts.
pub record LlmResult : Type 0 where
  pub usage_metadata : ℕ × ℕ
  pub token_usage : ℕ × ℕ
  pub finish_reason : Option String
  pub model_name : Option String
  pub message : Option Message
  pub reasoning_tokens : ℕ
  pub texts : List String

-- The callbacks, each with its run. A chat model's messages are flattened to {role, content}.
pub data Callback : Type 0 where
  chat_model_start :
      (run_id : String) (parent : Option String) (model_id : String) (messages : Json)
      (params : Fields)
      → Callback
  llm_start :
      (run_id : String) (parent : Option String) (model_id : String) (prompts : Json) → Callback
  llm_end : (run_id : String) (response : LlmResult) (latency_ms : ℕ) → Callback
  llm_error tool_error chain_error : (run_id : String) (error : String) → Callback
  tool_start :
      (run_id : String) (parent : Option String) (name : Option String) (input_str : String)
      (inputs : Json)
      → Callback
  tool_end : (run_id : String) (output : String) → Callback
  chain_start :
      (run_id : String) (parent : Option String) (langgraph_node name : Option String) → Callback
  chain_end : (run_id : String) → Callback

-- the callback's own tables: the open spans and the models of their runs, by run; and the next span
pub record Open : Type 0 where
  pub spans : Dict ℕ
  pub model_ids : Dict String
  pub next_span : ℕ

-- d.pop(key, None)
abbrev pop : {V : Type 0} → Dict V → String → Dict V
pop d key = keep (λ e. not (e.0 == key)) d

-- _provider_of
unfoldable pub provider_of : String → String
unfolding lacks split_at
provider_of model_id = if lacks is_slash model_id then "" else first_of (split_at is_slash model_id)

-- semconv.model_span, node_span and tool_span
abbrev pub model_span : String → String
model_span model_id = if model_id == "" then span_model else model_span_prefix <> model_id

abbrev node_span : String → String
node_span name = "node." <> name

abbrev pub tool_span : String → String
tool_span name = tool_prefix <> name

pub record Usage : Type 0 where
  pub provider : String
  pub input_tokens : ℕ
  pub output_tokens : ℕ
  pub cost_usd : Option Json
  pub latency_ms : ℕ
  pub finish_reasons : List String
  pub response_model : Option String

abbrev set_if : Fields → String → Option Json → Fields
set_if d key none = d
set_if d key (some value) = set d key value

abbrev texts_of : List String → Items
texts_of [] = no_items
texts_of (s ∷ rest) = item (string s) (texts_of rest)

abbrev as_json : Option String → Option Json
as_json none = none
as_json (some s) = some (string s)

unfoldable pub usage_attributes : Usage → Fields
unfolding set
usage_attributes usage =
    let attrs = field "gen_ai.system" (string usage.provider) (
      field "gen_ai.usage.input_tokens" (number usage.input_tokens) (
        field "gen_ai.usage.output_tokens" (number usage.output_tokens) (
          field "gen_ai.response.finish_reasons" (array (texts_of usage.finish_reasons)) (
            field "llm.token_count.prompt" (number usage.input_tokens) (
              field "llm.token_count.completion" (number usage.output_tokens) (
                field "llm.token_count.total" (number (usage.input_tokens + usage.output_tokens))
                  (field "agentship.latency.ms" (number usage.latency_ms) no_fields))))))) in
    set_if (set_if attrs "agentship.cost.usd" usage.cost_usd) "gen_ai.response.model"
      (as_json usage.response_model)

abbrev pub nonempty : Option String → Option String
nonempty none = none
nonempty (some s) = if s == "" then none else some s

abbrev reasons : Option String → List String
reasons none = []
reasons (some s) = if s == "" then [] else s ∷ []

abbrev some_tokens : ℕ × ℕ → Bool
some_tokens (input, output) = not (eqb input 0) || not (eqb output 0)

-- `cost` is LiteLLM's price of a model's tokens, where it has one
module _ (cost : String → ℕ → ℕ → Option Json) where
  -- _cost_usd
  abbrev cost_usd : String → ℕ × ℕ → Option Json
  cost_usd model_id (input, output) =
      if model_id == "" || not (some_tokens (input, output))
      then none
      else cost model_id input output

  -- _usage_from_result
  unfoldable pub usage_from_result : LlmResult → String → ℕ → Usage
  unfolding provider_of
  usage_from_result response model_id latency_ms =
      let (input, output) =
        if some_tokens response.usage_metadata
        then response.usage_metadata
        else response.token_usage in
      record {
        provider = provider_of model_id;
        input_tokens = input;
        output_tokens = output;
        cost_usd = cost_usd model_id (input, output);
        latency_ms = latency_ms;
        finish_reasons = reasons response.finish_reason;
        response_model = nonempty response.model_name;
      }

  -- The callback is made with the content gate and the map from tools to their MCP servers. `redact` is
  -- redact_pii, `dump` is _json, `request_hash` a digest of the model, the messages and the parameters,
  -- `render` str, and `start_fails` says of a run whether the observer raises when its span is started.
  module _ (capture_content : Bool) (mcp_servers : Dict String) (redact : String → String)
      (dump render : Json → String) (request_hash : String → Json → Fields → String)
      (start_fails : String → Bool) (untraced_nodes : List String) where
    abbrev parent_span : Option String → Dict ℕ → Option ℕ
    parent_span none spans = none
    parent_span (some parent) spans = if parent == "" then none else get spans parent

    -- _open: what the observer raises is logged and swallowed
    unfoldable open_span :
        String → Option String → String → SpanKind → Fields → Open → List Action × Open
    unfolding get put
    open_span run_id parent name kind attrs s = if start_fails run_id then ([], s) else (
      started s.next_span name kind attrs (parent_span parent s.spans) ∷ [],
      record s { spans = put s.spans run_id s.next_span; next_span = suc s.next_span },
    )

    -- _close
    unfoldable pub close : String → Open → List Action × Open
    unfolding get
    close run_id s = (
      elim (get s.spans run_id) [ none ↦ [] | some span ↦ ended span ∷ [] ],
      record s { spans = pop s.spans run_id; model_ids = pop s.model_ids run_id },
    )

    -- _error_close
    unfoldable error_close : String → String → Open → List Action × Open
    unfolding close get
    error_close run_id error s =
        let (actions, after) = close run_id s in
        (
          elim (get s.spans run_id) [ none ↦ [] | some span ↦ errored span error ∷ [] ] ++ actions,
          after,
        )

    -- attributes that are there only if content is captured
    abbrev captured : String → String → String → Fields → Fields
    captured key mirror content attrs =
        if capture_content
        then set (set attrs key (string (redact content))) mirror (string (redact content))
        else attrs

    abbrev input_captured : String → Fields → Fields
    input_captured = captured "gen_ai.input.messages" "input.value"

    abbrev set_given : Fields → String → Json → Fields
    set_given attrs key null = attrs
    set_given attrs key value = set attrs key value

    abbrev model_attributes : String → Json → Fields → Fields
    model_attributes model_id messages params = field "gen_ai.operation.name" (string "chat") (
        field "gen_ai.system" (string (provider_of model_id)) (
          field "gen_ai.request.model" (string model_id) (
            field "agentship.replay.request_hash" (string (request_hash model_id messages params))
              no_fields)))

    abbrev remember_model : String → String → List Action × Open → List Action × Open
    remember_model run_id model_id (actions, s) =
        (actions, record s { model_ids = put s.model_ids run_id model_id })

    abbrev start_model : String → Option String → String → Fields → Open → List Action × Open
    start_model run_id parent model_id attrs s =
        remember_model run_id model_id (open_span run_id parent (model_span model_id) llm attrs s)

    abbrev reasoning_of : Option Message → String
    reasoning_of none = ""
    reasoning_of (some message) = (split_reasoning render message).0

    abbrev stamp_if : Bool → ℕ → Fields → List Action
    stamp_if test span attrs = if test then stamped span attrs ∷ [] else []

    -- what a model's reply leaves on its span
    abbrev pub reply_stamps : ℕ → String → LlmResult → ℕ → List Action
    reply_stamps span model_id response latency_ms =
        stamped span (usage_attributes (usage_from_result response model_id latency_ms))
        ∷ (stamp_if (not (eqb response.reasoning_tokens 0)) span
              (field "gen_ai.usage.reasoning_tokens" (number response.reasoning_tokens) no_fields)
            ++ (stamp_if (capture_content && not (reasoning_of response.message == "")) span (
                  field "agentship.reasoning" (string (redact (reasoning_of response.message)))
                    no_fields)
                ++ stamp_if (capture_content && not (join response.texts == "")) span (
                    captured "gen_ai.output.messages" "output.value" (join response.texts)
                      no_fields)))

    abbrev pub or_empty : Option String → String
    or_empty none = ""
    or_empty (some s) = s

    abbrev pub end_model : String → LlmResult → ℕ → Open → Option ℕ → List Action × Open
    end_model run_id response latency_ms s none = ([], s)
    end_model run_id response latency_ms s (some span) =
        let (actions, after) = close run_id s in
        (
          reply_stamps span (or_empty (get s.model_ids run_id)) response latency_ms ++ actions,
          after,
        )

    -- (serialized or {}).get("name") or "tool"
    abbrev pub tool_name : Option String → String
    tool_name none = "tool"
    tool_name (some name) = if name == "" then "tool" else name

    abbrev tool_attributes : String → Fields
    tool_attributes name =
        set_if
          (field "gen_ai.operation.name" (string "execute_tool")
            (field "gen_ai.tool.name" (string name) no_fields))
          "agentship.tool.mcp_server" (as_json (nonempty (get mcp_servers name)))

    abbrev end_tool : ℕ → String → List Action
    end_tool span output =
        stamp_if capture_content span
          (captured "gen_ai.output.messages" "output.value" output no_fields)

    -- A node's own runnable is the one with the node's name.
    abbrev traced_node : Option String → Option String → Option String
    traced_node (some node) (some name) =
        if node == "" || not (name == node) || elem node untraced_nodes then none else some node
    traced_node _ _ = none

    unfoldable pub on_callback : Callback → Open → List Action × Open
    unfolding open_span close error_close set split_reasoning usage_attributes usage_from_result get
        put provider_of
    on_callback (chat_model_start run_id parent model_id messages params) s =
        let attrs = model_attributes model_id messages params in
        let with_temperature =
          set_given attrs "gen_ai.request.temperature" (at params "temperature") in
        let with_limit =
          set_given with_temperature "gen_ai.request.max_tokens" (at params "max_tokens") in
        start_model run_id parent model_id (input_captured (dump messages) with_limit) s
    on_callback (llm_start run_id parent model_id prompts) s =
        start_model run_id parent model_id
          (input_captured (dump prompts) (model_attributes model_id prompts no_fields)) s
    on_callback (llm_end run_id response latency_ms) s =
        end_model run_id response latency_ms s (get s.spans run_id)
    on_callback (llm_error run_id error) s = error_close run_id error s
    on_callback (tool_error run_id error) s = error_close run_id error s
    on_callback (chain_error run_id error) s = elim (get s.spans run_id) [
      | none ↦ ([], s)
      | some span ↦ error_close run_id error s
    ]
    on_callback (tool_start run_id parent name input_str inputs) s =
        open_span run_id parent (tool_span (tool_name name)) tool
          (input_captured (if is_true inputs then dump inputs else input_str)
            (tool_attributes (tool_name name)))
          s
    on_callback (tool_end run_id output) s =
        let (actions, after) = close run_id s in
        (
          elim (get s.spans run_id) [ none ↦ [] | some span ↦ end_tool span output ] ++ actions,
          after,
        )
    on_callback (chain_start run_id parent langgraph_node name) s =
        elim (traced_node langgraph_node name) [
          | none ↦ ([], s)
          | some node ↦ open_span run_id parent (node_span node) internal no_fields s
        ]
    on_callback (chain_end run_id) s = elim (get s.spans run_id) [
      | none ↦ ([], s)
      | some span ↦ close run_id s
    ]

    unfoldable pub on_callbacks : List Callback → Open → List Action × Open
    unfolding on_callback
    on_callbacks [] s = ([], s)
    on_callbacks (c ∷ callbacks) s =
        let (actions, next) = on_callback c s in
        let (more, last) = on_callbacks callbacks next in (actions ++ more, last)
