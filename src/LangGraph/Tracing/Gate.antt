-- ===== src/LangGraph/Tracing/Gate.antt =====
-- What a turn's spans show of its content.
use agent_ship.Prelude.{ℕ, String, ◌≡◌, refl, Bool, false, Option, none, some, List, [], ◌∷◌}
use agent_ship.Dict.{Dict, get}
use agent_ship.Json.{Json, Fields, no_fields}
use agent_ship.LangGraph.Message.{Message}
use agent_ship.LangGraph.Tracing.{
  usage_from_result, Callback, chat_model_start, llm_start, llm_end, tool_start, tool_end,
  LlmResult, Open, Action, on_callback, on_callbacks, end_model,
}

-- Callbacks that differ at most in prompts, replies, reasoning, and the arguments and results of tools, where
-- prompts that differ have the same request hash.
module _ (request_hash : String → Json → Fields → String) where
  pub data Alike : Callback → Callback → Type 0 where
    same : {c c' : Callback} → c ≡ c' → Alike c c'
    chats :
        {run_id : String} {parent : Option String} {model_id : String} {messages messages' : Json}
        {params : Fields}
        → request_hash model_id messages params ≡ request_hash model_id messages' params
        → Alike
            (chat_model_start run_id parent model_id messages params)
            (chat_model_start run_id parent model_id messages' params)
    prompted :
        {run_id : String} {parent : Option String} {model_id : String} {prompts prompts' : Json}
        → request_hash model_id prompts no_fields ≡ request_hash model_id prompts' no_fields
        → Alike
            (llm_start run_id parent model_id prompts)
            (llm_start run_id parent model_id prompts')
    replied :
        {run_id : String} {response response' : LlmResult} {latency_ms : ℕ}
        (message : Option Message) (texts : List String)
        → response' ≡ record response { message = message; texts = texts }
        → Alike (llm_end run_id response latency_ms) (llm_end run_id response' latency_ms)
    called :
        {run_id : String} {parent name : Option String} {input_str input_str' : String}
        {inputs inputs' : Json}
        → Alike
            (tool_start run_id parent name input_str inputs)
            (tool_start run_id parent name input_str' inputs')
    returned :
        {run_id output output' : String} → Alike (tool_end run_id output) (tool_end run_id output')

  pub data AllAlike : List Callback → List Callback → Type 0 where
    none_left : AllAlike [] []
    then_alike :
        {c c' : Callback} {rest rest' : List Callback}
        → Alike c c'
        → AllAlike rest rest'
        → AllAlike (c ∷ rest) (c' ∷ rest')

module _ (cost : String → ℕ → ℕ → Option Json) (mcp_servers : Dict String)
    (redact : String → String) (dump render : Json → String)
    (request_hash : String → Json → Fields → String) (start_fails : String → Bool)
    (untraced_nodes : List String) where
  abbrev traced : Callback → Open → List Action × Open
  traced =
      on_callback cost false mcp_servers redact dump render request_hash start_fails untraced_nodes

  replied_alike :
      (run_id : String) (response : LlmResult) (message : Option Message) (texts : List String)
      (latency_ms : ℕ) (s : Open) (span : Option ℕ)
      → end_model cost false mcp_servers redact dump render request_hash start_fails untraced_nodes
          run_id response latency_ms s span
        ≡ end_model cost false mcp_servers redact dump render request_hash start_fails
            untraced_nodes run_id
            (record response { message = message; texts = texts })
            latency_ms
            s
            span
  unfolding usage_from_result
  replied_alike run_id response message texts latency_ms s none = refl
  replied_alike run_id response message texts latency_ms s (some span) = refl

  on_callback-Alike :
      (c c' : Callback) (s : Open) → Alike request_hash c c' → traced c s ≡ traced c' s
  unfolding on_callback
  on_callback-Alike c c' s (same e) = rw e refl
  on_callback-Alike _ _ s (chats e) = rw e refl
  on_callback-Alike _ _ s (prompted e) = rw e refl
  on_callback-Alike _ _ s (replied {run_id} {response} {response'} {latency_ms} message texts e) =
      rw e (replied_alike run_id response message texts latency_ms s (get s.spans run_id))
  on_callback-Alike _ _ s called = refl
  on_callback-Alike _ _ s returned = refl

  -- With the content gate shut, callbacks that differ only in content are the same spans: no prompt, reply
  -- or reasoning, and no argument or result of a tool, is in what the observer is told, but for the
  -- request hash of a prompt and the counts that a reply carries. Errors are recorded as they are.
  pub on_callbacks-AllAlike :
      (callbacks callbacks' : List Callback) (s : Open)
      → AllAlike request_hash callbacks callbacks'
      → on_callbacks cost false mcp_servers redact dump render request_hash start_fails
          untraced_nodes callbacks s
        ≡ on_callbacks cost false mcp_servers redact dump render request_hash start_fails
            untraced_nodes callbacks' s
  unfolding on_callbacks
  on_callbacks-AllAlike _ _ s none_left = refl
  on_callbacks-AllAlike _ _ s (then_alike {c} {c'} {rest} {rest'} h hs) =
      rw (on_callback-Alike c c' s h, on_callbacks-AllAlike rest rest' (traced c' s).1 hs)
