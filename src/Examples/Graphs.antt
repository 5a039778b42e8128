-- ===== src/Examples/Graphs.antt =====
-- An agent on LangGraph, over a checkpointer that keeps conversations in a dict.
use agent_ship.Prelude.{
  ℕ, String, ◌≡◌, refl, true, false, Option, none, some, List, [], ◌∷◌, ◌++◌, ◌==◌, map, All, elem,
}
use agent_ship.Dict.{Dict, get, put, get-put, get-put_self}
use agent_ship.Spec.{AgentSpec, McpServerSpec, stdio, checkpoint}
use agent_ship.Errors.{Result, ok, resume_error}
use agent_ship.Context.{RunContext, conversation_key}
use agent_ship.Examples.Authoring.{support, turn_of}
use agent_ship.Json.{Json, Fields, null, string, array, object, no_items, item, no_fields, field}
use agent_ship.LangGraph.Message.{Message, ai, ai_chunk}
use agent_ship.LangGraph.Models.{Exception}
use agent_ship.LangGraph.Compiled.{CompiledAgent, ResumeToken, new_message, mint_token}
use agent_ship.LangGraph.Stream.{Event, Item, updates, messages, interrupts, snapshot, stream_graph}
use agent_ship.LangGraph.Turns.{
  Graph, Asked, answered, State, turn_messages, command, nothing, Input, run, resume, refused,
}
use agent_ship.LangGraph.Turns.Memory.{
  Accumulates, grown, or_none, Turn, run_turn, stream_turn, take_turns,
}
use agent_ship.LangGraph.Message.{split_reasoning}
use agent_ship.LangGraph.Turns.Prompt.{Prompted, system_prompt_once}
use agent_ship.LangGraph.Turns.Resuming.{minted_token_resumes, resume_elsewhere}
use agent_ship.LangGraph.Stream.Shown.{shown}
use agent_ship.LangGraph.Stream.Private.{private, stream_graph-private}
use agent_ship.LangGraph.Stream.Spoken.{streamed, last_reply, pending}
use agent_ship.LangGraph.Stream.Answer.{Ended, stream_graph-Ended}
use agent_ship.Service.Agents.{Arrival, Frame, stream_frames}
use agent_ship.Service.Agents.Frames.{Tells, stream_frames-Tells}
use agent_ship.LangGraph.Tracing.{
  Callback, chat_model_start, tool_start, tool_end, Action, Open, on_callbacks,
}
use agent_ship.LangGraph.Tracing.Gate.{
  on_callbacks-AllAlike, chats, called, returned, none_left, then_alike,
}
use agent_ship.LangGraph.Build.{NativeTool, BoundTool, wrapped, of_server, resolve_tools}
use agent_ship.LangGraph.Build.Bound.{Declared, resolve_tools-Declared}

abbrev Saver : Type 0
Saver = Dict (List Message)

abbrev sure : Message
sure = new_message ai "sure"

-- every turn answers "sure"
abbrev invoked : Saver → String → Input → Asked State × Saver
invoked saver t (turn_messages ms) =
    let conversation = or_none (get saver t) ++ (ms ++ sure ∷ []) in
    (answered record { messages_of = conversation; pending = [] }, put saver t conversation)
invoked saver t input =
    (answered record { messages_of = or_none (get saver t); pending = [] }, saver)

abbrev streaming : Saver → String → List Message → List Item × Option Exception × Saver
streaming saver t ms = ([], none, put saver t (or_none (get saver t) ++ (ms ++ sure ∷ [])))

abbrev graph : Graph Saver
graph = record {
  aget_tuple = λ saver t. answered (get saver t);
  ainvoke = invoked;
  astream = streaming;
  aget_state = λ saver t. answered record {
    values = or_none (get saver t);
    checkpoint_id = some "c1";
    created_at = some "today";
  };
  aupdate_state = λ saver t message. (answered tt, saver);
}

stored : (saver : Saver) (t : String) (ms : List Message) → get (put saver t ms) t ≡ some ms
stored = get-put_self

elsewhere :
    (saver : Saver) (t u : String) (ms : List Message)
    → (t == u) ≡ false
    → get (put saver t ms) u ≡ get saver u
elsewhere saver t u ms h = rw (get-put saver t u ms, h) refl

invoked_elsewhere :
    (saver : Saver) (t u : String) (input : Input)
    → (t == u) ≡ false
    → get (invoked saver t input).1 u ≡ get saver u
invoked_elsewhere saver t u (turn_messages ms) h = elsewhere saver t u _ h
invoked_elsewhere saver t u (command value) h = refl
invoked_elsewhere saver t u nothing h = refl

lawful : Accumulates graph get
lawful = record {
  told = λ saver t. refl;
  invoked = λ saver t ms. grown (sure ∷ []) refl (stored saver t _);
  streamed = λ saver t ms. grown (sure ∷ []) refl (stored saver t _);
  invoked_elsewhere = invoked_elsewhere;
  streamed_elsewhere = λ saver t u ms h. elsewhere saver t u _ h;
}

abbrev same_text : String → String
same_text s = s

abbrev unshown : Json → String
unshown value = "?"

abbrev helper : CompiledAgent
helper = record {
  system_prompt = some "Be kind.";
  model_id = "openai/gpt-4o-mini";
  durability = checkpoint;
  members = [];
  bound_tools = [];
  internal_nodes = "classify" ∷ [];
  mcp_servers = [];
}

abbrev acme : RunContext
acme = turn_of "acme" "support"

abbrev globex : RunContext
globex = turn_of "globex" "support"

abbrev turns : List Turn
turns = run_turn acme "hi" ∷ stream_turn globex "hello" ∷ stream_turn acme "again" ∷ []

system_prompt_once_example :
    Prompted helper
      (get (take_turns graph same_text same_text unshown helper turns []) "acme/support/s1")
unfolding get
system_prompt_once_example =
    system_prompt_once lawful same_text same_text unshown helper turns [] "acme/support/s1" tt

abbrev before : Saver
before = ("globex/support/s1", sure ∷ []) ∷ []

abbrev token : ResumeToken
token = mint_token "acme/support/s1" (some "c1") false

-- The tenant `globex` cannot use the token of `acme`.
minted_token_resumes_example :
    resume graph same_text same_text helper token globex null false before
    ≡ (refused resume_error, before)
unfolding run mint_token conversation_key
minted_token_resumes_example =
    minted_token_resumes graph same_text same_text helper "hi" acme globex null token [] before refl

resume_elsewhere_example :
    get (resume graph same_text same_text helper token acme null false before).1 "globex/support/s1"
    ≡ get before "globex/support/s1"
unfolding conversation_key
resume_elsewhere_example =
    resume_elsewhere graph get lawful same_text same_text helper token acme null false before
      "globex/support/s1" refl

-- A reply with its thinking, in chunks, after the label of the router.
abbrev thinking : Json
thinking =
    object (field "type" (string "thinking") (field "thinking" (string "They greet me.") no_fields))

abbrev answer_block : Json
answer_block = object (field "type" (string "text") (field "text" (string "Hello!") no_fields))

abbrev chunk : Message
chunk = record (new_message ai_chunk "") {
  content = array (item thinking (item answer_block no_items));
}

abbrev items : List Item
items =
    messages (new_message ai_chunk "support") (some "classify")
    ∷ messages chunk (some "agent")
    ∷ updates (interrupts (string "refund?" ∷ []) ∷ [])
    ∷ []

stream_graph-private_example :
    let turn = stream_graph same_text same_text unshown helper "t" (snapshot (some "c1")) in
    record (turn items none) { events = shown (turn items none).events }
    ≡ turn (map private items) none
stream_graph-private_example =
    stream_graph-private same_text same_text unshown helper "t" (snapshot (some "c1")) items none
      (refl, (refl, (refl, tt)))

stream_graph-Ended_example :
    Ended helper "t"
      (snapshot (some "c1"))
      (string "Hello!" ∷ [])
      (string "refund?" ∷ [])
      (stream_graph same_text same_text unshown helper "t" (snapshot (some "c1")) items none).events
unfolding streamed last_reply pending split_reasoning
stream_graph-Ended_example =
    stream_graph-Ended same_text same_text unshown helper "t" (snapshot (some "c1")) items

abbrev thought : Message
thought = record (new_message ai "") { content = array (item thinking no_items) }

abbrev arrivals : List Arrival
arrivals =
    map (λ (event : Event). record { at_ms = 7; event = event })
      (stream_graph same_text same_text unshown helper "t" (snapshot (some "c1")) items none).events

stream_frames-Tells_example :
    (front : List Frame) × (last : Frame) × (stream_frames "support" "s1" none (arrivals, none)
      ≡ front ++ last ∷ [])
    × Tells helper "t" (snapshot (some "c1")) (string "refund?" ∷ []) last
unfolding stream_graph pending
stream_frames-Tells_example =
    stream_frames-Tells same_text same_text unshown helper "t" (snapshot (some "c1")) items
      "support" "s1" none arrivals refl

-- Two turns of a tracer whose prompts, replies and tools' arguments differ.
abbrev first_turn : List Callback
first_turn =
    chat_model_start "1" none "openai/gpt" (string "my card is 4111") no_fields
    ∷ tool_start "2" (some "1") (some "charge") "4111" null
    ∷ tool_end "2" "paid by ann"
    ∷ []

abbrev second_turn : List Callback
second_turn =
    chat_model_start "1" none "openai/gpt" (string "hello") no_fields
    ∷ tool_start "2" (some "1") (some "charge") "4242" null
    ∷ tool_end "2" "paid by bob"
    ∷ []

abbrev one_hash : String → Json → Fields → String
one_hash model content params = "h"

abbrev no_price : String → ℕ → ℕ → Option Json
no_price model input output = none

abbrev traced : List Callback → List Action × Open
traced callbacks =
    on_callbacks no_price false [] same_text unshown unshown one_hash (λ run. false) [] callbacks
      record { spans = []; model_ids = []; next_span = 0 }

on_callbacks-AllAlike_example : traced first_turn ≡ traced second_turn
on_callbacks-AllAlike_example =
    on_callbacks-AllAlike no_price [] same_text unshown unshown one_hash (λ run. false) []
      first_turn second_turn record { spans = []; model_ids = []; next_span = 0 }
      (then_alike (chats refl) (then_alike called (then_alike returned none_left)))

abbrev server : McpServerSpec
server = record {
  transport = stdio;
  command = some "python";
  args = [];
  url = none;
  headers = none;
}

abbrev shop : AgentSpec
shop = record support {
  tools = some ("charge" ∷ []);
  mcp = some (("books", server) ∷ []);
  allowed_tools = some ("charge" ∷ "search" ∷ []);
  confirm_writes = true;
}

abbrev write_tool : String → Result NativeTool
write_tool ref = ok record { name = ref; side_effecting = true }

abbrev lists : String → McpServerSpec → Result (List String)
lists name config = ok ("search" ∷ "delete" ∷ [])

abbrev bound : List BoundTool
bound =
    record { name = "charge"; origin = wrapped true true }
    ∷ record { name = "search"; origin = of_server "books" }
    ∷ []

resolve_tools-Declared_example :
    All
      (λ tool.
        Declared write_tool lists true ("charge" ∷ []) (("books", server) ∷ []) tool
        × (elem tool.name ("charge" ∷ "search" ∷ []) ≡ true))
      bound
unfolding resolve_tools
resolve_tools-Declared_example =
    resolve_tools-Declared write_tool lists shop
      {result = (bound, ("search", "books") ∷ ("delete", "books") ∷ [])} refl
