-- ===== src/Observability/Tree.antt =====
-- trace_view.py and the names of semconv.py: a finished span tree, and its readers.
use Prim.Native.String.{◌++◌ as ◌<>◌}
use text.Mathlib.Text.{starts_with}
use agent_ship.Prelude.{
  String, Bool, Option, none, some, List, [], ◌∷◌, ◌++◌, ◌||◌, ◌==◌, if◌then◌else◌, keep,
}
use agent_ship.Dict.{Dict}

pub data SpanKind : Type 0 where
  agent llm tool internal : SpanKind

pub data Status : Type 0 where
  succeeded errored : Status

-- The children of a node are a list of their own, `bare` at its end.
mutual
  pub data SpanNode (V : Type 0) : Type 0 where
    node :
        (name : String) (kind : SpanKind) (attrs : Dict V) (status : Status) (children : Children V)
        → SpanNode V

  pub data Children (V : Type 0) : Type 0 where
    bare : Children V
    child : SpanNode V → Children V → Children V

abbrev pub name_of : {V : Type 0} → SpanNode V → String
name_of (node name kind attrs status children) = name

-- _walk: a node, then its descendants, depth first
unfoldable mutual
  pub walk : {V : Type 0} → SpanNode V → List (SpanNode V)
  walk (node name kind attrs status children) =
      node name kind attrs status children ∷ walk_children children

  pub walk_children : {V : Type 0} → Children V → List (SpanNode V)
  walk_children bare = []
  walk_children (child n rest) = walk n ++ walk_children rest

abbrev pub span_model : String
span_model = "model"

abbrev pub model_span_prefix : String
model_span_prefix = "chat "

abbrev pub tool_prefix : String
tool_prefix = "tool."

unfoldable is_model_span : String → Bool
is_model_span name = name == span_model || starts_with name model_span_prefix

-- model_span(model_id)
unfoldable pub model_span : Option String → String
model_span none = span_model
model_span (some model_id) = if model_id == "" then span_model else model_span_prefix <> model_id

unfoldable pub tool_span : String → String
tool_span name = tool_prefix <> name

unfoldable agent_span : String → String
agent_span agent_name = if agent_name == "" then "agent" else "agent" <> (" " <> agent_name)

module _ {V : Type 0} where
  unfoldable pub spans : Option String → SpanNode V → List (SpanNode V)
  unfolding walk
  spans none root = walk root
  spans (some name) root = keep (λ n. name_of n == name) (walk root)

  unfoldable model_spans : SpanNode V → List (SpanNode V)
  unfolding walk is_model_span
  model_spans root = keep (λ n. is_model_span (name_of n)) (walk root)

  unfoldable pub tool_calls : SpanNode V → List (SpanNode V)
  unfolding walk
  tool_calls root = keep (λ n. starts_with (name_of n) tool_prefix) (walk root)
