-- ===== src/LangGraph/Message.antt =====
-- agentship_langgraph/engine.py: what the engine reads of a message, and `split_reasoning`.
pub mod Reasoning
use agent_ship.Prelude.{
  String, Bool, true, false, Option, none, some, List, [], ◌∷◌, ◌++◌, ◌||◌, ◌==◌, if◌then◌else◌,
}
use agent_ship.Text.{join}
use agent_ship.Json.{
  Json, Items, Fields, null, string, array, object, no_items, item, at, is_true, or_else, to_text,
}

pub data Kind : Type 0 where
  human system ai ai_chunk tool : Kind

pub record ToolCall : Type 0 where
  pub name : Json
  pub args : Json

-- The attributes that are read of a LangChain message; `reasoning_content` is that entry of its
-- additional_kwargs.
pub record Message : Type 0 where
  pub kind : Kind
  pub id : Option String
  pub name : Json
  pub content : Json
  pub reasoning_content : Json
  pub tool_calls : List ToolCall

-- the names of _REASONING_BLOCKS
abbrev pub is_reasoning_block : String → Bool
is_reasoning_block kind = kind == "thinking" || kind == "reasoning" || kind == "reasoning_content"

-- What a block of this type adds to the parts of the blocks after it.
abbrev pub sort_block :
    (Json → String) → Fields → Json → List String × List String → List String × List String
sort_block render block (string kind) (reasoning, answer) =
    if is_reasoning_block kind
    then (
      to_text render (
            or_else (at block kind)
              (or_else (at block "thinking") (or_else (at block "text") (string ""))))
          ∷ reasoning,
      answer,
    )
    else if kind == "text"
    then (reasoning, to_text render (or_else (at block "text") (string "")) ∷ answer)
    else (reasoning, answer)
sort_block render block other parts = parts

-- for block in content
unfoldable pub sort_blocks : (Json → String) → Items → List String × List String
unfolding at
sort_blocks render no_items = ([], [])
sort_blocks render (item (object block) blocks) =
    sort_block render block (at block "type") (sort_blocks render blocks)
sort_blocks render (item bare blocks) =
    let (reasoning, answer) = sort_blocks render blocks in (reasoning, to_text render bare ∷ answer)

abbrev pub parts_of : (Json → String) → Json → List String × List String
parts_of render (string s) = ([], s ∷ [])
parts_of render (array blocks) = sort_blocks render blocks
parts_of render other = ([], [])

abbrev out_of_band : (Json → String) → Json → List String
out_of_band render extra = if is_true extra then to_text render extra ∷ [] else []

-- The reasoning and the answer of a message; `render` is str on what is no text.
unfoldable pub split_reasoning : (Json → String) → Message → String × String
unfolding sort_blocks
split_reasoning render message =
    let (reasoning, answer) = parts_of render message.content in
    (join (reasoning ++ out_of_band render message.reasoning_content), join answer)
