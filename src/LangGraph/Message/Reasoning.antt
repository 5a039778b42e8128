-- ===== src/LangGraph/Message/Reasoning.antt =====
-- What is reasoning in a message, and a message without it.
use agent_ship.Prelude.{
  String, ◌≡◌, refl, Bool, true, false, List, [], ◌∷◌, ◌==◌, ◌||◌, eq_iff, not, if◌then◌else◌,
  arith,
}
use agent_ship.Text.{join}
use agent_ship.Json.{
  Json, Items, Fields, null, flag, number, string, array, object, no_items, item, at, is_true,
}
use agent_ship.LangGraph.Message.{
  Message, is_reasoning_block, sort_block, sort_blocks, split_reasoning, parts_of,
}

abbrev named_reasoning : Json → Bool
named_reasoning (string kind) = is_reasoning_block kind
named_reasoning other = false

abbrev is_thinking : Json → Bool
is_thinking (object block) = named_reasoning (at block "type")
is_thinking other = false

unfoldable pub without_thinking : Items → Items
unfolding at
without_thinking no_items = no_items
without_thinking (item block blocks) =
    let rest = without_thinking blocks in if is_thinking block then rest else item block rest

abbrev pub answer_only : Json → Json
answer_only (array blocks) = array (without_thinking blocks)
answer_only other = other

-- the message with nothing in it but its answer
abbrev pub without_reasoning : Message → Message
without_reasoning message = record message {
  content = answer_only message.content;
  reasoning_content = null;
}

pub or_false : (a b : Bool) → a || b ≡ false → a ≡ false
or_false a b h = ground arith

falsy_text : (s : String) → not (s == "") ≡ false → join (s ∷ []) ≡ ""
falsy_text s h = let e : s ≡ "" = ground (arith, eq_iff s "", h) in rw e refl

-- A content that is false has no answer.
parts_of-falsy :
    (render : Json → String) (content : Json)
    → is_true content ≡ false
    → join (parts_of render content).1 ≡ ""
unfolding sort_blocks
parts_of-falsy render null h = refl
parts_of-falsy render (flag b) h = refl
parts_of-falsy render (number n) h = refl
parts_of-falsy render (string s) h = falsy_text s h
parts_of-falsy render (array no_items) h = refl
parts_of-falsy render (array (item v vs)) h = cc
parts_of-falsy render (object d) h = refl

pub falsy-answer_only :
    (content : Json) → is_true content ≡ false → is_true (answer_only content) ≡ false
unfolding without_thinking
falsy-answer_only null h = refl
falsy-answer_only (flag b) h = h
falsy-answer_only (number n) h = h
falsy-answer_only (string s) h = h
falsy-answer_only (array no_items) h = refl
falsy-answer_only (array (item v vs)) h = cc
falsy-answer_only (object d) h = h

module _ (render : Json → String) where
  -- A block of any type, before what its own parts are joined to.
  sort_block-without :
      (block : Fields) (kind : Json) (reasoning answer : List String)
      → (if named_reasoning kind then ([], answer) else sort_block render block kind ([], answer))
        ≡ ([], (sort_block render block kind (reasoning, answer)).1)
  sort_block-without block (string kind) reasoning answer = ground arith
  sort_block-without block null reasoning answer = refl
  sort_block-without block (flag b) reasoning answer = refl
  sort_block-without block (number n) reasoning answer = refl
  sort_block-without block (array values) reasoning answer = refl
  sort_block-without block (object d) reasoning answer = refl

  sort_blocks-if :
      (thinking : Bool) (block : Json) (rest : Items)
      → sort_blocks render (if thinking then rest else item block rest)
        ≡ (if thinking then sort_blocks render rest else sort_blocks render (item block rest))
  sort_blocks-if true block rest = refl
  sort_blocks-if false block rest = refl

  -- Without its reasoning blocks a content has the same answer, and no reasoning.
  sort_blocks-without_thinking :
      (blocks : Items)
      → sort_blocks render (without_thinking blocks) ≡ ([], (sort_blocks render blocks).1)
  unfolding sort_blocks without_thinking
  sort_blocks-without_thinking no_items = refl
  sort_blocks-without_thinking (item (object block) blocks) =
      rw
        (sort_blocks-if (named_reasoning (at block "type")) (object block)
          (without_thinking blocks))
        (rw (sort_blocks-without_thinking blocks) (
          sort_block-without block (at block "type") (sort_blocks render blocks).0
            (sort_blocks render blocks).1))
  sort_blocks-without_thinking (item null blocks) = rw (sort_blocks-without_thinking blocks)
  sort_blocks-without_thinking (item (flag b) blocks) = rw (sort_blocks-without_thinking blocks)
  sort_blocks-without_thinking (item (number n) blocks) = rw (sort_blocks-without_thinking blocks)
  sort_blocks-without_thinking (item (string s) blocks) = rw (sort_blocks-without_thinking blocks)
  sort_blocks-without_thinking (item (array a) blocks) = rw (sort_blocks-without_thinking blocks)

  parts_of-answer_only :
      (content : Json) → parts_of render (answer_only content) ≡ ([], (parts_of render content).1)
  parts_of-answer_only (array blocks) = sort_blocks-without_thinking blocks
  parts_of-answer_only (string s) = refl
  parts_of-answer_only null = refl
  parts_of-answer_only (flag b) = refl
  parts_of-answer_only (number n) = refl
  parts_of-answer_only (object d) = refl

  pub split_reasoning-without_reasoning :
      (message : Message)
      → split_reasoning render (without_reasoning message)
        ≡ ("", (split_reasoning render message).1)
  unfolding split_reasoning
  split_reasoning-without_reasoning message = rw (parts_of-answer_only message.content)

  pub split_reasoning-falsy :
      (m : Message) → is_true m.content ≡ false → (split_reasoning render m).1 ≡ ""
  unfolding split_reasoning
  split_reasoning-falsy m h = parts_of-falsy render m.content h
