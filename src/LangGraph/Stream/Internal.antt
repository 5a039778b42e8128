-- ===== src/LangGraph/Stream/Internal.antt =====
-- Which of LangGraph's items a streamed turn depends on.
use agent_ship.Prelude.{
  String, ◌≡◌, refl, ap, Bool, true, false, Option, List, [], ◌∷◌, not, keep, Bool-cases, inl, inr,
  arith,
}
use agent_ship.Json.{Json}
use agent_ship.LangGraph.Models.{Exception}
use agent_ship.LangGraph.Compiled.{CompiledAgent}
use agent_ship.LangGraph.Stream.{
  Item, updates, messages, Progress, start, Snapshot, is_internal, on_item, drive, finish,
  stream_graph,
}

-- An item that a node outside the internal ones has a part in.
abbrev is_external : List String → Item → Bool
is_external internal_nodes (updates payload) = true
is_external internal_nodes (messages message node) = not (is_internal internal_nodes node)

module _ (render : Json → String) (internal_nodes : List String) where
  on_item-internal :
      (i : Item) (p : Progress)
      → is_external internal_nodes i ≡ false
      → on_item render internal_nodes i p ≡ ([], p)
  unfolding on_item
  on_item-internal (updates payload) p h = cc
  on_item-internal (messages message node) p h =
      elim (Bool-cases (is_internal internal_nodes node)) [
        | inl e ↦ rw e refl
        | inr e ↦ ground arith
      ]

  drive-external :
      (items : List Item) (p : Progress)
      → drive render internal_nodes items p
        ≡ drive render internal_nodes (keep (is_external internal_nodes) items) p
  unfolding drive
  drive-external [] p = refl
  drive-external (i ∷ items) p = elim (Bool-cases (is_external internal_nodes i)) [
    | inl e ↦ rw (e, drive-external items (on_item render internal_nodes i p).1)
    | inr e ↦ rw (e, on_item-internal i p e) (drive-external items p)
  ]

-- A streamed turn is the same without the messages of the internal nodes: no event shows what they
-- said, and neither does how the stream ends.
stream_graph-external :
    (lower repr : String → String) (render : Json → String) (compiled : CompiledAgent)
    (thread_id : String) (state : Snapshot) (items : List Item) (failure : Option Exception)
    → stream_graph lower repr render compiled thread_id state items failure
      ≡ stream_graph lower repr render compiled thread_id state
          (keep (is_external compiled.internal_nodes) items)
          failure
unfolding stream_graph
stream_graph-external lower repr render compiled thread_id state items failure =
    ap (finish lower repr render compiled thread_id state failure)
      (drive-external render compiled.internal_nodes items start)
