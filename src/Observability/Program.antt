-- ===== src/Observability/Program.antt =====
-- A turn's spans as they nest: what happens in each, the tree of it, and the recording of it.
use agent_ship.Prelude.{ℕ, String, none, List, [], ◌∷◌, if◌then◌else◌, length}
use agent_ship.Dict.{Dict, put}
use agent_ship.Observability.Tree.{
  SpanKind, Status, succeeded, errored, SpanNode, node, Children, bare, child,
}
use agent_ship.Observability.Recorder.{
  Recorder, change, set_attributes, annotate_model, is_llm, enter_span, exit_span, Ending, ended,
  abandoned, raised,
}

-- What happens in a span, in order: attributes are set on it, a model's usage is reported, or a span is
-- opened inside it and closed again.
mutual
  pub data Block (V : Type 0) : Type 0 where
    block :
        (name : String) (kind : SpanKind) (attrs : Dict V) (body : Actions V) (ending : Ending)
        → Block V

  pub data Actions (V : Type 0) : Type 0 where
    stop : Actions V
    sets : Dict V → Actions V → Actions V
    annotates : Dict V → Actions V → Actions V
    within : Block V → Actions V → Actions V

abbrev status_of : Ending → Status
status_of ended = succeeded
status_of abandoned = succeeded
status_of (raised e) = errored

module _ {V : Type 0} where
  -- The attributes of the specification: each entry in its turn, with the last value of a key.
  unfoldable pub updated : Dict V → Dict V → Dict V
  updated attrs [] = attrs
  updated attrs (entry ∷ entries) = updated (put attrs entry.0 entry.1) entries

  -- the attributes of a span after what happens in it
  abbrev pub attrs_after : SpanKind → Dict V → Actions V → Dict V
  attrs_after kind attrs stop = attrs
  attrs_after kind attrs (sets more rest) = attrs_after kind (updated attrs more) rest
  attrs_after kind attrs (annotates more rest) =
      attrs_after kind (if is_llm kind then updated attrs more else attrs) rest
  attrs_after kind attrs (within b rest) = attrs_after kind attrs rest

module _ {V : Type 0} (text : String → V) where
  abbrev attrs_at_end : Ending → Dict V → Dict V
  attrs_at_end ended attrs = attrs
  attrs_at_end abandoned attrs = attrs
  attrs_at_end (raised e) attrs =
      put (put attrs "exception.type" (text e.type_name)) "exception.message" (text e.message)

  -- The tree of what happened: the specification.
  unfoldable mutual
    pub tree_of : Block V → SpanNode V
    tree_of (block name kind attrs body ending) =
        node name kind (attrs_at_end ending (attrs_after kind attrs body)) (status_of ending)
          (trees_of body)

    pub trees_of : Actions V → Children V
    trees_of stop = bare
    trees_of (sets more rest) = trees_of rest
    trees_of (annotates more rest) = trees_of rest
    trees_of (within b rest) = child (tree_of b) (trees_of rest)

  unfoldable pub forest_of : List (Block V) → Children V
  unfolding tree_of
  forest_of [] = bare
  forest_of (b ∷ bs) = child (tree_of b) (forest_of bs)

module _ {V : Type 0} (text : String → V) (fresh : String) where
  -- The same, through the recorder. `i` is the span that the actions happen in.
  unfoldable mutual
    unfolding enter_span exit_span annotate_model change

    pub record_block : Block V → Recorder V → Recorder V
    record_block (block name kind attrs body ending) s =
        exit_span text (length s.recordings) s.current ending
          (record_actions (length s.recordings) body (enter_span name kind attrs fresh s))

    pub record_actions : ℕ → Actions V → Recorder V → Recorder V
    record_actions i stop s = s
    record_actions i (sets more rest) s = record_actions i rest (set_attributes i more s)
    record_actions i (annotates more rest) s = record_actions i rest (annotate_model more s)
    record_actions i (within b rest) s = record_actions i rest (record_block b s)

  -- several spans, one after the other
  unfoldable pub record_all : List (Block V) → Recorder V → Recorder V
  unfolding record_block
  record_all [] s = s
  record_all (b ∷ bs) s = record_all bs (record_block b s)

abbrev pub no_recording : {V : Type 0} → Recorder V
no_recording = record { recordings = []; roots = []; current = none; trace_id = none }
