-- ===== src/Observability/Recorder.antt =====
-- recorder.py: spans recorded as objects that refer to each other, and frozen into a tree.
use agent_ship.Prelude.{
  ℕ, zero, suc, String, Bool, true, false, Option, none, some, List, [], ◌∷◌, ◌++◌, if◌then◌else◌,
  length,
}
use agent_ship.Dict.{Dict, put}
use agent_ship.Observability.Tree.{
  SpanKind, llm, Status, succeeded, errored, SpanNode, node, Children, bare, child,
}

pub record Exception : Type 0 where
  pub type_name : String
  pub message : String

-- A recording's children are references: the number of a recording is when it was made.
pub record Recording (V : Type 0) : Type 0 where
  pub name : String
  pub kind : SpanKind
  pub attrs : Dict V
  pub status : Status
  pub children : List ℕ

pub record Recorder (V : Type 0) : Type 0 where
  pub recordings : List (Recording V)
  pub roots : List ℕ
  pub current : Option ℕ
  pub trace_id : Option String

abbrev pub minted : String → Option String → Option String
minted fresh none = some fresh
minted fresh (some trace_id) = some trace_id

abbrev pub is_llm : SpanKind → Bool
is_llm llm = true
is_llm _ = false

-- How a `with` block ends: by its end, by GeneratorExit, or by another exception.
pub data Ending : Type 0 where
  ended abandoned : Ending
  raised : Exception → Ending

module _ {V : Type 0} where
  -- the object behind a reference
  unfoldable pub at : List (Recording V) → ℕ → Option (Recording V)
  at [] i = none
  at (r ∷ rs) zero = some r
  at (r ∷ rs) (suc i) = at rs i

  unfoldable pub change : List (Recording V) → ℕ → (Recording V → Recording V) → List (Recording V)
  change [] i f = []
  change (r ∷ rs) zero f = f r ∷ rs
  change (r ∷ rs) (suc i) f = r ∷ change rs i f

  abbrev pub update : Recorder V → ℕ → (Recording V → Recording V) → Recorder V
  update s i f = record s { recordings = change s.recordings i f }

  -- attrs.update(more)
  unfoldable pub put_attrs : Dict V → Dict V → Dict V
  put_attrs attrs [] = attrs
  put_attrs attrs ((k, v) ∷ more) = put_attrs (put attrs k v) more

  abbrev pub with_attrs : Dict V → Recording V → Recording V
  with_attrs more r = record r { attrs = put_attrs r.attrs more }

  abbrev pub with_child : ℕ → Recording V → Recording V
  with_child i r = record r { children = r.children ++ i ∷ [] }

  abbrev pub set_attributes : ℕ → Dict V → Recorder V → Recorder V
  set_attributes i more s = update s i (with_attrs more)

  -- A new recording becomes a root, or a child of `parent`.
  unfoldable pub add : Option ℕ → Recording V → String → Recorder V → Recorder V
  unfolding change
  add none r fresh s = record s {
    recordings = s.recordings ++ r ∷ [];
    roots = s.roots ++ length s.recordings ∷ [];
    trace_id = minted fresh s.trace_id;
  }
  add (some parent) r fresh s = record s {
    recordings = change s.recordings parent (with_child (length s.recordings)) ++ r ∷ [];
  }

  abbrev pub opened : String → SpanKind → Dict V → Recording V
  opened name kind attrs = record {
    name = name;
    kind = kind;
    attrs = attrs;
    status = succeeded;
    children = [];
  }

  -- `span`, up to its block: the new recording is the current one
  unfoldable pub enter_span : String → SpanKind → Dict V → String → Recorder V → Recorder V
  unfolding add
  enter_span name kind attrs fresh s = record (add s.current (opened name kind attrs) fresh s) {
    current = some (length s.recordings);
  }

  -- `start_span`: nested under `parent`, or else under the current span, which stays the current one
  unfoldable start_span : String → SpanKind → Dict V → Option ℕ → String → Recorder V → Recorder V
  unfolding add
  start_span name kind attrs none fresh s = add s.current (opened name kind attrs) fresh s
  start_span name kind attrs (some parent) fresh s =
      add (some parent) (opened name kind attrs) fresh s

  -- on_model and annotate_model: only a model span takes them
  abbrev pub annotated : Dict V → Recording V → Recording V
  annotated more r = if is_llm r.kind then with_attrs more r else r

  unfoldable pub annotate_model : Dict V → Recorder V → Recorder V
  unfolding change
  annotate_model more s = elim s.current [ none ↦ s | some i ↦ update s i (annotated more) ]

  module _ (text : String → V) where
    abbrev exception_attrs : Exception → Dict V
    exception_attrs e =
        ("exception.type", text e.type_name) ∷ ("exception.message", text e.message) ∷ []

    abbrev with_error : Exception → Recording V → Recording V
    with_error e r = record (with_attrs (exception_attrs e) r) { status = errored }

    abbrev pub closed : Ending → Recording V → Recording V
    closed ended r = r
    closed abandoned r = r
    closed (raised e) r = with_error e r

    -- the end of the block of span `i`, inside which `token` is the span that was current before
    unfoldable pub exit_span : ℕ → Option ℕ → Ending → Recorder V → Recorder V
    unfolding change
    exit_span i token ending s = record (update s i (closed ending)) { current = token }

  -- `freeze`, on fuel: `none` where it runs out, or where a reference leads nowhere.
  abbrev pub frozen : Recording V → Option (Children V) → Option (SpanNode V)
  frozen r none = none
  frozen r (some children) = some (node r.name r.kind r.attrs r.status children)

  abbrev pub grown : Option (SpanNode V) → Option (Children V) → Option (Children V)
  grown (some n) (some rest) = some (child n rest)
  grown _ _ = none

  abbrev pub freeze_all : (ℕ → Option (SpanNode V)) → List ℕ → Option (Children V)
  freeze_all freeze_one [] = some bare
  freeze_all freeze_one (i ∷ is) = grown (freeze_one i) (freeze_all freeze_one is)

  unfoldable pub freeze : ℕ → List (Recording V) → ℕ → Option (SpanNode V)
  unfolding at
  freeze zero rs i = none
  freeze (suc fuel) rs i = elim (at rs i) [
    | none ↦ none
    | some r ↦ frozen r (freeze_all (freeze fuel rs) r.children)
  ]

  -- `roots`, with fuel for every recording
  unfoldable pub frozen_roots : Recorder V → Option (Children V)
  unfolding freeze
  frozen_roots s = freeze_all (freeze (length s.recordings) s.recordings) s.roots
