-- ===== src/Observability/Steps.antt =====
-- The recorder's objects after each of its steps, and the tree of what happened by then.
use mathlib.Core.List.{append-nil, append_assoc}
use agent_ship.Prelude.{
  ℕ, suc, ◌≤◌, ◌<◌, ◌≡◌, ◌≢◌, refl, sym, ap, subst, ◌∙◌, String, Option, none, some, List, [], ◌∷◌,
  ◌++◌, if◌then◌else◌, length, arith, Bool-cases, inl, inr,
}
use agent_ship.Dict.{Dict, put}
use agent_ship.Observability.Tree.{SpanKind}
use agent_ship.Observability.Recorder.{
  Recording, Recorder, at, change, put_attrs, with_attrs, with_child, set_attributes, annotated,
  annotate_model, is_llm, opened, enter_span, exit_span, closed, Ending, ended, abandoned, raised,
}
use agent_ship.Observability.Heap.{at-lt, length-change, at-change, at-change_other}
use agent_ship.Observability.Entered.{
  attach, root, entered-roots, entered-current, length-entered, at-entered, at-entered_older,
}
use agent_ship.Observability.Rooted.{
  IsTree, AreTrees, rooted-IsTree, IsTree-Keeps, AreTrees-Keeps, IsTree-least,
}
use agent_ship.Observability.Program.{
  Block, block, Actions, stop, sets, annotates, within, updated, attrs_after, tree_of, trees_of,
  record_block, record_actions,
}

module _ {V : Type 0} (text : String → V) (fresh : String) where
  pub record BlockDone (b : Block V) (s s' : Recorder V) : Type 0 where
    pub tree : IsTree s'.recordings (length s.recordings) (length s.recordings) (tree_of text b)
    pub older :
        (j : ℕ)
        → j < length s.recordings
        → at s'.recordings j ≡ at (attach s.current (length s.recordings) s.recordings) j
    pub longer : length s.recordings < length s'.recordings
    pub current : s'.current ≡ s.current
    pub roots : s'.roots ≡ root s.current (length s.recordings) s.roots

  put_attrs-updated : (attrs more : Dict V) → put_attrs attrs more ≡ updated attrs more
  unfolding put_attrs updated
  put_attrs-updated attrs [] = refl
  put_attrs-updated attrs ((k, v) ∷ more) = put_attrs-updated (put attrs k v) more

  record ActionsDone (i : ℕ) (acts : Actions V) (r : Recording V) (s s' : Recorder V) : Type 0 where
    pub ids : List ℕ
    pub own :
        at s'.recordings i
        ≡ some (record r { attrs = attrs_after r.kind r.attrs acts; children = r.children ++ ids })
    pub below : AreTrees s'.recordings (suc i) ids (trees_of text acts)
    pub older : (j : ℕ) → j < length s.recordings → j ≢ i → at s'.recordings j ≡ at s.recordings j
    pub longer : length s.recordings ≤ length s'.recordings
    pub current : s'.current ≡ s.current
    pub roots : s'.roots ≡ s.roots

  -- one action that only changes the span's own attributes
  changed-ActionsDone :
      (i : ℕ) (acts rest : Actions V) (r : Recording V) (attrs : Dict V)
      (f : Recording V → Recording V) (s s' : Recorder V)
      → attrs_after r.kind attrs rest ≡ attrs_after r.kind r.attrs acts
      → trees_of text rest ≡ trees_of text acts
      → ActionsDone i rest
          (record r { attrs = attrs })
          (record s { recordings = change s.recordings i f })
          s'
      → ActionsDone i acts r s s'
  changed-ActionsDone i acts rest r attrs f s s' same_attrs same_trees d = record {
    ids = d.ids;
    own =
        d.own
        ∙ ap (λ (a : Dict V). some (record r { attrs = a; children = r.children ++ d.ids }))
            same_attrs;
    below = subst (AreTrees s'.recordings (suc i) d.ids) same_trees d.below;
    older = λ j lt ne.
        d.older j (omega (arith, length-change s.recordings i f)) ne
        ∙ at-change_other s.recordings i j f (λ e. ne (sym e));
    longer = omega (arith, d.longer, length-change s.recordings i f);
    current = d.current;
    roots = d.roots;
  }

  -- a block inside the span, then the rest
  within-ActionsDone :
      (i : ℕ) (b : Block V) (rest : Actions V) (r : Recording V) (s s1 s' : Recorder V)
      → i < length s.recordings
      → s.current ≡ some i
      → BlockDone b s s1
      → ActionsDone i rest (with_child (length s.recordings) r) s1 s'
      → ActionsDone i (within b rest) r s s'
  unfolding tree_of AreTrees
  within-ActionsDone i b rest r s s1 s' lt cur bd d = record {
    ids = length s.recordings ∷ d.ids;
    own =
        d.own
        ∙ ap
            (λ (is : List ℕ).
              some (record r { attrs = attrs_after r.kind r.attrs rest; children = is }))
            (append_assoc r.children (length s.recordings ∷ []) d.ids);
    below = (
      IsTree-least s'.recordings (length s.recordings) (suc i) (length s.recordings)
          (tree_of text b) (omega arith)
          (IsTree-Keeps s1.recordings s'.recordings (length s.recordings) (length s.recordings)
            (tree_of text b) (λ j le l. d.older j l (λ e. ground (arith, e))) bd.tree),
      d.below,
    );
    older = λ j l ne.
        d.older j (omega (arith, bd.longer)) ne
        ∙ bd.older j l
        ∙ subst
            (λ (c : Option ℕ).
              at (attach c (length s.recordings) s.recordings) j ≡ at s.recordings j)
            (sym cur)
            (at-change_other s.recordings i j (with_child (length s.recordings)) (λ e. ne (sym e)));
    longer = omega (arith, bd.longer, d.longer);
    current = d.current ∙ bd.current;
    roots =
        d.roots
        ∙ bd.roots
        ∙ subst (λ (c : Option ℕ). root c (length s.recordings) s.roots ≡ s.roots) (sym cur) refl;
  }

  module _ (name : String) (kind : SpanKind) (attrs : Dict V) (body : Actions V) where
    abbrev at_end : List ℕ → Recording V
    at_end ids = record (opened name kind attrs) {
      attrs = attrs_after kind attrs body;
      children = ids;
    }

    closed-IsTree :
        (ending : Ending) (rs : List (Recording V)) (i : ℕ) (ids : List ℕ)
        → at rs i ≡ some (closed text ending (at_end ids))
        → AreTrees rs (suc i) ids (trees_of text body)
        → IsTree rs i i (tree_of text (block name kind attrs body ending))
    unfolding tree_of put put_attrs
    closed-IsTree ended rs i ids here below =
        rooted-IsTree rs i i (at_end ids) (trees_of text body) here (omega arith) below
    closed-IsTree abandoned rs i ids here below =
        rooted-IsTree rs i i (at_end ids) (trees_of text body) here (omega arith) below
    closed-IsTree (raised e) rs i ids here below =
        rooted-IsTree rs i i (closed text (raised e) (at_end ids)) (trees_of text body) here
          (omega arith) below

    -- the span, opened, used and closed again
    block-BlockDone :
        (ending : Ending) (s s1 : Recorder V)
        → ActionsDone
            (length s.recordings)
            body
            (opened name kind attrs)
            (enter_span name kind attrs fresh s)
            s1
        → BlockDone
            (block name kind attrs body ending)
            s
            (exit_span text (length s.recordings) s.current ending s1)
    unfolding exit_span
    block-BlockDone ending s s1 d =
        let i = length s.recordings in
        let changed = change s1.recordings i (closed text ending) in
        record {
          tree =
              closed-IsTree ending changed i d.ids
                (at-change s1.recordings i (closed text ending) d.own)
                (AreTrees-Keeps s1.recordings changed (suc i) d.ids (trees_of text body)
                  (λ j le l.
                    at-change_other s1.recordings i j (closed text ending) (λ e. omega (arith, e)))
                  d.below);
          older = λ j lt.
              at-change_other s1.recordings i j (closed text ending) (λ e. omega (arith, e))
              ∙ d.older j (omega (arith, length-entered fresh name kind attrs s))
                  (λ e. omega (arith, e))
              ∙ at-entered_older fresh name kind attrs s j lt;
          longer = omega (
            arith,
            d.longer,
            length-entered fresh name kind attrs s,
            length-change s1.recordings i (closed text ending),
          );
          current = refl;
          roots = d.roots ∙ entered-roots fresh name kind attrs s;
        }

  annotate_model-current :
      (i : ℕ) (more : Dict V) (s : Recorder V)
      → s.current ≡ some i
      → annotate_model more s ≡ record s { recordings = change s.recordings i (annotated more) }
  unfolding annotate_model
  annotate_model-current i more s h =
      ap
        (λ (c : Option ℕ). elim c as (λ _. Recorder V) [
          | none ↦ s
          | some j ↦ record s { recordings = change s.recordings j (annotated more) }
        ])
        h

  annotated-attrs :
      (more : Dict V) (r : Recording V)
      → annotated more r
        ≡ record r { attrs = if is_llm r.kind then put_attrs r.attrs more else r.attrs }
  annotated-attrs more r = elim (Bool-cases (is_llm r.kind)) [
    | inl e ↦ rw e refl
    | inr e ↦ rw e refl
  ]

  stop-ActionsDone :
      (i : ℕ) (r : Recording V) (s : Recorder V)
      → at s.recordings i ≡ some r
      → ActionsDone i stop r s s
  unfolding tree_of AreTrees
  stop-ActionsDone i r s h = record {
    ids = [];
    own = h ∙ ap (λ (is : List ℕ). some (record r { children = is })) (sym (append-nil r.children));
    below = tt;
    older = λ j lt ne. refl;
    longer = omega arith;
    current = refl;
    roots = refl;
  }

  mutual
    unfolding record_block record_actions tree_of trees_of

    pub record_block-BlockDone :
        (b : Block V) (s : Recorder V) → BlockDone b s (record_block text fresh b s)
    record_block-BlockDone (block name kind attrs body ending) s =
        block-BlockDone name kind attrs body ending s
          (record_actions text fresh (length s.recordings) body
            (enter_span name kind attrs fresh s))
          (record_actions-ActionsDone (length s.recordings) body (opened name kind attrs)
            (enter_span name kind attrs fresh s) (at-entered fresh name kind attrs s)
            (entered-current fresh name kind attrs s))

    record_actions-ActionsDone :
        (i : ℕ) (acts : Actions V) (r : Recording V) (s : Recorder V)
        → at s.recordings i ≡ some r
        → s.current ≡ some i
        → ActionsDone i acts r s (record_actions text fresh i acts s)
    record_actions-ActionsDone i stop r s h cur = stop-ActionsDone i r s h
    record_actions-ActionsDone i (sets more rest) r s h cur =
        changed-ActionsDone i (sets more rest) rest r (put_attrs r.attrs more) (with_attrs more) s _
          (ap (λ (a : Dict V). attrs_after r.kind a rest) (put_attrs-updated r.attrs more)) refl
          (record_actions-ActionsDone i rest (with_attrs more r) (set_attributes i more s)
            (at-change s.recordings i (with_attrs more) h) cur)
    record_actions-ActionsDone i (annotates more rest) r s h cur =
        let same = annotate_model-current i more s cur in
        let attrs : Dict V = if is_llm r.kind then put_attrs r.attrs more else r.attrs in
        changed-ActionsDone i (annotates more rest) rest r attrs (annotated more) s _
          (ap (λ (a : Dict V). attrs_after r.kind (if is_llm r.kind then a else r.attrs) rest)
            (put_attrs-updated r.attrs more))
          refl
          (subst
            (λ (t : Recorder V).
              ActionsDone i rest (record r { attrs = attrs }) t
                (record_actions text fresh i rest (annotate_model more s)))
            same
            (record_actions-ActionsDone i rest (record r { attrs = attrs }) (annotate_model more s)
              (ap (λ (t : Recorder V). at t.recordings i) same
                ∙ at-change s.recordings i (annotated more) h
                ∙ ap some (annotated-attrs more r))
              (ap (λ (t : Recorder V). t.current) same ∙ cur)))
    record_actions-ActionsDone i (within b rest) r s h cur =
        let bd = record_block-BlockDone b s in
        within-ActionsDone i b rest r s (record_block text fresh b s) _ (at-lt s.recordings i h) cur
          bd
          (record_actions-ActionsDone i rest (with_child (length s.recordings) r)
            (record_block text fresh b s)
            (bd.older i (at-lt s.recordings i h)
              ∙ ap (λ (c : Option ℕ). at (attach c (length s.recordings) s.recordings) i) cur
              ∙ at-change s.recordings i (with_child (length s.recordings)) h)
            (bd.current ∙ cur))
