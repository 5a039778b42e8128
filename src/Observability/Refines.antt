-- ===== src/Observability/Refines.antt =====
-- The recorder and the tree of what happened.
use agent_ship.Prelude.{
  ℕ, ◌≡◌, refl, sym, ap, subst, ◌∙◌, String, Option, none, some, List, [], ◌∷◌, ◌++◌, length, arith,
}
use agent_ship.Observability.Tree.{Children, bare, child}
use agent_ship.Observability.Recorder.{Recorder, at, frozen_roots}
use agent_ship.Observability.Rooted.{
  AreTrees, IsTree-least, AreTrees-Keeps, AreTrees-append, freeze_all-AreTrees, followed,
}
use agent_ship.Observability.Program.{
  Block, tree_of, forest_of, record_block, record_all, no_recording,
}
use agent_ship.Observability.Entered.{attach, root}
use agent_ship.Observability.Steps.{record_block-BlockDone}

followed_assoc :
    {V : Type 0} (a b c : Children V) → followed (followed a b) c ≡ followed a (followed b c)
followed_assoc bare b c = refl
followed_assoc (child n a) b c = ap (child n) (followed_assoc a b c)

followed-bare : {V : Type 0} (a : Children V) → followed a bare ≡ a
followed-bare bare = refl
followed-bare (child n a) = ap (child n) (followed-bare a)

module _ {V : Type 0} (text : String → V) (fresh : String) where
  record_all-AreTrees :
      (bs : List (Block V)) (s : Recorder V) (ns : Children V)
      → s.current ≡ none
      → AreTrees s.recordings 0 s.roots ns
      → ((record_all text fresh bs s).current ≡ none)
        × AreTrees
            (record_all text fresh bs s).recordings
            0
            (record_all text fresh bs s).roots
            (followed ns (forest_of text bs))
  unfolding record_all forest_of AreTrees
  record_all-AreTrees [] s ns cur h =
      (cur, subst (AreTrees s.recordings 0 s.roots) (sym (followed-bare ns)) h)
  record_all-AreTrees (b ∷ bs) s ns cur h =
      let i = length s.recordings in
      let s1 = record_block text fresh b s in
      let bd = record_block-BlockDone text fresh b s in
      let kept : AreTrees s1.recordings 0 s.roots ns =
        AreTrees-Keeps s.recordings s1.recordings 0 s.roots ns
          (λ j le lt. bd.older j lt ∙ ap (λ (c : Option ℕ). at (attach c i s.recordings) j) cur)
          h in
      let added : AreTrees s1.recordings 0 (s.roots ++ i ∷ [])
          (followed ns (child (tree_of text b) bare)) =
        AreTrees-append s1.recordings 0 s.roots (i ∷ []) ns (child (tree_of text b) bare) kept
          (IsTree-least s1.recordings i 0 i (tree_of text b) (omega arith) bd.tree, tt) in
      let roots : s1.roots ≡ s.roots ++ i ∷ [] =
        bd.roots ∙ ap (λ (c : Option ℕ). root c i s.roots) cur in
      let (cur', trees) =
        record_all-AreTrees bs s1 (followed ns (child (tree_of text b) bare)) (bd.current ∙ cur) (
          subst
            (λ (is : List ℕ).
              AreTrees s1.recordings 0 is (followed ns (child (tree_of text b) bare)))
            (sym roots) added) in
      (
        cur',
        subst
            (AreTrees (record_all text fresh bs s1).recordings 0
              (record_all text fresh bs s1).roots)
            (followed_assoc ns (child (tree_of text b) bare) (forest_of text bs)) trees,
      )

  -- Whatever spans are opened by `with span` blocks, in whatever nesting, with whatever attributes are set on
  -- them in their blocks, and whether each block ends normally, by GeneratorExit or by another exception: the
  -- recorder's objects freeze to the tree of what happened, one root for each outermost span, and no span
  -- is left current. A span's attributes are those that it was opened with, then what was set on it, then
  -- the type and the message of the exception that ended it.
  pub record_all-forest_of :
      (bs : List (Block V))
      → (frozen_roots (record_all text fresh bs no_recording) ≡ some (forest_of text bs))
        × ((record_all text fresh bs no_recording).current ≡ none)
  unfolding frozen_roots AreTrees
  record_all-forest_of bs =
      let s = record_all text fresh bs no_recording in
      let (cur, trees) = record_all-AreTrees bs no_recording bare refl tt in
      (
        freeze_all-AreTrees s.recordings (length s.recordings) 0 s.roots (forest_of text bs)
            (omega arith) trees,
        cur,
      )
