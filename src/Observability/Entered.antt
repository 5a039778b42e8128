-- ===== src/Observability/Entered.antt =====
-- What the recorder's objects are when a span is entered.
use agent_ship.Prelude.{
  ℕ, suc, ◌<◌, ◌≡◌, refl, sym, ap, subst, ◌∙◌, String, Option, none, some, List, [], ◌∷◌, ◌++◌,
  length, length-append, arith,
}
use agent_ship.Dict.{Dict}
use agent_ship.Observability.Tree.{SpanKind}
use agent_ship.Observability.Recorder.{
  Recording, Recorder, at, change, with_child, add, opened, enter_span,
}
use agent_ship.Observability.Heap.{at-append, at-append_new, length-change}

abbrev pub root : Option ℕ → ℕ → List ℕ → List ℕ
root none n roots = roots ++ n ∷ []
root (some parent) n roots = roots

module _ {V : Type 0} where
  abbrev pub attach : Option ℕ → ℕ → List (Recording V) → List (Recording V)
  attach none n rs = rs
  attach (some parent) n rs = change rs parent (with_child n)

module _ {V : Type 0} (fresh : String) where
  add-recordings :
      (o : Option ℕ) (r : Recording V) (s : Recorder V)
      → (add o r fresh s).recordings ≡ attach o (length s.recordings) s.recordings ++ r ∷ []
  unfolding add
  add-recordings none r s = refl
  add-recordings (some parent) r s = refl

  add-roots :
      (o : Option ℕ) (r : Recording V) (s : Recorder V)
      → (add o r fresh s).roots ≡ root o (length s.recordings) s.roots
  unfolding add
  add-roots none r s = refl
  add-roots (some parent) r s = refl

  length-attach :
      (o : Option ℕ) (n : ℕ) (rs : List (Recording V)) → length (attach o n rs) ≡ length rs
  length-attach none n rs = refl
  length-attach (some parent) n rs = length-change rs parent (with_child n)

  module _ (name : String) (kind : SpanKind) (attrs : Dict V) (s : Recorder V) where
    entered-recordings :
        (enter_span name kind attrs fresh s).recordings
        ≡ attach s.current (length s.recordings) s.recordings ++ opened name kind attrs ∷ []
    unfolding enter_span
    entered-recordings = add-recordings s.current (opened name kind attrs) s

    pub entered-roots :
        (enter_span name kind attrs fresh s).roots ≡ root s.current (length s.recordings) s.roots
    unfolding enter_span
    entered-roots = add-roots s.current (opened name kind attrs) s

    pub entered-current : (enter_span name kind attrs fresh s).current ≡ some (length s.recordings)
    unfolding enter_span
    entered-current = refl

    pub length-entered :
        length (enter_span name kind attrs fresh s).recordings ≡ suc (length s.recordings)
    length-entered =
        ap length entered-recordings
        ∙ omega (
          arith,
          length-append {0} (attach s.current (length s.recordings) s.recordings)
              (opened name kind attrs ∷ []),
          length-attach s.current (length s.recordings) s.recordings,
        )

    pub at-entered :
        at (enter_span name kind attrs fresh s).recordings (length s.recordings)
        ≡ some (opened name kind attrs)
    at-entered =
        subst
          (λ (rs : List (Recording V)). at rs (length s.recordings) ≡ some (opened name kind attrs))
          (sym entered-recordings)
          (subst
            (λ n.
              at
                (attach s.current (length s.recordings) s.recordings ++ opened name kind attrs ∷ [])
                n
              ≡ some (opened name kind attrs))
            (length-attach s.current (length s.recordings) s.recordings)
            (at-append_new (attach s.current (length s.recordings) s.recordings)
              (opened name kind attrs)))

    pub at-entered_older :
        (j : ℕ)
        → j < length s.recordings
        → at (enter_span name kind attrs fresh s).recordings j
          ≡ at (attach s.current (length s.recordings) s.recordings) j
    at-entered_older j lt =
        ap (λ (rs : List (Recording V)). at rs j) entered-recordings
        ∙ at-append (attach s.current (length s.recordings) s.recordings) (opened name kind attrs) j
            (omega (arith, length-attach s.current (length s.recordings) s.recordings))
