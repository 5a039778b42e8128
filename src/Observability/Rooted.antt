-- ===== src/Observability/Rooted.antt =====
-- Recordings that hold a tree, and what keeps them doing so.
use agent_ship.Prelude.{
  ℕ, zero, suc, ◌+◌, ◌≤◌, ◌<◌, ◌≡◌, refl, ap, ◌∙◌, Option, none, some, List, [], ◌∷◌, ◌++◌, length,
  arith,
}
use agent_ship.Observability.Tree.{SpanNode, node, Children, bare, child}
use agent_ship.Observability.Recorder.{Recording, at, freeze, freeze_all, frozen}
use agent_ship.Observability.Heap.{at-lt}

module _ {V : Type 0} where
  abbrev pub followed : Children V → Children V → Children V
  followed bare ms = ms
  followed (child n rest) ms = child n (followed rest ms)

  -- The recording `i` and those below it are the tree; children are younger than their parents, and
  -- none of the recordings is older than `least`.
  unfoldable mutual
    pub IsTree : List (Recording V) → ℕ → ℕ → SpanNode V → Type 0
    IsTree rs least i (node name kind attrs status children) =
        (is : List ℕ) × (at rs i
          ≡ some
              (record { name = name; kind = kind; attrs = attrs; status = status; children = is }))
        × (least ≤ i)
        × AreTrees rs (suc i) is children

    pub AreTrees : List (Recording V) → ℕ → List ℕ → Children V → Type 0
    AreTrees rs least [] bare = Unit
    AreTrees rs least (i ∷ is) (child n rest) = IsTree rs least i n × AreTrees rs least is rest
    AreTrees rs least _ _ = ⊥

  -- The recordings from `least` on are still what they were.
  abbrev Keeps : ℕ → List (Recording V) → List (Recording V) → Type 0
  Keeps least rs rs' = (i : ℕ) → least ≤ i → i < length rs → at rs' i ≡ at rs i

  mutual
    unfolding IsTree AreTrees

    pub IsTree-Keeps :
        (rs rs' : List (Recording V)) (least : ℕ) (i : ℕ) (n : SpanNode V)
        → Keeps least rs rs'
        → IsTree rs least i n
        → IsTree rs' least i n
    IsTree-Keeps rs rs' least i (node name kind attrs status children) k (is, here, le, below) = (
      is,
      k i le (at-lt rs i here) ∙ here,
      le,
      AreTrees-Keeps rs rs' (suc i) is children (λ j h. k j (omega arith)) below,
    )

    pub AreTrees-Keeps :
        (rs rs' : List (Recording V)) (least : ℕ) (is : List ℕ) (ns : Children V)
        → Keeps least rs rs'
        → AreTrees rs least is ns
        → AreTrees rs' least is ns
    AreTrees-Keeps rs rs' least [] bare k h = tt
    AreTrees-Keeps rs rs' least [] (child n rest) k h = h
    AreTrees-Keeps rs rs' least (i ∷ is) bare k h = h
    AreTrees-Keeps rs rs' least (i ∷ is) (child n rest) k (h, t) =
        (IsTree-Keeps rs rs' least i n k h, AreTrees-Keeps rs rs' least is rest k t)

  -- A recording with its children's trees below it is a tree.
  pub rooted-IsTree :
      (rs : List (Recording V)) (least i : ℕ) (r : Recording V) (ns : Children V)
      → at rs i ≡ some r
      → least ≤ i
      → AreTrees rs (suc i) r.children ns
      → IsTree rs least i (node r.name r.kind r.attrs r.status ns)
  unfolding IsTree
  rooted-IsTree rs least i r ns here le below = (r.children, here, le, below)

  pub IsTree-least :
      (rs : List (Recording V)) (least least' i : ℕ) (n : SpanNode V)
      → least' ≤ least
      → IsTree rs least i n
      → IsTree rs least' i n
  unfolding IsTree
  IsTree-least rs least least' i (node name kind attrs status children) h (is, here, le, below) =
      (is, here, omega arith, below)

  AreTrees-least :
      (rs : List (Recording V)) (least least' : ℕ) (is : List ℕ) (ns : Children V)
      → least' ≤ least
      → AreTrees rs least is ns
      → AreTrees rs least' is ns
  unfolding AreTrees
  AreTrees-least rs least least' [] bare le h = tt
  AreTrees-least rs least least' [] (child n rest) le h = h
  AreTrees-least rs least least' (i ∷ is) bare le h = h
  AreTrees-least rs least least' (i ∷ is) (child n rest) le (h, t) =
      (IsTree-least rs least least' i n le h, AreTrees-least rs least least' is rest le t)

  pub AreTrees-append :
      (rs : List (Recording V)) (least : ℕ) (is js : List ℕ) (ns ms : Children V)
      → AreTrees rs least is ns
      → AreTrees rs least js ms
      → AreTrees rs least (is ++ js) (followed ns ms)
  unfolding AreTrees
  AreTrees-append rs least [] js bare ms h h' = h'
  AreTrees-append rs least [] js (child n rest) ms h h' = absurd h
  AreTrees-append rs least (i ∷ is) js bare ms h h' = absurd h
  AreTrees-append rs least (i ∷ is) js (child n rest) ms (h, t) h' =
      (h, AreTrees-append rs least is js rest ms t h')

  IsTree-lt :
      (rs : List (Recording V)) (least i : ℕ) (n : SpanNode V) → IsTree rs least i n → i < length rs
  unfolding IsTree
  IsTree-lt rs least i (node name kind attrs status children) (is, here, le, below) =
      at-lt rs i here

  IsTree-le :
      (rs : List (Recording V)) (least i : ℕ) (n : SpanNode V) → IsTree rs least i n → least ≤ i
  unfolding IsTree
  IsTree-le rs least i (node name kind attrs status children) (is, here, le, below) = le

  freeze-at :
      (rs : List (Recording V)) (fuel i : ℕ) {r : Recording V}
      → at rs i ≡ some r
      → freeze (suc fuel) rs i ≡ frozen r (freeze_all (freeze fuel rs) r.children)
  unfolding freeze
  freeze-at rs fuel i {r} h =
      ap
        (λ (o : Option (Recording V)). elim o as (λ _. Option (SpanNode V)) [
          | none ↦ none
          | some q ↦ frozen q (freeze_all (freeze fuel rs) q.children)
        ])
        h

  -- Freezing finds the tree, with fuel for as many recordings as there are from its root on.
  mutual
    unfolding IsTree AreTrees freeze

    freeze-IsTree :
        (rs : List (Recording V)) (fuel least i : ℕ) (n : SpanNode V)
        → length rs ≤ i + fuel
        → IsTree rs least i n
        → freeze fuel rs i ≡ some n
    freeze-IsTree rs zero least i n enough h = absurd (omega (arith, IsTree-lt rs least i n h))
    freeze-IsTree rs (suc fuel) least i (node name kind attrs status children) enough
          (is, here, le, below) =
        freeze-at rs fuel i here
        ∙ ap
            (frozen
              (record { name = name; kind = kind; attrs = attrs; status = status; children = is }))
            (freeze_all-AreTrees rs fuel (suc i) is children (omega arith) below)

    pub freeze_all-AreTrees :
        (rs : List (Recording V)) (fuel least : ℕ) (is : List ℕ) (ns : Children V)
        → length rs ≤ least + fuel
        → AreTrees rs least is ns
        → freeze_all (freeze fuel rs) is ≡ some ns
    freeze_all-AreTrees rs fuel least [] bare enough h = refl
    freeze_all-AreTrees rs fuel least [] (child n rest) enough h = absurd h
    freeze_all-AreTrees rs fuel least (i ∷ is) bare enough h = absurd h
    freeze_all-AreTrees rs fuel least (i ∷ is) (child n rest) enough (h, t) =
        rw
          (
            freeze-IsTree rs fuel least i n (omega (arith, IsTree-le rs least i n h)) h,
            freeze_all-AreTrees rs fuel least is rest enough t,
          )
          refl
