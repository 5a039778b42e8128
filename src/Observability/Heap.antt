-- ===== src/Observability/Heap.antt =====
-- The recordings that a reference leads to, as they are changed and added to.
use agent_ship.Prelude.{
  ℕ, zero, suc, ◌<◌, ◌≡◌, ◌≢◌, refl, ap, some, List, [], ◌∷◌, ◌++◌, length, arith,
}
use agent_ship.Observability.Recorder.{Recording, at, change}

module _ {V : Type 0} where
  pub at-lt : (rs : List (Recording V)) (i : ℕ) {r : Recording V} → at rs i ≡ some r → i < length rs
  unfolding at
  at-lt [] i h = ground arith
  at-lt (r ∷ rs) zero h = omega arith
  at-lt (r ∷ rs) (suc i) h = omega (arith, at-lt rs i h)

  pub at-append :
      (rs : List (Recording V)) (r : Recording V) (i : ℕ)
      → i < length rs
      → at (rs ++ r ∷ []) i ≡ at rs i
  unfolding at
  at-append [] r i h = absurd (omega arith)
  at-append (q ∷ rs) r zero h = refl
  at-append (q ∷ rs) r (suc i) h = at-append rs r i (omega arith)

  pub at-append_new :
      (rs : List (Recording V)) (r : Recording V) → at (rs ++ r ∷ []) (length rs) ≡ some r
  unfolding at
  at-append_new [] r = refl
  at-append_new (q ∷ rs) r = at-append_new rs r

  pub length-change :
      (rs : List (Recording V)) (i : ℕ) (f : Recording V → Recording V)
      → length (change rs i f) ≡ length rs
  unfolding change
  length-change [] i f = refl
  length-change (r ∷ rs) zero f = refl
  length-change (r ∷ rs) (suc i) f = ap suc (length-change rs i f)

  pub at-change_other :
      (rs : List (Recording V)) (i j : ℕ) (f : Recording V → Recording V)
      → i ≢ j
      → at (change rs i f) j ≡ at rs j
  unfolding at change
  at-change_other [] i j f h = refl
  at-change_other (r ∷ rs) zero zero f h = absurd (h refl)
  at-change_other (r ∷ rs) zero (suc j) f h = refl
  at-change_other (r ∷ rs) (suc i) zero f h = refl
  at-change_other (r ∷ rs) (suc i) (suc j) f h = at-change_other rs i j f (λ e. h (ap suc e))

  pub at-change :
      (rs : List (Recording V)) (i : ℕ) (f : Recording V → Recording V) {r : Recording V}
      → at rs i ≡ some r
      → at (change rs i f) i ≡ some (f r)
  unfolding at change
  at-change [] i f h = ground arith
  at-change (r ∷ rs) zero f h = ground (arith, h)
  at-change (r ∷ rs) (suc i) f h = at-change rs i f h
