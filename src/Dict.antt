-- ===== src/Dict.antt =====
-- Python's `dict` with text keys: entries stand in insertion order, and a write to a key that is
-- there keeps its place.
pub mod Named
use agent_ship.Prelude.{
  String, ◌≡◌, refl, true, Option, none, some, List, [], ◌∷◌, ◌++◌, map, arith, ◌==◌, eq_iff,
  eq_refl, if◌then◌else◌, elem,
}

abbrev pub Dict {ℓ} : Type ℓ → Type ℓ
Dict V = List (String × V)

module _ {ℓ} {V : Type ℓ} where
  -- the value at a key that is there: d.get(k)
  unfoldable pub get : Dict V → String → Option V
  get [] k = none
  get ((j, v) ∷ d) k = if j == k then some v else get d k

  -- d[k] = v
  unfoldable pub put : Dict V → String → V → Dict V
  put [] k v = (k, v) ∷ []
  put ((j, w) ∷ d) k v = let rest = put d k v in if j == k then (j, v) ∷ d else (j, w) ∷ rest

  -- list(d)
  unfoldable pub keys : Dict V → List String
  keys = map (λ e. e.0)

  -- list(d.values())
  unfoldable pub values : Dict V → List V
  values = map (λ e. e.1)

  pub get-put :
      (d : Dict V) (k j : String) (v : V) → get (put d k v) j ≡ (if k == j then some v else get d j)
  unfolding get put
  get-put [] k j v = refl
  get-put ((i, w) ∷ d) k j v = ground (arith, eq_iff k j, eq_iff i k, eq_iff i j, get-put d k j v)

  pub get-put_self : (d : Dict V) (k : String) (v : V) → get (put d k v) k ≡ some v
  get-put_self d k v = rw (get-put d k k v, eq_refl k)

  elem-keys-put :
      (d : Dict V) (k j : String) (v : V)
      → elem j (keys d) ≡ true
      → elem j (keys (put d k v)) ≡ true
  unfolding keys put
  elem-keys-put [] k j v h = ground arith
  elem-keys-put ((i, w) ∷ d) k j v h =
      ground (arith, eq_iff i k, eq_iff j i, eq_iff j k, elem-keys-put d k j v)

  -- A write to a key that is there keeps the list of keys.
  pub keys-put :
      (d : Dict V) (k : String) (v : V)
      → keys (put d k v) ≡ (if elem k (keys d) then keys d else keys d ++ k ∷ [])
  unfolding keys put
  keys-put [] k v = refl
  keys-put ((i, w) ∷ d) k v = ground (arith, eq_iff i k, eq_iff k i, keys-put d k v)
