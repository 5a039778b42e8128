-- ===== src/Dict/Named.antt =====
-- Dicts `{v.name: v}`, whose values carry their key, and dicts with distinct keys.
use mathlib.Core.List.{append_assoc, append-nil, map-append}
use agent_ship.Prelude.{
  String, ◌≡◌, refl, ap, ◌∙◌, false, ◌||◌, List, [], ◌∷◌, ◌++◌, arith, eq_iff, elem, All,
}
use agent_ship.Dict.{Dict, put, keys, values, keys-put}

abbrev Distinct : List String → Type 0
Distinct [] = Unit
Distinct (x ∷ xs) = (elem x xs ≡ false) × Distinct xs

pub elem-append : (x : String) (xs ys : List String) → elem x (xs ++ ys) ≡ (elem x xs || elem x ys)
elem-append x [] ys = refl
elem-append x (y ∷ xs) ys = ground (arith, elem-append x xs ys)

Distinct-snoc :
    (xs : List String) (x : String) → Distinct xs → elem x xs ≡ false → Distinct (xs ++ x ∷ [])
Distinct-snoc [] x d h = (refl, tt)
Distinct-snoc (y ∷ xs) x d h =
    ground (arith, elem-append y xs (x ∷ []), Distinct-snoc xs x, eq_iff x y, eq_iff y x)

Distinct-put :
    {V : Type 0} (d : Dict V) (k : String) (v : V) → Distinct (keys d) → Distinct (keys (put d k v))
Distinct-put d k v h = rw (keys-put d k v) (ground (arith, Distinct-snoc (keys d) k h))

not-elem_of_Distinct-append :
    (xs : List String) (k : String) (ys : List String) → Distinct (xs ++ k ∷ ys) → elem k xs ≡ false
not-elem_of_Distinct-append [] k ys h = refl
not-elem_of_Distinct-append (x ∷ xs) k ys h =
    ground (
      arith,
      elem-append x xs (k ∷ ys),
      not-elem_of_Distinct-append xs k ys,
      eq_iff x k,
      eq_iff k x,
    )

module _ {V : Type 0} where
  put-append :
      (d : Dict V) (k : String) (v : V) → elem k (keys d) ≡ false → put d k v ≡ d ++ (k, v) ∷ []
  unfolding put keys
  put-append [] k v h = refl
  put-append ((j, w) ∷ d) k v h = ground (arith, put-append d k v, eq_iff j k, eq_iff k j)

  All-values-put :
      (Q : V → Type 0) (d : Dict V) (k : String) (v : V)
      → All Q (values d)
      → Q v
      → All Q (values (put d k v))
  unfolding values put
  All-values-put Q [] k v h q = (q, tt)
  All-values-put Q ((j, w) ∷ d) k v h q = ground (arith, All-values-put Q d k v h.1 q)

module _ {V : Type 0} (name : V → String) where
  -- the dict after `d[v.name] = v` for each of a list of values
  unfoldable pub put_all : Dict V → List V → Dict V
  put_all d [] = d
  put_all d (v ∷ vs) = put_all (put d (name v) v) vs

  pub All-values-put_all :
      (Q : V → Type 0) (d : Dict V) (vs : List V)
      → All Q (values d)
      → All Q vs
      → All Q (values (put_all d vs))
  unfolding put_all
  All-values-put_all Q d [] h q = h
  All-values-put_all Q d (v ∷ vs) h q =
      All-values-put_all Q (put d (name v) v) vs (All-values-put Q d (name v) v h q.0) q.1

  pub record IsNamed (d : Dict V) : Type 0 where
    pub named : All (λ e. e.0 ≡ name e.1) d
    pub distinct : Distinct (keys d)

  named-put :
      (d : Dict V) (v : V)
      → All (λ e. e.0 ≡ name e.1) d
      → All (λ e. e.0 ≡ name e.1) (put d (name v) v)
  unfolding put
  named-put [] v h = (refl, tt)
  named-put ((j, w) ∷ d) v h = ground (arith, named-put d v h.1, eq_iff j (name v))

  pub put_all-IsNamed : (d : Dict V) (vs : List V) → IsNamed d → IsNamed (put_all d vs)
  unfolding put_all
  put_all-IsNamed d [] h = h
  put_all-IsNamed d (v ∷ vs) h =
      put_all-IsNamed (put d (name v) v) vs
        (record { named = named-put d v h.named; distinct = Distinct-put d (name v) v h.distinct })

  put_all-append :
      (d e : Dict V)
      → Distinct (keys (d ++ e))
      → All (λ x. x.0 ≡ name x.1) e
      → put_all d (values e) ≡ d ++ e
  unfolding put_all values keys
  put_all-append d [] h n = rw append-nil
  put_all-append d ((k, v) ∷ e) h n =
      let fresh : elem k (keys d) ≡ false =
        not-elem_of_Distinct-append (keys d) k (keys e) (rw map-append at h) in
      let here : put d (name v) v ≡ d ++ (k, v) ∷ [] = rw (← n.0) (put-append d k v fresh) in
      ap (λ x. put_all x (values e)) here
      ∙ put_all-append (d ++ (k, v) ∷ []) e (rw append_assoc h) n.1
      ∙ append_assoc d ((k, v) ∷ []) e

  -- Rebuilding a dict from its values gives it back.
  pub put_all-values : (d : Dict V) → IsNamed d → put_all [] (values d) ≡ d
  put_all-values d h = put_all-append [] d h.distinct h.named
