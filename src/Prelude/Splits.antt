-- ===== src/Prelude/Splits.antt =====
-- Where a kept element stands in the list that it was kept from.
use Prim.Native.String.{String}
use native.Mathlib.Omega.{arith}
use text.Mathlib.TextPositions.{eq_refl}
use mathlib.Core.Path.{◌≡◌, refl, ap}
use mathlib.Core.Logic.{◌⊎◌, inl, inr}
use mathlib.Core.Bool.{Bool, true, false, ◌||◌}
use mathlib.Core.List.{List, [], ◌∷◌, ◌++◌, map}
use agent_ship.Prelude.Lists.{keep, All}
use agent_ship.Prelude.Tests.{Bool-cases}
use agent_ship.Prelude.Texts.{elem}

-- `w` stands in `xs`, with `P` of all before it and `Q` of all behind it.
pub record Split {ℓ} {A : Type ℓ} (P Q : A → Type 0) (w : A) (xs : List A) : Type ℓ where
  pub before : List A
  pub after : List A
  pub whole : xs ≡ before ++ w ∷ after
  pub all_before : All P before
  pub all_after : All Q after

module _ {A : Type 0} {P Q : A → Type 0} {w : A} where
  pub Split-cons : {xs : List A} (x : A) → P x → Split P Q w xs → Split P Q w (x ∷ xs)
  Split-cons x p s = record {
    before = x ∷ s.before;
    after = s.after;
    whole = ap (λ l. x ∷ l) s.whole;
    all_before = (p, s.all_before);
    all_after = s.all_after;
  }

  pub Split-here : (xs : List A) → All Q xs → Split P Q w (w ∷ xs)
  Split-here xs q = record { before = []; after = xs; whole = refl; all_before = tt; all_after = q }

module _ {A : Type 0} (p : A → Bool) (Q : A → Type 0) where
  pub All-keep : (xs : List A) → All Q (keep p xs) → All (λ x. (p x ≡ false) ⊎ Q x) xs
  All-keep [] q = tt
  All-keep (x ∷ xs) q = elim (Bool-cases (p x)) [
    | inl e ↦ let q' : Q x × All Q (keep p xs) = rw e at q in (inr q'.0, All-keep xs q'.1)
    | inr e ↦ (inl e, All-keep xs (rw e at q))
  ]

module _ {A : Type 0} where
  not_in_nil : (w : A) (before after : List A) → ¬ ([] ≡ before ++ w ∷ after)
  not_in_nil w [] after e = cc
  not_in_nil w (b ∷ bs) after e = cc

module _ {A : Type 0} (p : A → Bool) (P Q : A → Type 0) where
  abbrev Lifted : A → List A → Type 0
  Lifted w xs = Split (λ x. (p x ≡ false) ⊎ P x) (λ x. (p x ≡ false) ⊎ Q x) w xs

  Split-keep_cons :
      (w x : A) (xs before after : List A)
      → x ∷ keep p xs ≡ before ++ w ∷ after
      → All P before
      → All Q after
      → (Split P Q w (keep p xs) → Lifted w xs)
      → Lifted w (x ∷ xs)
  Split-keep_cons w x xs [] after e ps qs ih =
      let head : x ≡ w = cc in
      let tail : after ≡ keep p xs = cc in rw head (Split-here xs (All-keep p Q xs (rw tail at qs)))
  Split-keep_cons w x xs (b ∷ bs) after e ps qs ih =
      let head : b ≡ x = cc in
      Split-cons x (inr (rw head at ps.0))
        (ih (record { before = bs; after = after; whole = cc; all_before = ps.1; all_after = qs }))

  pub Split-keep : (w : A) (xs : List A) → Split P Q w (keep p xs) → Lifted w xs
  Split-keep w [] s = absurd (not_in_nil w s.before s.after s.whole)
  Split-keep w (x ∷ xs) s = elim (Bool-cases (p x)) [
    | inl e ↦
        Split-keep_cons w x xs s.before s.after (rw e at s.whole) s.all_before s.all_after
          (Split-keep w xs)
    | inr e ↦ Split-cons x (inl e) (Split-keep w xs (rw e at s))
  ]

module _ {A : Type 0} where
  pub All-keep_self : (p : A → Bool) (xs : List A) → All (λ x. p x ≡ true) (keep p xs)
  All-keep_self p [] = tt
  All-keep_self p (x ∷ xs) = elim (Bool-cases (p x)) [
    | inl e ↦ rw e (e, All-keep_self p xs)
    | inr e ↦ rw e (All-keep_self p xs)
  ]

  pub All-map : (P Q : A → Type 0) → ((x : A) → P x → Q x) → (xs : List A) → All P xs → All Q xs
  All-map P Q f [] h = tt
  All-map P Q f (x ∷ xs) h = (f x h.0, All-map P Q f xs h.1)

  pub All-and : (P Q : A → Type 0) (xs : List A) → All P xs → All Q xs → All (λ x. P x × Q x) xs
  All-and P Q [] p q = tt
  All-and P Q (x ∷ xs) p q = ((p.0, q.0), All-and P Q xs p.1 q.1)

  All-middle :
      (S : A → Type 0) (before : List A) (w : A) (after : List A)
      → All S (before ++ w ∷ after)
      → All S before × S w × All S after
  All-middle S [] w after h = (tt, h.0, h.1)
  All-middle S (b ∷ bs) w after h = let t = All-middle S bs w after h.1 in ((h.0, t.0), t.1, t.2)

  -- A fact about all elements sharpens what a split says of each.
  pub Split-refine :
      (S P Q P' Q' : A → Type 0) (w : A) (xs : List A)
      → (S w → (x : A) → S x → P x → P' x)
      → (S w → (x : A) → S x → Q x → Q' x)
      → All S xs
      → Split P Q w xs
      → Split P' Q' w xs
  Split-refine S P Q P' Q' w xs f g all s =
      let t = All-middle S s.before w s.after (rw s.whole at all) in
      record {
        before = s.before;
        after = s.after;
        whole = s.whole;
        all_before =
            All-map (λ x. S x × P x) P' (λ x h. f t.1 x h.0 h.1) s.before
              (All-and S P s.before t.0 s.all_before);
        all_after =
            All-map (λ x. S x × Q x) Q' (λ x h. g t.1 x h.0 h.1) s.after
              (All-and S Q s.after t.2 s.all_after);
      }

  pub Split-at : (S P Q : A → Type 0) (w : A) (xs : List A) → All S xs → Split P Q w xs → S w
  Split-at S P Q w xs all s = (All-middle S s.before w s.after (rw s.whole at all)).1

module _ {A : Type 0} where
  pub All-trivial : (xs : List A) → All (λ _. Unit {0}) xs
  All-trivial [] = tt
  All-trivial (x ∷ xs) = (tt, All-trivial xs)

  pub Split-map :
      (P Q P' Q' : A → Type 0) (w : A) (xs : List A)
      → ((x : A) → P x → P' x)
      → ((x : A) → Q x → Q' x)
      → Split P Q w xs
      → Split P' Q' w xs
  Split-map P Q P' Q' w xs f g =
      Split-refine (λ _. Unit {0}) P Q P' Q' w xs (λ _ x _. f x) (λ _ x _. g x) (All-trivial xs)

All-elem-cons :
    (y : String) (ys xs : List String)
    → All (λ x. elem x ys ≡ true) xs
    → All (λ x. elem x (y ∷ ys) ≡ true) xs
All-elem-cons y ys [] h = tt
All-elem-cons y ys (x ∷ xs) h = (ground (arith, h.0), All-elem-cons y ys xs h.1)

pub All-elem_self : (xs : List String) → All (λ x. elem x xs ≡ true) xs
All-elem_self [] = tt
All-elem_self (x ∷ xs) = (ground (arith, eq_refl x), All-elem-cons x xs xs (All-elem_self xs))

elem-append : (x : String) (xs ys : List String) → elem x (xs ++ ys) ≡ (elem x xs || elem x ys)
elem-append x [] ys = refl
elem-append x (y ∷ xs) ys = ground (arith, elem-append x xs ys)

-- Both parts of a list are in it.
pub All-elem_left : (xs ys : List String) → All (λ x. elem x (xs ++ ys) ≡ true) xs
All-elem_left xs ys =
    All-map _ _ (λ x h. ground (arith, h, elem-append x xs ys)) xs (All-elem_self xs)

pub All-elem_right : (xs ys : List String) → All (λ y. elem y (xs ++ ys) ≡ true) ys
All-elem_right xs ys =
    All-map _ _ (λ y h. ground (arith, h, elem-append y xs ys)) ys (All-elem_self ys)

pub All-of_map :
    {A : Type 0} (P : String → Type 0) (f : A → String) (xs : List A)
    → All P (map f xs)
    → All (λ x. P (f x)) xs
All-of_map P f [] h = tt
All-of_map P f (x ∷ xs) h = (h.0, All-of_map P f xs h.1)
