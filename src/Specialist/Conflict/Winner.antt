-- ===== src/Specialist/Conflict/Winner.antt =====
-- Which result `resolve` picks.
use Prim.Native.Nat.{min}
use agent_ship.Prelude.{
  ℕ, ◌≤◌, ◌<◌, String, ◌≡◌, refl, subst, ◌⊎◌, inl, inr, Bool, true, false, List, [], ◌∷◌, map, not,
  leb, ◌≢◌, eqb, keep, All, arith, Bool-cases,
}
use agent_ship.Prelude.Splits.{
  Split, Split-here, Split-cons, Split-keep, Split-refine, Split-at, All-map, All-trivial,
  Split-map, All-keep_self,
}
use agent_ship.Specialist.Values.{Values, is_dropped}
use agent_ship.Specialist.Conflict.{
  OnTie, highest_confidence, first_by_priority, ConflictPolicy, resolved, rank, R, best_rank,
  confidence_key, max_by_confidence, survivors, candidates, pick, resolve_among, resolve_survivors,
  resolve, dropped_names,
}

-- A strict order of confidences: what Python's `<` is on floats that are not NaN.
pub record IsStrictOrder {V : Type 0} (lt : V → V → Bool) : Type 0 where
  pub asym : (a b : V) → lt a b ≡ true → lt b a ≡ false
  pub between : (a b c : V) → lt a b ≡ true → lt a c ≡ false → lt c b ≡ true

module _ (P : Values) where
  abbrev less : R P → R P → Bool
  less r s = P.lt (confidence_key P r) (confidence_key P s)

  -- What `max` promises: all before its answer are less, and it is not less than any behind it.
  abbrev IsFirstMax : R P → List (R P) → Type 0
  IsFirstMax w = Split (λ r. less r w ≡ true) (λ r. less w r ≡ false) w

  module _ (order : IsStrictOrder P.lt) where
    max-cases :
        (best : R P) (rs : List (R P))
        → ((max_by_confidence P best rs ≡ best) × All (λ r. less best r ≡ false) rs)
          ⊎ ((less best (max_by_confidence P best rs) ≡ true)
              × IsFirstMax (max_by_confidence P best rs) rs)
    unfolding max_by_confidence
    max-cases best [] = inl (refl, tt)
    max-cases best (r ∷ rs) = elim (Bool-cases (less best r)) [
      | inl lt ↦ rw lt (elim (max-cases r rs) [
        | inl (e, le) ↦ inr (rw e lt, rw e (Split-here rs le))
        | inr (gt, s) ↦ inr (
          order.between (confidence_key P r) _ (confidence_key P best) gt (order.asym _ _ lt),
          Split-cons r gt s,
        )
      ])
      | inr ge ↦ rw ge (elim (max-cases best rs) [
        | inl (e, le) ↦ inl (e, (refl, le))
        | inr (gt, s) ↦ inr (
          gt,
          Split-cons r (order.between (confidence_key P best) _ (confidence_key P r) gt ge) s,
        )
      ])
    ]

    max-IsFirstMax :
        (best : R P) (rs : List (R P)) → IsFirstMax (max_by_confidence P best rs) (best ∷ rs)
    max-IsFirstMax best rs = elim (max-cases best rs) [
      | inl (e, le) ↦ rw e (Split-here rs le)
      | inr (gt, s) ↦ Split-cons best gt s
    ]

  -- What stands before the winner among the candidates, and behind it.
  abbrev Loses : OnTie → R P → R P → Type 0
  Loses highest_confidence w r = less r w ≡ true
  Loses first_by_priority w r = ⊥

  abbrev NotBetter : OnTie → R P → R P → Type 0
  NotBetter highest_confidence w r = less w r ≡ false
  NotBetter first_by_priority w r = Unit {0}

  pick-Split :
      (order : IsStrictOrder P.lt) (on_tie : OnTie) (c : R P) (cs : List (R P))
      → let w = pick P on_tie c cs in Split (Loses on_tie w) (NotBetter on_tie w) w (c ∷ cs)
  unfolding pick
  pick-Split order highest_confidence c cs = max-IsFirstMax order c cs
  pick-Split order first_by_priority c cs = Split-here cs (All-trivial cs)

  module _ (policy : ConflictPolicy) where
    abbrev ranked : R P → ℕ
    ranked r = rank policy r.name

    best_rank-le :
        (s : R P) (ss : List (R P)) → All (λ r. best_rank P policy s ss ≤ ranked r) (s ∷ ss)
    unfolding best_rank
    best_rank-le s [] = (omega arith, tt)
    best_rank-le s (t ∷ ss) =
        let ih = best_rank-le t ss in (omega arith, All-map _ _ (λ r h. omega arith) (t ∷ ss) ih)

    candidates-cons :
        (best : ℕ) (r : R P) (rs : List (R P))
        → (ranked r ≡ best) ⊎ (candidates P policy best rs ≢ [])
        → candidates P policy best (r ∷ rs) ≢ []
    unfolding candidates
    candidates-cons best r rs h = ground arith

    -- Some survivor has the best rank.
    pub candidates-ne-nil :
        (s : R P) (ss : List (R P)) → candidates P policy (best_rank P policy s ss) (s ∷ ss) ≢ []
    unfolding best_rank
    candidates-ne-nil s [] = candidates-cons _ s [] (inl refl)
    candidates-ne-nil s (t ∷ ss) = elim (Bool-cases (leb (ranked s) (best_rank P policy t ss))) [
      | inl le ↦ candidates-cons _ s (t ∷ ss) (inl (ground arith))
      | inr gt ↦
          let e : best_rank P policy t ss ≡ min (ranked s) (best_rank P policy t ss) =
            ground arith in
          candidates-cons _ s (t ∷ ss)
            (inr (subst (λ b. candidates P policy b (t ∷ ss) ≢ []) e (candidates-ne-nil t ss)))
    ]

    -- What stands before the winner among all results, and behind it.
    abbrev pub Before : R P → R P → Type 0
    Before w r =
        (is_dropped r ≡ true)
        ⊎ (ranked w < ranked r)
        ⊎ ((ranked w ≡ ranked r) × Loses policy.on_tie w r)

    abbrev pub Behind : R P → R P → Type 0
    Behind w r =
        (is_dropped r ≡ true)
        ⊎ (ranked w < ranked r)
        ⊎ ((ranked w ≡ ranked r) × NotBetter policy.on_tie w r)

    module _ (order : IsStrictOrder P.lt) where
      -- The winner among the survivors.
      survivor-Split :
          (best : ℕ) (c : R P) (cs sv : List (R P))
          → candidates P policy best sv ≡ c ∷ cs
          → All (λ r. best ≤ ranked r) sv
          → let w = pick P policy.on_tie c cs in
            Split
              (λ r. (ranked w < ranked r) ⊎ ((ranked w ≡ ranked r) × Loses policy.on_tie w r))
              (λ r. (ranked w < ranked r) ⊎ ((ranked w ≡ ranked r) × NotBetter policy.on_tie w r))
              w
              sv
      unfolding candidates
      survivor-Split best c cs sv e le =
          Split-refine (λ r. best ≤ ranked r) _ _ _ _ w sv (λ _ x. sharpen x) (λ _ x. sharpen x) le
            (Split-keep q _ _ w sv found)
        where
          w : R P
          w = pick P policy.on_tie c cs

          q : R P → Bool
          q r = eqb (ranked r) best

          found : Split (Loses policy.on_tie w) (NotBetter policy.on_tie w) w (keep q sv)
          found = rw e (pick-Split order policy.on_tie c cs)

          w_best : q w ≡ true
          w_best = Split-at (λ r. q r ≡ true) _ _ w (keep q sv) (All-keep_self q sv) found

          sharpen :
              {T : Type 0} (x : R P)
              → best ≤ ranked x
              → (q x ≡ false) ⊎ T
              → (ranked w < ranked x) ⊎ ((ranked w ≡ ranked x) × T)
          sharpen x le' (inl ne) = inl (ground (arith, w_best))
          sharpen x le' (inr t) = elim (Bool-cases (q x)) [
            | inl eq ↦ inr (ground (arith, w_best), t)
            | inr ne ↦ inl (ground (arith, w_best))
          ]

      -- `resolve` wherever there is a survivor, over the survivors.
      resolve_survivors-Split :
          (dropped : List String) (sv : List (R P))
          → sv ≢ []
          → (w : R P) × Split
              (λ r. (ranked w < ranked r) ⊎ ((ranked w ≡ ranked r) × Loses policy.on_tie w r))
              (λ r. (ranked w < ranked r) ⊎ ((ranked w ≡ ranked r) × NotBetter policy.on_tie w r))
              w
              sv
            × (resolve_survivors P policy dropped sv
                ≡ resolved w.name w.output (map (λ r. r.name) sv) dropped)
      unfolding resolve_survivors
      resolve_survivors-Split dropped [] h = absurd (h refl)
      resolve_survivors-Split dropped (s ∷ ss) h =
          go (candidates P policy best (s ∷ ss)) refl (candidates-ne-nil s ss)
        where
          best : ℕ
          best = best_rank P policy s ss

          go :
              (cs : List (R P))
              → candidates P policy best (s ∷ ss) ≡ cs
              → cs ≢ []
              → (w : R P) × Split
                  (λ r. (ranked w < ranked r) ⊎ ((ranked w ≡ ranked r) × Loses policy.on_tie w r))
                  (λ r.
                    (ranked w < ranked r) ⊎ ((ranked w ≡ ranked r) × NotBetter policy.on_tie w r))
                  w
                  (s ∷ ss)
                × (resolve_among P policy (s ∷ ss) dropped (candidates P policy best (s ∷ ss))
                    ≡ resolved w.name w.output (map (λ r. r.name) (s ∷ ss)) dropped)
          go [] e ne = absurd (ne refl)
          go (c ∷ cs) e ne = (
            pick P policy.on_tie c cs,
            survivor-Split best c cs (s ∷ ss) e (best_rank-le s ss),
            rw e,
          )

      -- Wherever a result is usable, `resolve` answers with one: it has no error and some output, all
      -- usable results before it rank strictly behind it or tie with it and lose by the policy's
      -- rule, and no usable result behind it ranks before it or ties with it and is better. Its name
      -- and output are returned, with the names of the usable results, in order, and those of the
      -- dropped ones. (By `first_by_priority` a tie before it cannot be.)
      pub resolve_winner :
          (results : List (R P))
          → survivors P results ≢ []
          → (w : R P) × (is_dropped w ≡ false)
            × Split (Before w) (Behind w) w results
            × (resolve P policy results
                ≡ resolved w.name w.output
                    (map (λ r. r.name) (survivors P results))
                    (dropped_names P results))
      unfolding resolve survivors
      resolve_winner results some_ok =
          let (w, among, e) =
            resolve_survivors-Split (dropped_names P results) (survivors P results) some_ok in
          (
            w,
            not_dropped
                (Split-at (λ r. not (is_dropped r) ≡ true) _ _ w _ (All-keep_self _ results) among),
            Split-map _ _ _ _ w results (λ x h. ground arith) (λ x h. ground arith)
                (Split-keep _ _ _ w results among),
            e,
          )
        where
          not_dropped : {b : Bool} → not b ≡ true → b ≡ false
          not_dropped {b} h = ground arith
