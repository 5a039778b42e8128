-- ===== src/Specialist/Conflict/Partition.antt =====
-- What `resolve` says of every result that it is given.
use mathlib.Core.List.{Perm, perm_middle}
use mathlib.Core.List.Perm
use agent_ship.Prelude.{
  String, ◌≡◌, ◌≢◌, refl, true, List, [], ◌∷◌, ◌++◌, map, not, keep, All, arith, Bool-cases, inl,
  inr,
}
use agent_ship.Specialist.Values.{Values, is_dropped}
use agent_ship.Specialist.Conflict.{
  ConflictPolicy, Resolution, no_specialist_succeeded, resolved, R, survivors, dropped_names,
  resolve_among, resolve_survivors, resolve,
}
use agent_ship.Specialist.Conflict.Winner.{candidates-ne-nil}

-- The specialists that a resolution names: the considered ones, then the dropped ones.
abbrev mentioned : {V : Type 0} → Resolution V → List String
mentioned no_specialist_succeeded = []
mentioned (resolved winner output considered dropped) = considered ++ dropped

module _ (P : Values) where
  survivors-append-dropped-perm :
      (results : List (R P))
      → Perm
          (map (λ r. r.name) (survivors P results) ++ dropped_names P results)
          (map (λ r. r.name) results)
  unfolding survivors dropped_names
  survivors-append-dropped-perm [] = Perm.rfl
  survivors-append-dropped-perm (r ∷ rs) =
      let rest = survivors-append-dropped-perm rs in
      elim (Bool-cases (is_dropped r)) [
        | inl e ↦ rw e (Perm.trans (perm_middle _ _) (Perm.cons r.name rest))
        | inr e ↦ rw e (Perm.cons r.name rest)
      ]

  module _ (policy : ConflictPolicy) where
    mentioned-resolve_survivors :
        (dropped : List String) (sv : List (R P))
        → sv ≢ []
        → mentioned (resolve_survivors P policy dropped sv) ≡ map (λ r. r.name) sv ++ dropped
    unfolding resolve_survivors resolve_among
    mentioned-resolve_survivors dropped [] h = absurd (h refl)
    mentioned-resolve_survivors dropped (s ∷ ss) h = ground (arith, candidates-ne-nil P policy s ss)

    -- Wherever a result is usable, `resolve` names every result's specialist exactly as often as it
    -- has results, as considered or as dropped.
    resolve_accounts :
        (results : List (R P))
        → survivors P results ≢ []
        → Perm (mentioned (resolve P policy results)) (map (λ r. r.name) results)
    unfolding resolve
    resolve_accounts results h =
        rw (mentioned-resolve_survivors (dropped_names P results) (survivors P results) h)
          (survivors-append-dropped-perm results)

    -- If every result failed or is empty, `resolve` says that no specialist succeeded.
    resolve_none :
        (results : List (R P))
        → All (λ r. is_dropped r ≡ true) results
        → resolve P policy results ≡ no_specialist_succeeded
    unfolding resolve resolve_survivors survivors
    resolve_none results h = rw (keep_none results h)
      where
        keep_none :
            (rs : List (R P))
            → All (λ r. is_dropped r ≡ true) rs
            → keep (λ r. not (is_dropped r)) rs ≡ []
        keep_none [] a = refl
        keep_none (r ∷ rs) a = rw a.0 (keep_none rs a.1)
