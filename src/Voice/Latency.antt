-- ===== src/Voice/Latency.antt =====
-- `LatencyTrace.biggest_contributor`: the slowest stage of a turn.
use agent_ship.Prelude.{
  ℕ, ◌≤◌, ◌<◌, ◌⊎◌, ltb→lt, subst, sym, String, ◌≡◌, refl, Option, none, some, [], ◌∷◌, ltb, ◌==◌,
  if◌then◌else◌, All, arith, Bool-cases, inl, inr,
}
use agent_ship.Prelude.Splits.{Split, Split-here, Split-cons}
use native.Mathlib.Nat.{lt_trans}
use agent_ship.Dict.{Dict}
use agent_ship.Voice.{LatencyTrace}

-- as_dict
abbrev pub as_dict : LatencyTrace → Dict (Option ℕ)
as_dict t =
    ("asr_ms", t.asr_ms)
    ∷ ("rag_ms", t.rag_ms)
    ∷ ("llm_ttft_ms", t.llm_ttft_ms)
    ∷ ("llm_total_ms", t.llm_total_ms)
    ∷ ("tool_ms", t.tool_ms)
    ∷ ("tts_ms", t.tts_ms)
    ∷ ("buffer_ms", t.buffer_ms)
    ∷ ("total_ms", t.total_ms)
    ∷ []

-- the measured ones, but for "total_ms"
unfoldable pub measured : Dict (Option ℕ) → Dict ℕ
measured [] = []
measured ((name, none) ∷ d) = measured d
measured ((name, some value) ∷ d) =
    let rest = measured d in if name == "total_ms" then rest else (name, value) ∷ rest

-- max(stages, key=…) keeps the first of equals
unfoldable slowest : String × ℕ → Dict ℕ → String × ℕ
slowest worst [] = worst
slowest worst (stage ∷ stages) = slowest (if ltb worst.1 stage.1 then stage else worst) stages

unfoldable biggest_contributor : LatencyTrace → Option (String × ℕ)
unfolding measured slowest
biggest_contributor t = elim (measured (as_dict t)) [
  | [] ↦ none
  | stage ∷ stages ↦ some (slowest stage stages)
]

-- `w` is the first of the slowest of `worst` and the stages behind it.
abbrev IsSlowest : String × ℕ → Dict ℕ → String × ℕ → Type 0
IsSlowest worst stages w =
    ((w ≡ worst) × All (λ s. s.1 ≤ worst.1) stages)
    ⊎ ((worst.1 < w.1) × Split (λ s. s.1 < w.1) (λ s. s.1 ≤ w.1) w stages)

faster :
    (worst stage w : String × ℕ) (stages : Dict ℕ)
    → worst.1 < stage.1
    → IsSlowest stage stages w
    → IsSlowest worst (stage ∷ stages) w
faster worst stage w stages lt (inl (e, le)) = inr (
  rw e lt,
  subst (λ v. Split (λ s. s.1 < v.1) (λ s. s.1 ≤ v.1) v (stage ∷ stages)) (sym e)
      (Split-here stages le),
)
faster worst stage w stages lt (inr (gt, s)) = inr (lt_trans lt gt, Split-cons stage gt s)

no_faster :
    (worst stage w : String × ℕ) (stages : Dict ℕ)
    → stage.1 ≤ worst.1
    → IsSlowest worst stages w
    → IsSlowest worst (stage ∷ stages) w
no_faster worst stage w stages ge (inl (e, le)) = inl (e, (ge, le))
no_faster worst stage w stages ge (inr (gt, s)) = inr (gt, Split-cons stage (omega arith) s)

slowest-IsSlowest :
    (worst : String × ℕ) (stages : Dict ℕ) → IsSlowest worst stages (slowest worst stages)
unfolding slowest
slowest-IsSlowest worst [] = inl (refl, tt)
slowest-IsSlowest worst (stage ∷ stages) = elim (Bool-cases (ltb worst.1 stage.1)) [
  | inl lt ↦
      subst (λ b. IsSlowest worst (stage ∷ stages) (slowest (if b then stage else worst) stages))
        (sym lt)
        (faster worst stage (slowest stage stages) stages (ltb→lt _ _ lt)
          (slowest-IsSlowest stage stages))
  | inr ge ↦
      subst (λ b. IsSlowest worst (stage ∷ stages) (slowest (if b then stage else worst) stages))
        (sym ge)
        (no_faster worst stage (slowest worst stages) stages (ground arith)
          (slowest-IsSlowest worst stages))
]

-- The stage that is blamed is a measured one other than the total, and the first of the slowest; none
-- is blamed exactly if none was measured.
biggest_contributor_slowest :
    (t : LatencyTrace)
    → ((measured (as_dict t) ≡ []) × (biggest_contributor t ≡ none))
      ⊎ ((worst : String × ℕ) × (biggest_contributor t ≡ some worst)
          × Split (λ s. s.1 < worst.1) (λ s. s.1 ≤ worst.1) worst (measured (as_dict t)))
unfolding biggest_contributor
biggest_contributor_slowest t = among (measured (as_dict t))
  where
    among :
        (stages : Dict ℕ)
        → ((stages ≡ [])
            × (elim stages as (λ _. Option (String × ℕ)) [
              | [] ↦ none
              | s ∷ ss ↦ some (slowest s ss)
            ]
                ≡ none))
          ⊎ ((worst : String × ℕ) × (elim stages as (λ _. Option (String × ℕ)) [
            | [] ↦ none
            | s ∷ ss ↦ some (slowest s ss)
          ]
                ≡ some worst)
              × Split (λ s. s.1 < worst.1) (λ s. s.1 ≤ worst.1) worst stages)
    among [] = inl (refl, refl)
    among (s ∷ ss) = inr (
      slowest s ss,
      refl,
      elim (slowest-IsSlowest s ss) [
        | inl (e, le) ↦
            subst (λ v. Split (λ x. x.1 < v.1) (λ x. x.1 ≤ v.1) v (s ∷ ss)) (sym e)
              (Split-here ss le)
        | inr (gt, split) ↦ Split-cons s gt split
      ],
    )
