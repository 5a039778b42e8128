-- ===== src/Service/RateLimit/Bounds.antt =====
-- How many requests a key's bucket lets pass.
use agent_ship.Prelude.{
  ℕ, suc, ◌+◌, ◌*◌, ◌-◌, ◌≤◌, String, ◌≡◌, refl, Bool, true, false, Option, none, some, List, [],
  ◌∷◌, ◌==◌, if◌then◌else◌, arith, eq_iff, ◌∙◌, subst, sym, Bool-cases, inl, inr, ◌&&◌,
}
use agent_ship.Dict.{Dict, get, get-put}
use agent_ship.Service.RateLimit.{TokenBucket, full, try_consume, Admission, passed, refused, admit}

add_spans : (rate x y : ℕ) → (x + y) * rate ≡ x * rate + y * rate
add_spans rate x y = omega arith

spans : (rate a b c : ℕ) → a ≤ b → b ≤ c → (b - a) * rate + (c - b) * rate ≡ (c - a) * rate
spans rate a b c h h' = ground (arith, add_spans rate (b - a) (c - b))

-- The bucket of a key, where there is one, has this rate and was last used by now.
abbrev IsTimely : Option TokenBucket → ℕ → ℕ → Type 0
IsTimely none rate now = Unit {0}
IsTimely (some b) rate now = (b.rate ≡ rate) × (b.updated ≤ now)

-- The units that a key can have used up until `end`, if nothing is refused.
abbrev available : ℕ → ℕ → Option TokenBucket → ℕ → ℕ → ℕ
available burst rate none now end = burst + (end - now) * rate
available burst rate (some b) now end = b.tokens + (end - b.updated) * rate

abbrev cost : ℕ → Bool → ℕ
cost one true = one
cost one false = 0

try_consume-available :
    (one burst : ℕ) (b : TokenBucket) (now end : ℕ)
    → b.updated ≤ now
    → now ≤ end
    → cost one (try_consume one b now).0
        + available burst b.rate (some (try_consume one b now).1) now end
      ≤ b.tokens + (end - b.updated) * b.rate
unfolding try_consume
try_consume-available one burst b now end h h' = ground (arith, spans b.rate b.updated now end h h')

module _ (one burst rate : ℕ) where
  -- the bucket that a request finds
  found-available :
      (o : Option TokenBucket) (t now end : ℕ)
      → t ≤ now
      → now ≤ end
      → IsTimely o rate t
      → let b = elim o as (λ _. TokenBucket) [ none ↦ full burst rate now | some b ↦ b ] in
        (b.rate ≡ rate)
        × (b.updated ≤ now)
        × (b.tokens + (end - b.updated) * rate ≤ available burst rate o t end)
  found-available none t now end h h' timely =
      (refl, omega arith, ground (arith, spans rate t now end h h'))
  found-available (some b) t now end h h' timely = (timely.0, omega (arith, timely.1), omega arith)

  try_consume-rate : (b : TokenBucket) (now : ℕ) → (try_consume one b now).1.rate ≡ b.rate
  unfolding try_consume
  try_consume-rate b now = ground arith

  try_consume-updated : (b : TokenBucket) (now : ℕ) → (try_consume one b now).1.updated ≤ now
  unfolding try_consume
  try_consume-updated b now = ground arith

  consume-available :
      (o : Option TokenBucket) (t now end : ℕ)
      → t ≤ now
      → now ≤ end
      → IsTimely o rate t
      → let taken =
          try_consume one
            (elim o as (λ _. TokenBucket) [ none ↦ full burst rate now | some b ↦ b ])
            now in
        IsTimely (some taken.1) rate now
        × (cost one taken.0 + available burst rate (some taken.1) now end
            ≤ available burst rate o t end)
  consume-available o t now end h h' timely =
      let b : TokenBucket = elim o as (λ _. TokenBucket) [
        | none ↦ full burst rate now
        | some b ↦ b
      ] in
      let (same, used, le) = found-available o t now end h h' timely in
      let step = try_consume-available one burst b now end used h' in
      (
        (try_consume-rate b now ∙ same, try_consume-updated b now),
        omega (
          arith,
          le,
          subst
              (λ r.
                cost one (try_consume one b now).0
                  + ((try_consume one b now).1.tokens
                      + (end - (try_consume one b now).1.updated) * r)
                ≤ b.tokens + (end - b.updated) * r)
              same step,
        ),
      )

  other-available :
      (o : Option TokenBucket) (t now end : ℕ)
      → t ≤ now
      → now ≤ end
      → IsTimely o rate t
      → IsTimely o rate now
        × (cost one false + available burst rate o now end ≤ available burst rate o t end)
  other-available none t now end h h' timely = (tt, ground (arith, spans rate t now end h h'))
  other-available (some b) t now end h h' timely =
      ((timely.0, omega (arith, timely.1)), omega arith)

  abbrev is_passed : Admission → Bool
  is_passed passed = true
  is_passed (refused seconds) = false

  abbrev counted : Bool → ℕ → ℕ
  counted true n = suc n
  counted false n = n

  -- What requests for `k` pass, of requests by their key and time.
  unfoldable pub passes : String → Dict TokenBucket → List (String × ℕ) → ℕ
  passes k buckets [] = 0
  passes k buckets ((key, now) ∷ rest) =
      counted (key == k && is_passed (admit one burst rate buckets key now).0)
        (passes k (admit one burst rate buckets key now).1 rest)

  -- The clock never goes back, and stands between these two times.
  abbrev IsMonotone : ℕ → List (String × ℕ) → ℕ → Type 0
  IsMonotone t [] end = t ≤ end
  IsMonotone t ((key, now) ∷ rest) end = (t ≤ now) × IsMonotone now rest end

  monotone-le :
      (t : ℕ) (requests : List (String × ℕ)) (end : ℕ) → IsMonotone t requests end → t ≤ end
  monotone-le t [] end h = h
  monotone-le t ((key, now) ∷ rest) end h = omega (arith, h.0, monotone-le now rest end h.1)

  passed-if : (n : ℕ) (c : Bool) → is_passed (if c then passed else refused n) ≡ c
  passed-if n true = refl
  passed-if n false = refl

  admit-available :
      (k : String) (buckets : Dict TokenBucket) (key : String) (t now end : ℕ)
      → t ≤ now
      → now ≤ end
      → IsTimely (get buckets k) rate t
      → IsTimely (get (admit one burst rate buckets key now).1 k) rate now
        × (cost one (key == k && is_passed (admit one burst rate buckets key now).0)
              + available burst rate (get (admit one burst rate buckets key now).1 k) now end
            ≤ available burst rate (get buckets k) t end)
  unfolding admit
  admit-available k buckets key t now end h h' timely = elim (Bool-cases (key == k)) [
    | inl e ↦
        rw (get-put buckets key k _, e, passed-if, sym ((eq_iff key k).0 e))
          (consume-available (get buckets key) t now end h h'
            (subst (λ x. IsTimely (get buckets x) rate t) (sym ((eq_iff key k).0 e)) timely))
    | inr e ↦
        rw (get-put buckets key k _, e) (other-available (get buckets k) t now end h h' timely)
  ]

  passes-le :
      (k : String) (buckets : Dict TokenBucket) (t : ℕ) (requests : List (String × ℕ)) (end : ℕ)
      → IsMonotone t requests end
      → IsTimely (get buckets k) rate t
      → passes k buckets requests * one ≤ available burst rate (get buckets k) t end
  unfolding passes
  passes-le k buckets t [] end m timely = omega arith
  passes-le k buckets t ((key, now) ∷ rest) end m timely =
      let (timely', step) =
        admit-available k buckets key t now end m.0 (monotone-le now rest end m.1) timely in
      let ih = passes-le k (admit one burst rate buckets key now).1 now rest end m.1 timely' in
      cost-le (key == k && is_passed (admit one burst rate buckets key now).0) _ step ih
    where
      cost-le :
          (c : Bool) (n : ℕ) {left whole : ℕ}
          → cost one c + left ≤ whole
          → n * one ≤ left
          → counted c n * one ≤ whole
      cost-le true n h h' = omega arith
      cost-le false n h h' = omega arith

  -- From no buckets on, whatever keys send requests while the clock does not go back, the requests of
  -- a key that pass cost no more than the burst and what its rate refills from the first time to the last.
  pub passes_bounded :
      (k : String) (t : ℕ) (requests : List (String × ℕ)) (end : ℕ)
      → IsMonotone t requests end
      → passes k [] requests * one ≤ burst + (end - t) * rate
  unfolding get
  passes_bounded k t requests end m = passes-le k [] t requests end m tt
