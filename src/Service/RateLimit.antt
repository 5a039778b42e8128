-- ===== src/Service/RateLimit.antt =====
-- agentship_service/middleware/ratelimit.py: a token bucket for each key.
pub mod Bounds
pub mod RetryAfter
use Prim.Native.Nat.{min, max}
use Prim.Native.String.{◌++◌ as ◌<>◌}
use agent_ship.Prelude.{
  ℕ, suc, ◌+◌, ◌*◌, ◌-◌, ◌/◌, String, Bool, true, false, Option, none, some, List, [], ◌∷◌, ◌==◌,
  leb, eqb, truthy, if◌then◌else◌,
}
use agent_ship.Dict.{Dict, get, put}
use agent_ship.Auth.Caller.{Headers}
use agent_ship.Service.Gate.{ScopeType, http, websocket, lifespan}

-- Floats are given by whole numbers of small units: times by milliseconds, tokens by units of which
-- `one` make a token, rates by units for each millisecond. Rounding is not modelled, and no rate is
-- negative.
pub record TokenBucket : Type 0 where
  pub capacity : ℕ
  pub rate : ℕ
  pub tokens : ℕ
  pub updated : ℕ

-- TokenBucket(capacity=…, rate=…, now=…)
abbrev pub full : ℕ → ℕ → ℕ → TokenBucket
full capacity rate now = record {
  capacity = capacity;
  rate = rate;
  tokens = capacity;
  updated = now;
}

-- min(capacity, tokens + max(0, now - updated) * rate): `-` stops at 0
abbrev pub refill : TokenBucket → ℕ → TokenBucket
refill b now = record b {
  tokens = min b.capacity (b.tokens + (now - b.updated) * b.rate);
  updated = now;
}

module _ (one : ℕ) where
  unfoldable pub try_consume : TokenBucket → ℕ → Bool × TokenBucket
  try_consume b now =
      let b' = refill b now in
      if leb one b'.tokens then (true, record b' { tokens = b'.tokens - one }) else (false, b')

  -- max(1, int(needed / rate + 0.999)), with the seconds of `needed / rate` as milliseconds
  unfoldable pub retry_after : TokenBucket → ℕ
  retry_after b =
      if eqb b.rate 0 then 1 else max 1 ((one - b.tokens + 999 * b.rate) / (1000 * b.rate))

record RateScope : Type 0 where
  pub type : ScopeType
  pub headers : Headers
  pub client : Option String

abbrev client_host : Option String → String
client_host none = "unknown"
client_host (some host) = host

-- _rate_key
unfoldable rate_key : RateScope → String
rate_key scope = elim (get scope.headers "x-api-key") [
  | none ↦ by_authorization
  | some key ↦ if key == "" then by_authorization else "key:" <> key
]
  where
    by_client : String
    by_client = "ip:" <> client_host scope.client

    by_authorization : String
    by_authorization = elim (get scope.headers "authorization") [
      | none ↦ by_client
      | some value ↦ if value == "" then by_client else "auth:" <> value
    ]

pub data Admission : Type 0 where
  passed : Admission
  refused : (retry_after : ℕ) → Admission

module _ (one burst rate : ℕ) where
  -- the bucket of a key, made at its first request
  abbrev bucket_at : Dict TokenBucket → String → ℕ → TokenBucket
  bucket_at buckets key now = elim (get buckets key) [ none ↦ full burst rate now | some b ↦ b ]

  unfoldable pub admit : Dict TokenBucket → String → ℕ → Admission × Dict TokenBucket
  unfolding try_consume retry_after
  admit buckets key now =
      let taken = try_consume one (bucket_at buckets key now) now in
      (if taken.0 then passed else refused (retry_after one taken.1), put buckets key taken.1)

  unfoldable throttle : Bool → Dict TokenBucket → RateScope → ℕ → Admission × Dict TokenBucket
  unfolding admit rate_key
  throttle enabled buckets scope now = throttle_type scope.type
    where
      throttle_type : ScopeType → Admission × Dict TokenBucket
      throttle_type http = if enabled then admit buckets (rate_key scope) now else (passed, buckets)
      throttle_type websocket = (passed, buckets)
      throttle_type lifespan = (passed, buckets)
