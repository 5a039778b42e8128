-- ===== src/Service/RateLimit/RetryAfter.antt =====
-- What the Retry-After of a refusal is worth.
use native.Mathlib.Nat.{lt-div-mul-add, mul-le-mul_right}
use agent_ship.Prelude.{ℕ, ◌+◌, ◌*◌, ◌-◌, ◌/◌, ◌≤◌, ◌≡◌, sym, subst, true, false, arith}
use agent_ship.Service.RateLimit.{TokenBucket, refill, try_consume, retry_after}

more_le : (R q r : ℕ) → q ≤ r → q * (1000 * R) + R ≤ (1000 * r + 1) * R
more_le R q r h = omega (arith, mul-le-mul_right R h)

-- What the seconds of a Retry-After and a millisecond refill.
retry_after-le :
    (one : ℕ) (b : TokenBucket)
    → 1 ≤ b.rate
    → one ≤ b.tokens + (1000 * retry_after one b + 1) * b.rate
unfolding retry_after
retry_after-le one b h = ground (
  arith,
  more_le b.rate ((one - b.tokens + 999 * b.rate) / (1000 * b.rate)) (retry_after one b),
  lt-div-mul-add {a = one - b.tokens + 999 * b.rate} {b = 1000 * b.rate} (omega arith),
)

later : (now n : ℕ) → now + 1000 * n + 1 - now ≡ 1000 * n + 1
later now n = omega arith

refused_below :
    (one : ℕ) (b : TokenBucket) (now : ℕ)
    → (try_consume one b now).0 ≡ false
    → (try_consume one b now).1 ≡ refill b now
unfolding try_consume
refused_below one b now r = ground arith

consume_enough :
    (one : ℕ) (b : TokenBucket) (now : ℕ)
    → one ≤ b.capacity
    → one ≤ b.tokens + (now - b.updated) * b.rate
    → (try_consume one b now).0 ≡ true
unfolding try_consume
consume_enough one b now h h' = ground arith

-- If a bucket can hold a token and is refilled at all, then a request that it refuses is let pass a
-- millisecond after the seconds of its Retry-After, where no other request comes between.
retry_after_suffices :
    (one : ℕ) (b : TokenBucket) (now : ℕ)
    → one ≤ b.capacity
    → 1 ≤ b.rate
    → (try_consume one b now).0 ≡ false
    → (try_consume one
        (try_consume one b now).1
        (now + 1000 * retry_after one (try_consume one b now).1 + 1)).0
      ≡ true
retry_after_suffices one b now h h' r = rw (refused_below one b now r) (
    consume_enough one (refill b now) _ h (
      subst (λ d. one ≤ (refill b now).tokens + d * b.rate) (sym (later now _))
        (retry_after-le one (refill b now) h')))
