-- ===== src/RateLimit.antt =====
-- src/ratelimit.rs, a token bucket for each client address.
-- The source counts tokens in `f64`. Here they are whole billionths of a token and times are whole
-- nanoseconds, so that a refill, elapsed time by tokens per second, is exact; rates are whole tokens per
-- second. `duration_since` gives zero for an earlier instant, as `-` does. Addresses are numbers.
pub mod Bound
pub mod Stale
pub mod Tests
use rdrive.Base.{
  ℕ, ◌+◌, ◌-◌, ◌*◌, ◌/◌, ◌^◌, ◌≤◌, ◌≡◌, min, Bool, true, false, Option, none, some, List, [], ◌∷◌,
  leb, ltb, ◌==◌, if◌then◌else◌,
}

-- One token, and one second.
abbrev pub unit : ℕ
unit = 10 ^ 9

pub record TokenBucket : Type 0 where
  pub tokens : ℕ
  pub max_tokens : ℕ
  pub refill_rate : ℕ
  pub last_refill : ℕ

-- `TokenBucket::init`
unfoldable pub new_bucket : ℕ → ℕ → ℕ → TokenBucket
new_bucket max_tokens refill_rate now = record {
  tokens = max_tokens;
  max_tokens = max_tokens;
  refill_rate = refill_rate;
  last_refill = now;
}

unfoldable pub refill : ℕ → TokenBucket → TokenBucket
refill now b =
    let elapsed = now - b.last_refill in
    record b { tokens = min (b.tokens + elapsed * b.refill_rate) b.max_tokens; last_refill = now }

unfoldable pub try_consume : ℕ → ℕ → TokenBucket → TokenBucket × Bool
unfolding refill
try_consume now cost b =
    let r = refill now b in
    if leb cost r.tokens then (record r { tokens = r.tokens - cost }, true) else (r, false)

abbrev pub IpAddr : Type 0
IpAddr = ℕ

-- The map of buckets.
abbrev pub Buckets : Type 0
Buckets = List (IpAddr × TokenBucket)

abbrev pub lookup : IpAddr → Buckets → Option TokenBucket
lookup ip [] = none
lookup ip ((j, b) ∷ m) = if j == ip then some b else lookup ip m

abbrev pub insert : IpAddr → TokenBucket → Buckets → Buckets
insert ip b [] = (ip, b) ∷ []
insert ip b ((j, c) ∷ m) = if j == ip then (ip, b) ∷ m else (j, c) ∷ insert ip b m

pub record RateLimiter : Type 0 where
  pub buckets : Buckets
  pub max_tokens : ℕ
  pub refill_rate : ℕ

-- `RateLimiter::init`
unfoldable pub new_limiter : ℕ → ℕ → RateLimiter
new_limiter max_tokens refill_rate = record {
  buckets = [];
  max_tokens = max_tokens;
  refill_rate = refill_rate;
}

-- `entry(ip).or_insert_with(…)`
abbrev pub bucket_of : ℕ → IpAddr → RateLimiter → TokenBucket
bucket_of now ip l = elim (lookup ip l.buckets) [
  | none ↦ new_bucket l.max_tokens l.refill_rate now
  | some b ↦ b
]

unfoldable pub is_allowed_cost : ℕ → IpAddr → ℕ → RateLimiter → RateLimiter × Bool
unfolding try_consume new_bucket
is_allowed_cost now ip cost l =
    let (b, allowed) = try_consume now cost (bucket_of now ip l) in
    (record l { buckets = insert ip b l.buckets }, allowed)

unfoldable pub is_allowed : ℕ → IpAddr → RateLimiter → RateLimiter × Bool
unfolding is_allowed_cost
is_allowed now ip l = is_allowed_cost now ip unit l

unfoldable pub tokens_remaining : IpAddr → RateLimiter → ℕ
tokens_remaining ip l = elim (lookup ip l.buckets) [ none ↦ l.max_tokens | some b ↦ b.tokens ]

-- `retain`, with the age in whole seconds.
unfoldable pub retain_fresh : ℕ → ℕ → Buckets → Buckets
retain_fresh now max_age_secs [] = []
retain_fresh now max_age_secs ((ip, b) ∷ m) =
    let rest = retain_fresh now max_age_secs m in
    if ltb ((now - b.last_refill) / unit) max_age_secs then (ip, b) ∷ rest else rest

unfoldable pub cleanup_stale : ℕ → ℕ → RateLimiter → RateLimiter
unfolding retain_fresh
cleanup_stale now max_age_secs l = record l { buckets = retain_fresh now max_age_secs l.buckets }
