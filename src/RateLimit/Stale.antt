-- ===== src/RateLimit/Stale.antt =====
-- Dropping stale buckets.
use rdrive.Base.{
  ℕ, ◌-◌, ◌*◌, ◌/◌, ◌≤◌, ◌≡◌, refl, ◌∙◌, none, some, [], ◌∷◌, arith, ltb, Bool-cases, inl, inr,
}
use native.Mathlib.Nat.{mul-le-mul_right}
use rdrive.RateLimit.{
  unit, TokenBucket, IpAddr, Buckets, lookup, RateLimiter, retain_fresh, cleanup_stale,
}
use rdrive.RateLimit.Bound.{level, available, IsUniform, IsLevel}

-- Each client has one bucket at most.
abbrev pub NodupKeys : Buckets → Type 0
NodupKeys [] = Unit
NodupKeys ((ip, b) ∷ m) = (lookup ip m ≡ none) × NodupKeys m

-- A bucket that was left alone for long enough is full again.
level_of_stale :
    (now t age : ℕ) (b : TokenBucket)
    → age ≤ (now - b.last_refill) / unit
    → now ≤ t
    → b.max_tokens ≤ age * unit * b.refill_rate
    → level t b ≡ b.max_tokens
level_of_stale now t age b old later fills =
    let long : age * unit ≤ t - b.last_refill = omega arith in
    omega (arith, mul-le-mul_right b.refill_rate long)

retain_fresh-none :
    (now age : ℕ) (ip : IpAddr) (m : Buckets)
    → lookup ip m ≡ none
    → lookup ip (retain_fresh now age m) ≡ none
unfolding retain_fresh
retain_fresh-none now age ip [] h = refl
retain_fresh-none now age ip ((j, b) ∷ m) h = ground (arith, retain_fresh-none now age ip m)

module _ (now t age : ℕ) (ip : IpAddr) (later : now ≤ t) where
  abbrev tokens_in : ℕ → Buckets → ℕ
  tokens_in mx m = elim (lookup ip m) [ none ↦ mx | some b ↦ level t b ]

  retain_tokens :
      (mx rate : ℕ) (m : Buckets)
      → mx ≤ age * unit * rate
      → IsUniform mx rate m
      → NodupKeys m
      → tokens_in mx (retain_fresh now age m) ≡ tokens_in mx m
  unfolding retain_fresh
  retain_tokens mx rate [] fills u d = refl
  retain_tokens mx rate ((j, b) ∷ m) fills (mx_eq, rate_eq, u) (fresh, d) =
      let rest = retain_tokens mx rate m fills u d in
      elim (Bool-cases (ltb ((now - b.last_refill) / unit) age)) [
        | inl kept ↦ rw kept (ground (arith, rest))
        | inr stale ↦
            let old : age ≤ (now - b.last_refill) / unit = ground arith in
            let e : level t b ≡ mx =
              level_of_stale now t age b old later (rw (mx_eq, rate_eq) fills) ∙ mx_eq in
            rw stale (ground (arith, rest, e, retain_fresh-none now age ip m))
      ]

  -- Where the age is long enough for an empty bucket to fill, all buckets have the limiter's size and rate and
  -- each client has one at most, dropping the stale buckets changes the tokens of no client, at that time or
  -- later.
  pub available-cleanup_stale :
      (l : RateLimiter)
      → l.max_tokens ≤ age * unit * l.refill_rate
      → IsLevel l
      → NodupKeys l.buckets
      → available t ip (cleanup_stale now age l) ≡ available t ip l
  unfolding cleanup_stale
  available-cleanup_stale l fills u d = retain_tokens l.max_tokens l.refill_rate l.buckets fills u d
