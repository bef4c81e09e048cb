-- ===== src/RateLimit/Bound.antt =====
-- What a client is admitted, over any sequence of requests.
use rdrive.Base.{
  ℕ, ◌+◌, ◌-◌, ◌*◌, ◌≤◌, ◌≡◌, ◌≢◌, refl, ◌∙◌, min, Bool, none, some, List, [], ◌∷◌, arith, ◌==◌,
  inl, inr, if◌then◌else◌, Option-cases, Bool-cases, ap,
}
use native.Mathlib.Nat.{mul-le-mul_right}
use rdrive.RateLimit.{
  TokenBucket, new_bucket, try_consume, IpAddr, Buckets, lookup, insert, RateLimiter, bucket_of,
  is_allowed_cost,
}

-- The tokens that a bucket can spend at a time.
abbrev pub level : ℕ → TokenBucket → ℕ
level now b = min (b.tokens + (now - b.last_refill) * b.refill_rate) b.max_tokens

-- The tokens that a client can spend at a time.
abbrev pub available : ℕ → IpAddr → RateLimiter → ℕ
available now ip l = elim (lookup ip l.buckets) [ none ↦ l.max_tokens | some b ↦ level now b ]

-- Every bucket has the limiter's size and rate.
abbrev pub IsUniform : ℕ → ℕ → Buckets → Type 0
IsUniform max_tokens refill_rate [] = Unit
IsUniform max_tokens refill_rate ((_, b) ∷ m) =
    (b.max_tokens ≡ max_tokens) × (b.refill_rate ≡ refill_rate) × IsUniform max_tokens refill_rate m

pub lookup-IsUniform :
    (ip : IpAddr) (b : TokenBucket) (mx rate : ℕ) (m : Buckets)
    → IsUniform mx rate m
    → lookup ip m ≡ some b
    → (b.max_tokens ≡ mx) × (b.refill_rate ≡ rate)
lookup-IsUniform ip b mx rate [] u e = absurd (ground arith)
lookup-IsUniform ip b mx rate ((j, c) ∷ m) u e = ground (arith, lookup-IsUniform ip b mx rate m u.2)

pub insert-IsUniform :
    (ip : IpAddr) (b : TokenBucket) (mx rate : ℕ) (m : Buckets)
    → IsUniform mx rate m
    → b.max_tokens ≡ mx
    → b.refill_rate ≡ rate
    → IsUniform mx rate (insert ip b m)
insert-IsUniform ip b mx rate [] u p q = (p, q, tt)
insert-IsUniform ip b mx rate ((j, c) ∷ m) u p q =
    ground (arith, insert-IsUniform ip b mx rate m u.2 p q)

pub lookup-insert :
    (ip j : IpAddr) (b : TokenBucket) (m : Buckets)
    → lookup j (insert ip b m) ≡ (if ip == j then some b else lookup j m)
lookup-insert ip j b [] = refl
lookup-insert ip j b ((i, c) ∷ m) = ground (arith, lookup-insert ip j b m)

-- Time passing adds at most the refill rate.
level_later :
    (t now : ℕ) (b : TokenBucket) → t ≤ now → level now b ≤ level t b + (now - t) * b.refill_rate
level_later t now b h =
    let more : now - b.last_refill ≤ (t - b.last_refill) + (now - t) = omega arith in
    let refilled = mul-le-mul_right b.refill_rate more in omega (arith, refilled)

available_later :
    (t now : ℕ) (ip : IpAddr) (l : RateLimiter)
    → IsUniform l.max_tokens l.refill_rate l.buckets
    → t ≤ now
    → available now ip l ≤ available t ip l + (now - t) * l.refill_rate
available_later t now ip l u h = elim (Option-cases (lookup ip l.buckets)) [
  | inl e ↦ ground arith
  | inr (b, e) ↦
      let (_, rate) = lookup-IsUniform ip b l.max_tokens l.refill_rate l.buckets u e in
      ground (arith, level_later t now b h)
]

-- What one request of the client itself is charged leaves its tokens.
abbrev pub charge : Bool → ℕ → ℕ
charge allowed cost = if allowed then cost else 0

level_refilled :
    (now tokens mx rate : ℕ) → tokens ≤ mx → min (tokens + (now - now) * rate) mx ≡ tokens
level_refilled now tokens mx rate h =
    let still : now - now ≡ 0 = omega arith in rw still (omega arith)

try_consume-level :
    (now cost : ℕ) (b : TokenBucket)
    → charge (try_consume now cost b).1 cost + level now (try_consume now cost b).0 ≡ level now b
unfolding try_consume
try_consume-level now cost b =
    let full = level now b in
    ground (
      arith,
      level_refilled now full b.max_tokens b.refill_rate (omega arith),
      level_refilled now (full - cost) b.max_tokens b.refill_rate (omega arith),
    )

level-new_bucket : (mx rate now : ℕ) → level now (new_bucket mx rate now) ≡ mx
unfolding new_bucket
level-new_bucket mx rate now = omega arith

is_allowed_cost_self :
    (now : ℕ) (ip : IpAddr) (cost : ℕ) (l : RateLimiter)
    → charge (is_allowed_cost now ip cost l).1 cost
        + available now ip (is_allowed_cost now ip cost l).0
      ≡ available now ip l
unfolding is_allowed_cost
is_allowed_cost_self now ip cost l = ground (
  arith,
  lookup-insert ip ip (try_consume now cost (bucket_of now ip l)).0 l.buckets,
  try_consume-level now cost (bucket_of now ip l),
  level-new_bucket l.max_tokens l.refill_rate now,
)

-- A request of one client leaves the tokens of the others alone.
pub is_allowed_cost_others :
    (now t : ℕ) (ip j : IpAddr) (cost : ℕ) (l : RateLimiter)
    → j ≢ ip
    → available t ip (is_allowed_cost now j cost l).0 ≡ available t ip l
unfolding is_allowed_cost
is_allowed_cost_others now t ip j cost l ne =
    ground (arith, lookup-insert j ip (try_consume now cost (bucket_of now j l)).0 l.buckets)

try_consume_fields :
    (now cost : ℕ) (b : TokenBucket)
    → ((try_consume now cost b).0.max_tokens ≡ b.max_tokens)
      × ((try_consume now cost b).0.refill_rate ≡ b.refill_rate)
unfolding try_consume
try_consume_fields now cost b = ground arith

new_bucket_fields :
    (mx rate now : ℕ)
    → ((new_bucket mx rate now).max_tokens ≡ mx) × ((new_bucket mx rate now).refill_rate ≡ rate)
unfolding new_bucket
new_bucket_fields mx rate now = (refl, refl)

pub bucket_of_fields :
    (now : ℕ) (ip : IpAddr) (l : RateLimiter)
    → IsUniform l.max_tokens l.refill_rate l.buckets
    → ((bucket_of now ip l).max_tokens ≡ l.max_tokens)
      × ((bucket_of now ip l).refill_rate ≡ l.refill_rate)
bucket_of_fields now ip l u = elim (Option-cases (lookup ip l.buckets)) [
  | inl e ↦ rw (e, bucket_of) (new_bucket_fields l.max_tokens l.refill_rate now)
  | inr (b, e) ↦ rw (e, bucket_of) (lookup-IsUniform ip b l.max_tokens l.refill_rate l.buckets u e)
]

-- Size and rate of every bucket are the limiter's, whatever is asked.
abbrev pub IsLevel : RateLimiter → Type 0
IsLevel l = IsUniform l.max_tokens l.refill_rate l.buckets

pub is_allowed_cost-IsLevel :
    (now : ℕ) (ip : IpAddr) (cost : ℕ) (l : RateLimiter)
    → IsLevel l
    → IsLevel (is_allowed_cost now ip cost l).0
unfolding is_allowed_cost
is_allowed_cost-IsLevel now ip cost l u =
    let (p, q) = try_consume_fields now cost (bucket_of now ip l) in
    let (p', q') = bucket_of_fields now ip l u in
    insert-IsUniform ip (try_consume now cost (bucket_of now ip l)).0 l.max_tokens l.refill_rate
      l.buckets u (p ∙ p') (q ∙ q')

is_allowed_cost_rate :
    (now : ℕ) (ip : IpAddr) (cost : ℕ) (l : RateLimiter)
    → (is_allowed_cost now ip cost l).0.refill_rate ≡ l.refill_rate
unfolding is_allowed_cost
is_allowed_cost_rate now ip cost l = refl

-- A request: its time, its client and its cost.
abbrev pub Request : Type 0
Request = ℕ × IpAddr × ℕ

-- All that a client is charged over a sequence of requests of any clients.
unfoldable pub charged : IpAddr → List Request → RateLimiter → ℕ
charged ip [] l = 0
charged ip ((now, j, cost) ∷ rs) l =
    let (l', allowed) = is_allowed_cost now j cost l in
    (if j == ip then charge allowed cost else 0) + charged ip rs l'

-- The requests come in order, none before the first time and none after the last.
abbrev pub IsTimed : ℕ → List Request → ℕ → Type 0
IsTimed t [] last = t ≤ last
IsTimed t ((now, _, _) ∷ rs) last = (t ≤ now) × IsTimed now rs last

last_le : (t : ℕ) (rs : List Request) (last : ℕ) → IsTimed t rs last → t ≤ last
last_le t [] last h = h
last_le t ((now, j, cost) ∷ rs) last h = omega (arith, last_le now rs last h.1)

-- What one request takes from the tokens of a client.
charged_step :
    (ip : IpAddr) (now : ℕ) (j : IpAddr) (cost : ℕ) (l : RateLimiter)
    → (if j == ip then charge (is_allowed_cost now j cost l).1 cost else 0)
        + available now ip (is_allowed_cost now j cost l).0
      ≡ available now ip l
charged_step ip now j cost l = elim (Bool-cases (j == ip)) [
  | inl same ↦ let e : j ≡ ip = ground arith in rw (same, e) (is_allowed_cost_self now ip cost l)
  | inr other ↦ rw (other, is_allowed_cost_others now now ip j cost l (ground arith)) (omega arith)
]

charged_le :
    (ip : IpAddr) (rs : List Request) (l : RateLimiter) (t last : ℕ)
    → IsLevel l
    → IsTimed t rs last
    → charged ip rs l ≤ available t ip l + (last - t) * l.refill_rate
unfolding charged
charged_le ip [] l t last u h = omega arith
charged_le ip ((now, j, cost) ∷ rs) l t last u (first, later) =
    let l' = (is_allowed_cost now j cost l).0 in
    let after = charged_le ip rs l' now last (is_allowed_cost-IsLevel now j cost l u) later in
    let rate = ap (λ (r : ℕ). (last - now) * r) (is_allowed_cost_rate now j cost l) in
    let split : last - t ≡ (now - t) + (last - now) = omega (arith, last_le now rs last later) in
    omega (
      arith,
      after,
      rate,
      charged_step ip now j cost l,
      available_later t now ip l u first,
      ap (λ (k : ℕ). k * l.refill_rate) split,
    )

available-le-max :
    (t : ℕ) (ip : IpAddr) (l : RateLimiter) → IsLevel l → available t ip l ≤ l.max_tokens
available-le-max t ip l u = elim (Option-cases (lookup ip l.buckets)) [
  | inl e ↦ ground arith
  | inr (b, e) ↦ ground (arith, lookup-IsUniform ip b l.max_tokens l.refill_rate l.buckets u e)
]

-- Over any sequence of requests of any clients, in order of time from t to last, what the limiter lets
-- one client spend is at most a full bucket and what the refill rate adds in that time. It holds of every
-- state in which all buckets have the limiter's size and rate, the initial one among them.
pub charged_bound :
    (ip : IpAddr) (rs : List Request) (l : RateLimiter) (t last : ℕ)
    → IsLevel l
    → IsTimed t rs last
    → charged ip rs l ≤ l.max_tokens + (last - t) * l.refill_rate
charged_bound ip rs l t last u h =
    omega (arith, charged_le ip rs l t last u h, available-le-max t ip l u)
