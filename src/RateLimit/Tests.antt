-- ===== src/RateLimit/Tests.antt =====
-- A limiter of two tokens at one token a second, and the theorems at it.
use rdrive.Base.{◌+◌, ◌*◌, ◌≤◌, ◌≡◌, refl, List, [], ◌∷◌, arith}
use rdrive.RateLimit.{
  unit, RateLimiter, new_limiter, is_allowed_cost, tokens_remaining, cleanup_stale,
}
use rdrive.RateLimit.Bound.{Request, charged, charged_bound, available}
use rdrive.RateLimit.Stale.{available-cleanup_stale}

small : RateLimiter
unfolding new_limiter
small = new_limiter (2 * unit) 1

abbrev requests : List Request
requests =
    (0, 1, 2 * unit) ∷ (5, 2, unit) ∷ (unit, 1, unit) ∷ (unit, 1, unit) ∷ (unit * 2, 1, unit) ∷ []

charged_run : charged 1 requests small ≡ 4 * unit
unfolding charged small is_allowed_cost
charged_run = refl

charged_bound_example : charged 1 requests small ≤ 2 * unit + 2 * unit * 1
unfolding small
charged_bound_example =
    charged_bound 1 requests (new_limiter (2 * unit) 1) 0 (2 * unit) tt (omega arith)

spent : RateLimiter
unfolding small is_allowed_cost
spent = (is_allowed_cost 0 1 (2 * unit) small).0

tokens_left : tokens_remaining 1 spent ≡ 0
unfolding tokens_remaining spent
tokens_left = refl

available-cleanup_stale_example :
    available (3 * unit) 1 (cleanup_stale (2 * unit) 2 spent) ≡ available (3 * unit) 1 spent
unfolding spent
available-cleanup_stale_example =
    available-cleanup_stale (2 * unit) (3 * unit) 2 1 (omega arith) spent (omega arith)
      (omega arith) (refl, tt)
