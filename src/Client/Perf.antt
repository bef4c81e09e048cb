-- ===== src/Client/Perf.antt =====
-- `client_echo_perf`: the first phase, what it makes of the handshakes that it tries until its time is up. The
-- list holds how each attempt ends. Times are whole microseconds and whole seconds.
pub mod Averages
pub mod Echoes
pub mod Exchange
pub mod Dialing
pub mod Answered
pub mod Growth
pub mod Session
pub mod Trial
pub mod Percentiles
pub mod Tests
use rdrive.Base.{
  ℕ, zero, suc, ◌+◌, ◌*◌, ◌/◌, Bool, true, false, Option, none, some, List, [], ◌∷◌, ◌++◌, length,
  ltb, leb, ◌==◌, if◌then◌else◌,
}
use rdrive.Base.Outcome.{Outcome, ok, panic, ◌>>=◌}
use rdrive.Fault.{Fault}

pub data Attempt : Type 0 where
  connected : (elapsed_us : ℕ) → Attempt
  -- `AddrInUse` or `AddrNotAvailable`
  out_of_ports : Attempt
  failed : Attempt

pub record Sample : Type 0 where
  -- Successes and failures, and the latencies of the successes.
  pub hss : ℕ
  pub hsf : ℕ
  pub latencies : List ℕ

abbrev pub no_sample : Sample
no_sample = record { hss = 0; hsf = 0; latencies = [] }

abbrev pub handshake_port_cap : ℕ
handshake_port_cap = 8192

-- The `while` loop.
unfoldable pub sample_handshakes : List Attempt → Sample → Sample
sample_handshakes [] s = s
sample_handshakes (connected elapsed_us ∷ rest) s =
    let more =
      sample_handshakes rest
        (record s { hss = s.hss + 1; latencies = s.latencies ++ (elapsed_us ∷ []) }) in
    if ltb s.hss handshake_port_cap then more else s
sample_handshakes (out_of_ports ∷ rest) s = s
sample_handshakes (failed ∷ rest) s =
    let more = sample_handshakes rest (record s { hsf = s.hsf + 1 }) in
    if ltb s.hss handshake_port_cap then more else s

unfoldable pub insert : ℕ → List ℕ → List ℕ
insert x [] = x ∷ []
insert x (y ∷ ys) = let rest = insert x ys in if leb x y then x ∷ y ∷ ys else y ∷ rest

-- `sort_unstable`
unfoldable pub sort : List ℕ → List ℕ
sort [] = []
sort (x ∷ xs) = insert x (sort xs)

abbrev pub get_elem? : List ℕ → ℕ → Option ℕ
get_elem? [] i = none
get_elem? (x ∷ xs) zero = some x
get_elem? (x ∷ xs) (suc i) = get_elem? xs i

abbrev pub indexed : Option ℕ → Outcome Fault ℕ
indexed none = panic
indexed (some x) = ok x

-- `latencies[(latencies.len() * k) / 100]`
unfoldable pub percentile : ℕ → List ℕ → Outcome Fault ℕ
percentile k latencies = indexed (get_elem? latencies (length latencies * k / 100))

pub record Report : Type 0 where
  pub handshake_per_sec : ℕ
  pub p50 : ℕ
  pub p95 : ℕ
  pub p99 : ℕ

-- Handshakes per second, and three percentiles.
abbrev pub sample_report : ℕ → Sample → Outcome Fault Report
sample_report sample_elapsed s =
    let latencies = sort s.latencies in
    if sample_elapsed == 0
    then panic
    else (percentile 50 latencies >>= λ p50. percentile 95 latencies >>= λ p95.
        percentile 99 latencies >>= λ p99.
        ok (record { handshake_per_sec = s.hss / sample_elapsed; p50 = p50; p95 = p95; p99 = p99 }))

unfoldable pub handshake_report : ℕ → List Attempt → Outcome Fault Report
handshake_report sample_elapsed attempts =
    sample_report sample_elapsed (sample_handshakes attempts no_sample)
