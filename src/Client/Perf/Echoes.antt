-- ===== src/Client/Perf/Echoes.antt =====
-- `client_echo_perf`, its second phase: two rings of the latest times, their averages, and the final report. The
-- list holds how each round trip ends, until the time is up.
use rdrive.Base.{ℕ, zero, suc, ◌+◌, ◌/◌, ◌%◌, List, [], ◌∷◌, ◌++◌, replicate, take, min}
use rdrive.Base.Word32.{as_u32}
use rdrive.Base.Outcome.{Outcome, ok, ◌>>=◌}
use rdrive.Fault.{Fault}
use rdrive.Client.Perf.{sort, percentile}

abbrev pub max_record : ℕ
max_record = 4096

pub record Echoed : Type 0 where
  pub payload_len : ℕ
  pub process_ms : ℕ
  pub rtt_ms : ℕ

pub record Averages : Type 0 where
  pub record_count : ℕ
  pub payload_acc : ℕ
  pub final_avg_st : ℕ
  pub final_avg_nt : ℕ
  pub record_process_time : List ℕ
  pub record_rtt : List ℕ
  pub latencies : List ℕ

unfoldable pub no_averages : Averages
no_averages = record {
  record_count = 0;
  payload_acc = 0;
  final_avg_st = 0;
  final_avg_nt = 0;
  record_process_time = replicate max_record 0;
  record_rtt = replicate max_record 0;
  latencies = [];
}

-- `ring[i] = x`, for an index in range.
unfoldable pub set : ℕ → ℕ → List ℕ → List ℕ
set i x [] = []
set zero x (y ∷ ys) = x ∷ ys
set (suc i) x (y ∷ ys) = y ∷ set i x ys

unfoldable pub sum : List ℕ → ℕ
sum [] = 0
sum (x ∷ xs) = x + sum xs

-- The average of the entries that a ring has after the record of this number.
unfoldable pub ring_average : ℕ → List ℕ → ℕ
ring_average record_count ring =
    let filled = min (record_count + 1) max_record in sum (take filled ring) / filled

-- The payloads' megabytes are a `u32`, which wraps in a release build.
unfoldable pub record_echo : Echoed → Averages → Averages
record_echo echo a =
    let record_process_time =
      set (a.record_count % max_record) echo.process_ms a.record_process_time in
    let record_rtt = set (a.record_count % max_record) echo.rtt_ms a.record_rtt in
    let avg_st = ring_average a.record_count record_process_time in
    let avg_nt = ring_average a.record_count record_rtt in
    record {
      record_count = a.record_count + 1;
      payload_acc = as_u32 (a.payload_acc + echo.payload_len / 1048576);
      final_avg_st = avg_st;
      final_avg_nt = avg_nt;
      record_process_time = record_process_time;
      record_rtt = record_rtt;
      latencies = a.latencies ++ (avg_nt ∷ []);
    }

-- The `while` loop. A round trip that fails ends the benchmark.
unfoldable pub sample_echoes : List (Outcome Fault Echoed) → Averages → Outcome Fault Averages
sample_echoes [] a = ok a
sample_echoes (echo ∷ rest) a = echo >>= λ e. sample_echoes rest (record_echo e a)

pub record EchoReport : Type 0 where
  pub samples : ℕ
  pub total_payload : ℕ
  pub server_time_avg : ℕ
  pub network_time_avg : ℕ
  pub p50 : ℕ
  pub p95 : ℕ
  pub p99 : ℕ

-- What follows the loop.
abbrev pub report_of : Averages → Outcome Fault EchoReport
report_of a =
    let latencies = sort a.latencies in
    percentile 50 latencies >>= λ p50. percentile 95 latencies >>= λ p95.
    percentile 99 latencies >>= λ p99. ok (record {
      samples = a.record_count;
      total_payload = a.payload_acc;
      server_time_avg = a.final_avg_st;
      network_time_avg = a.final_avg_nt;
      p50 = p50;
      p95 = p95;
      p99 = p99;
    })

unfoldable pub echo_report : List (Outcome Fault Echoed) → Outcome Fault EchoReport
echo_report echoes = sample_echoes echoes no_averages >>= report_of
