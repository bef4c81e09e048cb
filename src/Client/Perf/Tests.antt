-- ===== src/Client/Perf/Tests.antt =====
-- A sample of four attempts that lasts two seconds.
use rdrive.Base.{map, replicate, take, ℕ, ◌≤◌, ◌≡◌, ◌≢◌, ◌⊎◌, List, [], ◌∷◌, refl}
use rdrive.Base.Outcome.{ok, panic}
use rdrive.Client.Perf.{
  Attempt, connected, failed, no_sample, sample_handshakes, Report, handshake_report, percentile,
  sort, insert,
}
use rdrive.Client.Perf.Echoes.{
  Echoed, echo_report, sum, no_averages, sample_echoes, record_echo, ring_average, set,
}
use rdrive.Client.Perf.Percentiles.{handshake_report_lem}

abbrev four_attempts : List Attempt
four_attempts = connected 900 ∷ failed ∷ connected 300 ∷ connected 700 ∷ []

four_attempts_reported :
    handshake_report 2 four_attempts
    ≡ ok (record { handshake_per_sec = 1; p50 = 700; p95 = 900; p99 = 900 })
unfolding handshake_report percentile sort sample_handshakes insert
four_attempts_reported = refl

handshake_report_lem_example :
    ((handshake_report 2 four_attempts ≡ panic)
      × ((◌≡◌ {A = ℕ} 2 0) ⊎ ((sample_handshakes four_attempts no_sample).hss ≡ 0)))
    ⊎ ((r : Report) × (handshake_report 2 four_attempts ≡ ok r)
        × (◌≢◌ {A = ℕ} 2 0)
        × ((sample_handshakes four_attempts no_sample).hss ≢ 0)
        × (r.p50 ≤ r.p95)
        × (r.p95 ≤ r.p99))
handshake_report_lem_example = handshake_report_lem 2 four_attempts

abbrev two_echoes : List Echoed
two_echoes =
    record { payload_len = 3000000; process_ms = 10; rtt_ms = 30 }
    ∷ record { payload_len = 9000000; process_ms = 20; rtt_ms = 80 }
    ∷ []

two_echoes_reported :
    echo_report (map ok two_echoes)
    ≡ ok (record {
      samples = 2;
      total_payload = 10;
      server_time_avg = 15;
      network_time_avg = 55;
      p50 = 55;
      p95 = 55;
      p99 = 55;
    })
unfolding echo_report sample_echoes percentile sort record_echo no_averages insert ring_average sum
    take set replicate
two_echoes_reported = refl

no_echo_reported : echo_report [] ≡ panic
unfolding echo_report no_averages sort percentile sample_echoes
no_echo_reported = refl
