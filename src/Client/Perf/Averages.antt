-- ===== src/Client/Perf/Averages.antt =====
-- The averages of the second phase, while the rings have room.
use rdrive.Base.{ℕ, ◌/◌, ◌≡◌, List, ◌++◌, length, map}
use rdrive.Client.Perf.Echoes.{max_record, Echoed, Averages, sum}

-- The ring starts with this history.
IsFilled : List ℕ → List ℕ → Type 0
IsFilled h ring = (zs : List ℕ) × (ring ≡ h ++ zs) × (length ring ≡ max_record)

mean : (Echoed → ℕ) → List Echoed → ℕ
mean f h = sum (map f h) / length h

-- The loop has gone through these round trips.
HasSeen : List Echoed → Averages → Type 0
HasSeen h a =
    (a.record_count ≡ length h)
    × (length a.latencies ≡ length h)
    × IsFilled (map Echoed.process_ms h) a.record_process_time
    × IsFilled (map Echoed.rtt_ms h) a.record_rtt
    × (a.final_avg_st ≡ mean Echoed.process_ms h)
    × (a.final_avg_nt ≡ mean Echoed.rtt_ms h)
