-- ===== src/Client/Perf/Dialing.antt =====
-- `client_echo_perf`, its first phase with the connections that it tries, and both phases. The list holds what each
-- `TcpStream::connect` gives, until the time is up.
use rdrive.Base.{
  ℕ, ◌+◌, ◌≡◌, true, List, [], ◌∷◌, ◌++◌, ltb, arith, Bool-cases, inl, inr, if◌then◌else◌,
}
use rdrive.Base.Outcome.{Outcome, ok, err, panic, pending}
use rdrive.Fault.{Fault}
use rdrive.Run.{Run, ◌>>=◌, ◌>>◌, pure, modify, lift}
use rdrive.Run.Laws.{>>=-eq-ok}
use rdrive.Crypto.{Primitives}
use rdrive.Wire.{Wire}
use rdrive.Server.{Site}
use rdrive.Client.{Profile, Client}
use rdrive.Client.Handshake.{client_handshake}
use rdrive.Client.Perf.{
  Attempt, connected, out_of_ports, failed, Sample, no_sample, handshake_port_cap,
  sample_handshakes, Report, sample_report,
}
use rdrive.Client.Perf.Echoes.{EchoReport}
use rdrive.Client.Perf.Exchange.{echo_phase}

pub data Dial : Type 0 where
  -- `AddrInUse` or `AddrNotAvailable`
  no_port : Dial
  unreachable : Dial
  over : (wire : Wire) → Dial

-- What the network, the clock and the source of the lengths give to one run: what each connect gives, the whole
-- seconds of the first phase and the microseconds of its latencies, the connection of the second phase, the
-- milliseconds of its round trips, and the lengths of its payloads.
pub record Conditions : Type 0 where
  pub dials : List Dial
  pub sample_elapsed : ℕ
  pub latency_us : ℕ → ℕ
  pub wire : Wire
  pub rtt : ℕ → ℕ
  pub rand_lens : List ℕ

module _ (P : Primitives) (C : Site) (U : Profile) (latency_us : ℕ → ℕ) where
  -- `match client_handshake_helper(…).await`, on its result.
  abbrev pub ended : {A : Type 0} → Outcome Fault A × Client → Outcome Fault Attempt × Client
  ended (ok key, c) =
      (ok (connected (latency_us c.wire.draws)), record c { wire = record c.wire { shut = true } })
  ended (err e, c) = (ok failed, c)
  ended (panic, c) = (panic, c)
  ended (pending, c) = (pending, c)

  unfoldable pub attempt_handshake : Dial → Run Client Attempt
  attempt_handshake no_port c = (ok out_of_ports, c)
  attempt_handshake unreachable c = (ok failed, c)
  attempt_handshake (over wire) c = ended (client_handshake P C U true (record c { wire = wire }))

  -- The arms of the `match`, on the rest of the loop.
  abbrev pub count_attempt : (Sample → Run Client Sample) → Sample → Attempt → Run Client Sample
  count_attempt more s (connected elapsed_us) =
      more (record s { hss = s.hss + 1; latencies = s.latencies ++ (elapsed_us ∷ []) })
  count_attempt more s out_of_ports = pure s
  count_attempt more s failed = more (record s { hsf = s.hsf + 1 })

  -- The `while` loop.
  unfoldable pub dial_handshakes : List Dial → Sample → Run Client Sample
  dial_handshakes [] s = pure s
  dial_handshakes (dial ∷ rest) s =
      let more = attempt_handshake dial >>= count_attempt (dial_handshakes rest) s in
      if ltb s.hss handshake_port_cap then more else pure s

  -- The sample is one that `sample_handshakes` makes of some attempts.
  abbrev IsSample : Sample → Sample → Type 0
  IsSample s s' = (attempts : List Attempt) × (sample_handshakes attempts s ≡ s')

  count_attempt-IsSample :
      (more : Sample → Run Client Sample) (a : Attempt) (s s' : Sample) (c c' : Client)
      → ltb s.hss handshake_port_cap ≡ true
      → ((t : Sample) → more t c ≡ (ok s', c') → IsSample t s')
      → count_attempt more s a c ≡ (ok s', c')
      → IsSample s s'
  unfolding sample_handshakes
  count_attempt-IsSample more (connected t) s s' c c' go rest h =
      let (attempts, e) = rest _ h in (connected t ∷ attempts, rw go e)
  count_attempt-IsSample more out_of_ports s s' c c' go rest h = ([], ground (arith, h))
  count_attempt-IsSample more failed s s' c c' go rest h =
      let (attempts, e) = rest _ h in (failed ∷ attempts, rw go e)

  -- A loop that comes to its end has a sample that `sample_handshakes` makes of some attempts.
  dial_handshakes-IsSample :
      (dials : List Dial) (s s' : Sample) (c c' : Client)
      → dial_handshakes dials s c ≡ (ok s', c')
      → IsSample s s'
  unfolding dial_handshakes sample_handshakes
  dial_handshakes-IsSample [] s s' c c' h = ([], ground (arith, h))
  dial_handshakes-IsSample (dial ∷ rest) s s' c c' h =
      elim (Bool-cases (ltb s.hss handshake_port_cap)) [
        | inr stop ↦ ([], ground (arith, (rw stop at h)))
        | inl go ↦
            let (a, c₁, _, k) =
              >>=-eq-ok (attempt_handshake dial) (count_attempt (dial_handshakes rest) s) c
                (rw go at h) in
            count_attempt-IsSample (dial_handshakes rest) a s s' c₁ c' go
              (λ t. dial_handshakes-IsSample rest t s' c₁ c') k
      ]

-- Both phases; the second has a connection of its own.
unfoldable pub client_echo_perf :
    Primitives → Site → Profile → Conditions → Run Client (Report × EchoReport)
client_echo_perf P C U given = do
  s ← dial_handshakes P C U given.latency_us given.dials no_sample
  report ← lift (sample_report given.sample_elapsed s)
  modify (λ c. record c { wire = given.wire })
  echo_report ← echo_phase P C U given.rtt given.rand_lens
  pure (report, echo_report)
