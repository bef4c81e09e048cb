-- ===== src/Client/Perf/Exchange.antt =====
-- `client_echo_perf`, its second phase: the messages. The list holds the lengths that are drawn for the payloads,
-- until the time is up. A hash in an answer that is not the payload's is printed and passed over.
use rdrive.Base.{ℕ, true, List, [], ◌∷◌, Bytes}
use rdrive.Fault.{handshake_failed, serialize_failed, deserialize_failed}
use rdrive.Run.{Run, ◌>>=◌, ◌>>◌, pure, gets, lift, or_fail}
use rdrive.Crypto.{Primitives}
use rdrive.Wire.{Wire, draw, map_err, shutdown}
use rdrive.Wire.Frames.{read_encrypt_data_into, write_encrypt_frame_into}
use rdrive.Header.{EchoDebugHeader, echo}
use rdrive.Server.{Site}
use rdrive.Client.{Profile, Client, on_wire}
use rdrive.Client.Handshake.{client_handshake}
use rdrive.Client.Perf.Echoes.{Echoed, Averages, no_averages, record_echo, EchoReport, report_of}

abbrev pub timed : EchoDebugHeader → ℕ → Echoed
timed header rtt_ms = record {
  payload_len = header.payload_len;
  process_ms = header.process_ms;
  rtt_ms = rtt_ms;
}

module _ (P : Primitives) (C : Site) where
  module _ (session_key : Bytes) where
    -- One payload, and the answer to it.
    unfoldable pub echo_round : Bytes → Run Wire EchoDebugHeader
    echo_round rand_payload = do
      write_encrypt_frame_into P session_key rand_payload
      response ← read_encrypt_data_into P session_key
      or_fail (C.echo_debug.deserialize response) deserialize_failed

    -- The `while` loop. The round trip's milliseconds are by the number of draws, like the readings of the clock.
    unfoldable pub echo_rounds : (ℕ → ℕ) → List ℕ → Averages → Run Wire Averages
    echo_rounds rtt [] a = pure a
    echo_rounds rtt (rand_len ∷ rest) a = draw P rand_len >>= λ rand_payload.
        echo_round rand_payload >>= λ header. gets (λ w. rtt w.draws) >>= λ rtt_ms.
        echo_rounds rtt rest (record_echo (timed header rtt_ms) a)

  -- The second phase, from its own handshake on.
  unfoldable pub echo_phase : Profile → (ℕ → ℕ) → List ℕ → Run Client EchoReport
  echo_phase U rtt rand_lens = do
    session_key ← map_err handshake_failed (client_handshake P C U true)
    request ← or_fail (C.command.serialize echo) serialize_failed
    on_wire (write_encrypt_frame_into P session_key request)
    averages ← on_wire (echo_rounds session_key rtt rand_lens no_averages)
    report ← lift (report_of averages)
    on_wire shutdown
    pure report
