-- ===== src/Client/Perf/Trial.antt =====
-- Two rounds of the benchmark, of five and of six bytes.
use rdrive.Base.{
  ℕ, ◌+◌, ◌≡◌, refl, take, drop, replicate, Option, some, none, [], ◌∷◌, ◌++◌, arith, Bytes,
}
use rdrive.Base.Outcome.{ok}
use rdrive.Crypto.{encrypt_into, decrypt_into}
use rdrive.Crypto.Toy.{toy, toy-IsLawful, fit, zero_tag, length-fit}
use rdrive.Wire.{Wire, read_exact, write_all, grown}
use rdrive.Wire.Frames.{
  framed, read_frame_length, read_body, read_encrypt_data_into, write_encrypt_frame_into,
}
use rdrive.Wire.Limits.{sent}
use rdrive.Wire.Delivered.{Seals}
use rdrive.Header.{IsFaithful, EchoDebugHeader}
use rdrive.Server.{Site}
use rdrive.Server.Reply.{send_frame}
use rdrive.Server.Echo.{is_quit, echo_reply, echo_payload, handle_echo_perf}
use rdrive.Server.Toy.{site, wire_of}
use rdrive.Client.Perf.Echoes.{Averages, no_averages, record_echo}
use rdrive.Client.Perf.Exchange.{echo_round, echo_rounds}
use rdrive.Client.Perf.Answered.{IsAnswerable}
use rdrive.Client.Perf.Session.{echo_rounds-answered}

abbrev read_debug : Bytes → Option EchoDebugHeader
read_debug (n ∷ t ∷ s) = some (record { payload_len = n; payload_hash = s; process_ms = t })
read_debug _ = none

abbrev echo_site : Site
echo_site = record site {
  echo_debug = record {
    serialize = λ h. some (h.payload_len ∷ h.process_ms ∷ h.payload_hash);
    deserialize = read_debug;
  };
}

echo_debug-IsFaithful : IsFaithful echo_site.echo_debug
echo_debug-IsFaithful h [] e = absurd (ground arith)
echo_debug-IsFaithful h (n ∷ []) e = absurd (ground arith)
echo_debug-IsFaithful h (n ∷ t ∷ s) e = ground arith

answerable : (payload : Bytes) → IsAnswerable toy echo_site [] payload
answerable payload time = (_, refl, omega (arith, length-fit 32 payload))

seals : Seals toy
seals key nonce plain small = ((plain, zero_tag), refl)

-- What the client draws and sends.
abbrev frame_of : ℕ → ℕ → Bytes
frame_of draws n = framed (fit 12 ((draws + 1) ∷ []) ++ (fit n (draws ∷ []) ++ zero_tag))

serving : Wire
unfolding fit
serving = wire_of (frame_of 0 5 ++ (frame_of 2 6 ++ (9 ∷ [])))

served : Wire
unfolding serving handle_echo_perf echo_payload echo_reply send_frame is_quit read_encrypt_data_into
    read_frame_length read_body read_exact write_encrypt_frame_into encrypt_into decrypt_into
    write_all grown fit take drop replicate
served = (handle_echo_perf toy echo_site [] 2 serving).1

trying : Wire
unfolding served
trying = wire_of (served.output ++ (8 ∷ []))

sent_up :
    serving.input
    ≡ sent toy toy-IsLawful [] trying
        (echo_rounds toy echo_site [] (λ n. n) (5 ∷ 6 ∷ []) no_averages trying).1
      ++ (9 ∷ [])
unfolding trying serving echo_round echo_rounds read_encrypt_data_into record_echo no_averages
    read_frame_length read_body read_exact write_encrypt_frame_into encrypt_into decrypt_into
    write_all grown fit take drop replicate
sent_up = refl

sent_down :
    trying.input
    ≡ sent toy toy-IsLawful [] serving (handle_echo_perf toy echo_site [] 2 serving).1 ++ (8 ∷ [])
unfolding trying served serving drop
sent_down = refl

echo_rounds-answered_example :
    (b : Averages) × (w' : Wire) × (s' : Wire) × (echo_rounds toy echo_site []
        (λ n. n)
        (5 ∷ 6 ∷ [])
        no_averages
        trying
      ≡ (ok b, w'))
    × (b.record_count ≡ 0 + 2)
    × (b.payload_acc ≡ 0 + 0)
    × (w'.input ≡ 8 ∷ [])
    × (s'.input ≡ 9 ∷ [])
    × ((fuel : ℕ)
        → handle_echo_perf toy echo_site [] (2 + fuel) serving
          ≡ handle_echo_perf toy echo_site [] fuel s')
unfolding no_averages trying serving
echo_rounds-answered_example =
    echo_rounds-answered toy toy-IsLawful seals echo_site [] (λ n. n) (5 ∷ 6 ∷ []) no_averages
      (9 ∷ []) (8 ∷ []) trying serving echo_debug-IsFaithful answerable
      ((omega arith, omega arith, (omega arith, omega arith, tt))) (omega arith) (refl, refl)
      sent_up sent_down
