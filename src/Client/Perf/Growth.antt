-- ===== src/Client/Perf/Growth.antt =====
-- The echo loops at both ends only add to what they have written.
use rdrive.Base.{
  ℕ, zero, suc, ◌+◌, Bool-cases, inl, inr, List, [], ◌∷◌, Bytes, ◌≡◌, refl, sym, ◌∙◌, ap, ◌++◌,
  length, drop, drop-append, append_assoc,
}
use rdrive.Base.Outcome.{Outcome, ok, err, panic, pending}
use rdrive.Fault.{Fault, deserialize_failed}
use rdrive.Run.{Run, after, ◌>>=◌, or_fail}
use rdrive.Run.Keeps.{Keeps, Keeps-bind, Keeps-or_fail, Keeps-after}
use rdrive.Crypto.{Primitives, IsLawful}
use rdrive.Wire.{Wire, elapsed, timeout}
use rdrive.Wire.Frames.{read_encrypt_data_into, write_encrypt_frame_into}
use rdrive.Wire.Grows.{Grows, Keeps-quiet, Keeps-write_encrypt_frame, Grows-start}
use rdrive.Server.{Site}
use rdrive.Server.Reply.{send_frame}
use rdrive.Server.Echo.{is_quit, is_gone, echo_reply, echo_payload, handle_echo_perf}
use rdrive.Client.Perf.Echoes.{Averages, record_echo}
use rdrive.Client.Perf.Exchange.{echo_round, echo_rounds, timed}
use rdrive.Client.Perf.Answered.{read_writer, answer}
use rdrive.Wire.Limits.{sent}
use rdrive.Header.{EchoDebugHeader}

Keeps-timeout :
    {A : Type 0} (I : Wire → Type 0) (e : Fault) (m : Run Wire A)
    → Keeps I m
    → Keeps I (timeout e m)
Keeps-timeout {A} I e m k = record { at = λ w h. go (m w) (k.at w h) }
  where
    go : (r : Outcome Fault A × Wire) → I r.1 → I (elapsed e r).1
    go (ok a, w) h = h
    go (err f, w) h = h
    go (panic, w) h = h
    go (pending, w) h = h

module _ (P : Primitives) (C : Site) (key base : Bytes) where
  pub Keeps-read : Keeps (Grows base) (read_encrypt_data_into P key)
  Keeps-read = Keeps-quiet base _ (λ w. (read_writer P key w).1)

  Keeps-echo_round : (payload : Bytes) → Keeps (Grows base) (echo_round P C key payload)
  unfolding echo_round
  Keeps-echo_round payload =
      Keeps-bind _ _ (Keeps-write_encrypt_frame base P key payload)
        (λ _. Keeps-bind _ _ Keeps-read (λ r. Keeps-or_fail _ _))

  pub Keeps-echo_rounds :
      (rtt : ℕ → ℕ) (lens : List ℕ) (a : Averages)
      → Keeps (Grows base) (echo_rounds P C key rtt lens a)
  unfolding echo_rounds
  Keeps-echo_rounds rtt [] a = record { at = λ w g. g }
  Keeps-echo_rounds rtt (n ∷ lens) a = record {
    at = λ w g.
        (Keeps-bind (echo_round P C key (P.random w.draws n)) _
            (Keeps-echo_round (P.random w.draws n))
            (λ h. record { at = λ w' g'. (Keeps-echo_rounds rtt lens _).at w' g' })).at
          (record w { draws = w.draws + 1 }) g;
  }

  pub Keeps-echo_reply : (payload : Bytes) → Keeps (Grows base) (echo_reply P C key payload)
  unfolding echo_reply send_frame
  Keeps-echo_reply payload = record {
    at = λ w g.
        (Keeps-bind _ (send_frame P key) (Keeps-or_fail _ _)
            (λ s. Keeps-timeout _ _ _ (Keeps-write_encrypt_frame base P key s))).at
          w g;
  }

  echo_payload-Grows :
      (again : Run Wire (Unit {0})) (r : Outcome Fault Bytes) (w : Wire)
      → Keeps (Grows base) again
      → Grows base w
      → Grows base (echo_payload P C key again r w).1
  unfolding echo_payload
  echo_payload-Grows again (ok payload) w k g = elim (Bool-cases (is_quit payload)) [
    | inl q ↦ rw q g
    | inr q ↦ rw q ((Keeps-bind _ _ (Keeps-echo_reply payload) (λ _. k)).at w g)
  ]
  echo_payload-Grows again (err e) w k g = elim (Bool-cases (is_gone e)) [
    | inl q ↦ rw q g
    | inr q ↦ rw q g
  ]
  echo_payload-Grows again panic w k g = g
  echo_payload-Grows again pending w k g = g

  pub Keeps-handle_echo_perf : (fuel : ℕ) → Keeps (Grows base) (handle_echo_perf P C key fuel)
  unfolding handle_echo_perf
  Keeps-handle_echo_perf zero = record { at = λ w g. g }
  Keeps-handle_echo_perf (suc fuel) = record {
    at = λ w g.
        echo_payload-Grows _ (read_encrypt_data_into P key w).0 (read_encrypt_data_into P key w).1
          (Keeps-handle_echo_perf fuel) (Keeps-read.at w g);
  }

pub sent_trans :
    (P : Primitives) (L : IsLawful P) (key : Bytes) (w w₁ w₂ : Wire)
    → Grows w.output w₁
    → Grows w₁.output w₂
    → sent P L key w w₂ ≡ sent P L key w w₁ ++ sent P L key w₁ w₂
sent_trans P L key w w₁ w₂ (x, e) (y, e') =
    let after_first = drop-append (length w.output) w.output in
    ap (λ o. drop (length w.output) o) (e' ∙ ap (λ o. o ++ y) e ∙ append_assoc w.output x y)
    ∙ after_first (x ++ y) refl
    ∙ ap (λ l. l ++ y) (sym (ap (λ o. drop (length w.output) o) e ∙ after_first x refl))
    ∙ ap (λ r. sent P L key w w₁ ++ r)
        (sym (
          ap (λ o. drop (length w₁.output) o) e' ∙ drop-append (length w₁.output) w₁.output y refl))

module _ (P : Primitives) (C : Site) (key : Bytes) where
  -- Behind its write the client's loop only adds.
  pub echo_rounds-Grows :
      (rtt : ℕ → ℕ) (n : ℕ) (lens : List ℕ) (a : Averages) (w : Wire)
      → Grows
          (write_encrypt_frame_into P key
            (P.random w.draws n)
            (record w { draws = w.draws + 1 })).1.output
          (echo_rounds P C key rtt (n ∷ lens) a w).1
  unfolding echo_round echo_rounds
  echo_rounds-Grows rtt n lens a w =
      let r =
        write_encrypt_frame_into P key (P.random w.draws n) (record w { draws = w.draws + 1 }) in
      let base = r.1.output in
      let decode : Unit {0} → Run Wire EchoDebugHeader = λ _. read_encrypt_data_into P key >>= λ b.
      or_fail (C.echo_debug.deserialize b) deserialize_failed in
      let next : EchoDebugHeader → Run Wire Averages =
        λ h w'. echo_rounds P C key rtt lens (record_echo (timed h (rtt w'.draws)) a) w' in
      Keeps-after next (after decode r)
        (λ h. record { at = λ w' g. (Keeps-echo_rounds P C key base rtt lens _).at w' g })
        (Keeps-after decode r
          (λ _. Keeps-bind _ _ (Keeps-read P C key base) (λ b. Keeps-or_fail _ _))
          (Grows-start r.1))

  pub answer-Grows : (s : Wire) → Grows s.output (answer P C key s)
  answer-Grows s =
      (Keeps-bind _ _ (Keeps-read P C key s.output) (Keeps-echo_reply P C key s.output)).at s
        (Grows-start s)
