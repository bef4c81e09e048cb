-- ===== src/Client/Perf/Answered.antt =====
-- A round of the benchmark, and the server's answer to it.
use rdrive.Base.{
  ℕ, suc, ◌+◌, ◌≤◌, ◌≡◌, refl, sym, ◌∙◌, ap, false, some, [], ◌++◌, arith, Bytes, length, drop,
}
use rdrive.Base.Word32.{as_u32}
use rdrive.Base.Outcome.{ok}
use rdrive.Fault.{write_timeout, deserialize_failed}
use rdrive.Run.{Run, after, ◌>>=◌, or_fail}
use rdrive.Crypto.{Primitives, IsLawful}
use rdrive.Wire.{Wire, elapsed, read_exact, write_all}
use rdrive.Wire.Frames.{
  max_frame_length, read_frame_length, read_body, read_encrypt_data_into, write_encrypt_frame_into,
}
use rdrive.Wire.Limits.{sent, read-write_encrypt_frame}
use rdrive.Wire.Delivered.{Seals, write_encrypt_frame_delivered}
use rdrive.Header.{IsFaithful, EchoDebugHeader}
use rdrive.Server.{Site}
use rdrive.Server.Reply.{send_frame}
use rdrive.Server.Echo.{is_quit, echo_reply, echo_payload, handle_echo_perf}
use rdrive.Client.Perf.Exchange.{echo_round}

-- A read leaves the writing half alone.
read_body_writer :
    (P : Primitives) (key : Bytes) (n : ℕ) (w : Wire)
    → ((read_body P key n w).1.fates ≡ w.fates) × ((read_body P key n w).1.output ≡ w.output)
unfolding read_body read_exact
read_body_writer P key n w = (ground arith, ground arith)

pub read_writer :
    (P : Primitives) (key : Bytes) (w : Wire)
    → ((read_encrypt_data_into P key w).1.fates ≡ w.fates)
      × ((read_encrypt_data_into P key w).1.output ≡ w.output)
unfolding read_encrypt_data_into read_frame_length read_body read_exact
read_writer P key w = (ground arith, ground arith)

write_input :
    (P : Primitives) (key s : Bytes) (w : Wire)
    → (write_encrypt_frame_into P key s w).1.input ≡ w.input
unfolding write_encrypt_frame_into write_all
write_input P key s w = ground arith

module _ (P : Primitives) (C : Site) (key : Bytes) where
  -- The server's part of a round.
  abbrev pub answer : Wire → Wire
  answer s = ((read_encrypt_data_into P key >>= echo_reply P C key) s).1

  -- The answer to a payload can be encoded, in a frame.
  abbrev pub IsAnswerable : Bytes → Type 0
  IsAnswerable payload =
      (time : ℕ)
      → (b : Bytes) × (C.echo_debug.serialize (record {
        payload_len = as_u32 (length payload);
        payload_hash = P.sha256 payload;
        process_ms = time;
      })
          ≡ some b)
        × (length b + 28 ≤ max_frame_length)

module _ (P : Primitives) (L : IsLawful P) (seals : Seals P) (C : Site) (key : Bytes) where
  -- A payload that the client has written is answered, and the server's loop goes on behind the answer.
  pub answered :
      (payload more : Bytes) (w s : Wire)
      → (w.fates ≡ []) × (s.fates ≡ [])
      → is_quit payload ≡ false
      → length payload + 28 ≤ max_frame_length
      → IsAnswerable P C key payload
      → s.input ≡ sent P L key w (write_encrypt_frame_into P key payload w).1 ++ more
      → (b : Bytes) × (s₁ : Wire) × (C.echo_debug.serialize (record {
        payload_len = as_u32 (length payload);
        payload_hash = P.sha256 payload;
        process_ms = C.elapsed s₁.draws;
      })
          ≡ some b)
        × (length b + 28 ≤ max_frame_length)
        × (s₁.output ≡ s.output)
        × (write_encrypt_frame_into P key b s₁ ≡ (ok tt, answer P C key s))
        × ((answer P C key s).fates ≡ [])
        × ((answer P C key s).input ≡ more)
        × ((fuel : ℕ)
            → handle_echo_perf P C key (suc fuel) s
              ≡ handle_echo_perf P C key fuel (answer P C key s))
  unfolding handle_echo_perf echo_payload echo_reply send_frame
  answered payload more w s (quiet, quiet₁) going fits answerable up =
      let (w₁, sealed, _) =
        write_encrypt_frame_delivered P L seals key payload w quiet (omega (arith, fits)) in
      let (s₁, read, left) =
        read-write_encrypt_frame P L key payload more w w₁ s sealed fits
          (up ∙ ap (λ r. sent P L key w r.1 ++ more) sealed) in
      let kept = read_writer P key s in
      let (b, encoded, small) = answerable (C.elapsed s₁.draws) in
      let (s', wrote, quiet') =
        write_encrypt_frame_delivered P L seals key b s₁
          (sym (ap (λ r. r.1.fates) read) ∙ kept.0 ∙ quiet₁) (omega (arith, small)) in
      let same : s'.input ≡ s₁.input = sym (ap (λ r. r.1.input) wrote) ∙ write_input P key b s₁ in
      let timed = ap (elapsed write_timeout) wrote in
      let replied : echo_reply P C key payload s₁ ≡ (ok tt, s') = rw (encoded, timed) refl in
      let final : answer P C key s ≡ s' =
        ap (λ r. (after (echo_reply P C key) r).1) read ∙ ap (λ r. r.1) replied in
      (
        b,
        s₁,
        encoded,
        small,
        sym (ap (λ r. r.1.output) read) ∙ kept.1,
        rw final wrote,
        rw final quiet',
        rw final (same ∙ left),
        λ fuel.
            ap (λ r. echo_payload P C key (handle_echo_perf P C key fuel) r.0 r.1) read
            ∙ rw (going, final) (ap (after (λ _. handle_echo_perf P C key fuel)) replied),
      )

  -- A round of the benchmark succeeds: the server answers the payload and its loop goes on behind it, and the client
  -- reads back the payload's length and hash. Each end reads what the other has written and its wire delivers, the
  -- payload is none that ends the loop and fits a frame, and so does the answer, which is read back as it was written.
  pub echo_round-answer :
      (payload more rest : Bytes) (w s : Wire)
      → IsFaithful C.echo_debug
      → (w.fates ≡ []) × (s.fates ≡ [])
      → is_quit payload ≡ false
      → length payload + 28 ≤ max_frame_length
      → IsAnswerable P C key payload
      → s.input ≡ sent P L key w (write_encrypt_frame_into P key payload w).1 ++ more
      → w.input ≡ sent P L key s (answer P C key s) ++ rest
      → ((fuel : ℕ)
          → handle_echo_perf P C key (suc fuel) s
            ≡ handle_echo_perf P C key fuel (answer P C key s))
        × ((answer P C key s).input ≡ more)
        × ((answer P C key s).fates ≡ [])
        × ((h : EchoDebugHeader) × (w' : Wire) × (echo_round P C key payload w ≡ (ok h, w'))
            × (h.payload_len ≡ length payload)
            × (h.payload_hash ≡ P.sha256 payload)
            × (w'.input ≡ rest)
            × (w'.fates ≡ [])
            × (w'.output ≡ (write_encrypt_frame_into P key payload w).1.output))
  unfolding echo_round
  echo_round-answer payload more rest w s faithful (quiet, quiet₁) going fits answerable up down =
      let (w₁, wrote, quiet₂) =
        write_encrypt_frame_delivered P L seals key payload w quiet (omega (arith, fits)) in
      let (b, s₁, encoded, small, same, answered_it, quiet₃, left', goes_on) =
        answered payload more w s (quiet, quiet₁) going fits answerable up in
      let input : w₁.input ≡ sent P L key s₁ (answer P C key s) ++ rest =
        sym (ap (λ r. r.1.input) wrote)
        ∙ write_input P key payload w
        ∙ down
        ∙ ap (λ o. drop (length o) (answer P C key s).output ++ rest) (sym same) in
      let (w₂, read₂, left₂) =
        read-write_encrypt_frame P L key b rest s₁ (answer P C key s) w₁ answered_it small input in
      let kept₂ = read_writer P key w₁ in
      let decoded = faithful _ b encoded in
      let decode : Bytes → Run Wire EchoDebugHeader =
        λ r. or_fail (C.echo_debug.deserialize r) deserialize_failed in
      (
        goes_on,
        left',
        quiet₃,
        (
          record {
            payload_len = as_u32 (length payload);
            payload_hash = P.sha256 payload;
            process_ms = C.elapsed s₁.draws;
          },
          w₂,
          ap (after (λ _. read_encrypt_data_into P key >>= decode)) wrote
              ∙ ap (after decode) read₂
              ∙ rw decoded refl,
          omega (arith, fits),
          refl,
          left₂,
          sym (ap (λ r. r.1.fates) read₂) ∙ kept₂.0 ∙ quiet₂,
          sym (ap (λ r. r.1.output) read₂) ∙ kept₂.1 ∙ sym (ap (λ r. r.1.output) wrote),
        ),
      )
