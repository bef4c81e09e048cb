-- ===== src/Server/Handshake/Session.antt =====
-- The session that the handshake sets up.
use rdrive.Base.{
  ◌+◌, ◌<◌, ◌≤◌, ◌≡◌, refl, ap, true, false, some, [], ◌++◌, arith, Bytes, length, length-append,
  take-append, drop-append, ltb, ltb_of_le,
}
use rdrive.Base.Outcome.{ok}
use rdrive.Fault.{hello_timeout, signature_timeout, write_timeout}
use rdrive.Crypto.{Primitives, IsLawful}
use rdrive.Wire.{Wire, elapsed, timeout, write_all}
use rdrive.Wire.Frames.{max_frame_length, framed, read_raw_data_into, write_raw_frame_into}
use rdrive.Wire.RoundTrip.{read_raw-framed}
use rdrive.Header.{ClientHello}
use rdrive.Server.{Site}
use rdrive.Server.Handshake.{server_hello, server_handshake, check_packet}

pub write_raw_delivered :
    (s : Bytes) (w : Wire)
    → w.fates ≡ []
    → length s ≤ max_frame_length
    → write_raw_frame_into s w ≡ (ok tt, record w { output = w.output ++ framed s })
unfolding write_raw_frame_into write_all
write_raw_delivered s w none_left small = rw none_left (ground arith)

module _ (P : Primitives) (L : IsLawful P) (C : Site) where
  check_own_packet :
      (k challenge : Bytes) (w : Wire)
      → check_packet P C challenge (P.sign k challenge ++ P.public_of k) w ≡ (ok (P.public_of k), w)
  unfolding check_packet
  check_own_packet k challenge w =
      let sig = P.sign k challenge in
      let pk = P.public_of k in
      let hs = L.length-sign k challenge in
      let enough : ltb (length (sig ++ pk)) 64 ≡ false =
        ltb_of_le _ 64 (omega (arith, length-append sig pk)) in
      rw (enough, take-append 64 sig pk hs, drop-append 64 sig pk hs)
        (ground (arith, hs, L.valid_key-public_of k, L.verify-sign k challenge))

  -- The challenge of the handshake that starts at a state of the wire.
  abbrev pub challenge_at : Wire → Bytes
  challenge_at w = P.sha512 (P.random (w.draws + 1 + 1) 64)

  -- Where all writes are delivered and the server's own key is a valid one, a client that sends a hello that decodes, within the limit of a frame, and
  -- then its signature of the challenge is let in: the server ends with the secret that it shares with the
  -- hello's key and with the client's key. It has sent its own hello, whose encoding is within the limit too,
  -- and the challenge, and left what follows unread.
  pub server_handshake_accepts :
      (hello_bytes reply rest k : Bytes) (hello : ClientHello) (w : Wire)
      → w.fates ≡ []
      → P.valid_key C.pub_key ≡ true
      → w.input
        ≡ framed hello_bytes ++ (framed (P.sign k (challenge_at w) ++ P.public_of k) ++ rest)
      → (0 < length hello_bytes) × (length hello_bytes ≤ max_frame_length)
      → length reply ≤ max_frame_length
      → C.client_hello.deserialize hello_bytes ≡ some hello
      → C.server_hello.serialize
          (server_hello P C hello (P.dh_public (P.random w.draws 32)) (P.random (w.draws + 1) 32))
        ≡ some reply
      → server_handshake P C w ≡ (
        ok (P.diffie_hellman (P.random w.draws 32) hello.x22519_key, P.public_of k),
        record w {
          input = rest;
          output = (w.output ++ framed reply) ++ framed (challenge_at w);
          draws = w.draws + 1 + 1 + 1;
        },
      )
  unfolding server_handshake
  server_handshake_accepts hello_bytes reply rest k hello w none_left valid input (lo, hi) small
        decoded encoded =
      let packet = P.sign k (challenge_at w) ++ P.public_of k in
      let w₁ = record w { draws = w.draws + 1 } in
      let after_hello = framed packet ++ rest in
      let read₁ : timeout hello_timeout read_raw_data_into w₁
          ≡ (ok hello_bytes, record w₁ { input = after_hello }) =
        ap (elapsed hello_timeout) (read_raw-framed hello_bytes after_hello w₁ lo hi input) in
      let w₂ = record w₁ { input = after_hello; draws = w.draws + 1 + 1 } in
      let wrote₁ : timeout write_timeout (write_raw_frame_into reply) w₂
          ≡ (ok tt, record w₂ { output = w.output ++ framed reply }) =
        ap (elapsed write_timeout) (write_raw_delivered reply w₂ none_left small) in
      let w₃ = record w₂ { output = w.output ++ framed reply; draws = w.draws + 1 + 1 + 1 } in
      let wrote₂ =
        write_raw_delivered (challenge_at w) w₃ none_left
          (omega (arith, L.length-sha512 (P.random (w.draws + 1 + 1) 64))) in
      let w₄ = record w₃ { output = (w.output ++ framed reply) ++ framed (challenge_at w) } in
      let size : length packet ≡ 96 = omega (
        arith,
        length-append (P.sign k (challenge_at w)) (P.public_of k),
        L.length-sign k (challenge_at w),
        L.length-public_of k,
      ) in
      let read₂ : timeout signature_timeout read_raw_data_into w₄
          ≡ (ok packet, record w₄ { input = rest }) =
        ap (elapsed signature_timeout)
          (read_raw-framed packet rest w₄ (omega arith) (omega arith) refl) in
      let checked = check_own_packet k (challenge_at w) (record w₄ { input = rest }) in
      rw (read₁, decoded, valid, encoded, wrote₁, wrote₂, read₂, checked) refl
