-- ===== src/Client/Handshake/Agreement.antt =====
-- Both ends of one handshake.
use rdrive.Base.{
  ◌+◌, ◌<◌, ◌≤◌, ◌≡◌, refl, ◌∙◌, ap, true, Bool, some, [], ◌++◌, arith, Bytes, length,
  length-append,
}
use rdrive.Base.Outcome.{Outcome, ok}
use rdrive.Fault.{Fault}
use rdrive.Crypto.{Primitives, IsLawful}
use rdrive.Wire.{Wire}
use rdrive.Wire.Frames.{max_frame_length, framed}
use rdrive.Wire.RoundTrip.{read_raw-framed}
use rdrive.Header.{ClientHello, ServerHello}
use rdrive.Server.{Site}
use rdrive.Server.Handshake.{server_hello, server_handshake, session_key, transcript}
use rdrive.Server.Handshake.Session.{write_raw_delivered, challenge_at, server_handshake_accepts}
use rdrive.Client.{Profile, Client}
use rdrive.Client.Handshake.{approved_server_key, client_handshake}

-- The length of a message that fits a frame.
abbrev pub IsFrameable : Bytes → Type 0
IsFrameable s = (0 < length s) × (length s ≤ max_frame_length)

module _ (P : Primitives) (L : IsLawful P) (C : Site) (U : Profile) where
  -- The hello of a client whose wire is in this state.
  abbrev pub client_hello_at : Wire → ClientHello
  client_hello_at w = record {
    x22519_key = P.dh_public (P.random w.draws 32);
    nonce = P.random (w.draws + 1) 32;
  }

  -- The answer to a challenge.
  abbrev pub answer : Bytes → Bytes
  answer challenge = P.sign U.signing_key challenge ++ P.public_of U.signing_key

  length-answer : (challenge : Bytes) → length (answer challenge) ≡ 96
  length-answer challenge = omega (
    arith,
    length-append (P.sign U.signing_key challenge) (P.public_of U.signing_key),
    L.length-sign U.signing_key challenge,
    L.length-public_of U.signing_key,
  )

  client_handshake_accepts :
      (trust : Bool) (hello_bytes reply challenge rest key : Bytes) (server : ServerHello)
      (s s' : Client)
      → s.wire.fates ≡ []
      → s.wire.input ≡ framed reply ++ (framed challenge ++ rest)
      → length hello_bytes ≤ max_frame_length
      → IsFrameable reply
      → IsFrameable challenge
      → C.client_hello.serialize (client_hello_at s.wire) ≡ some hello_bytes
      → C.server_hello.deserialize reply ≡ some server
      → ((w : Wire)
          → approved_server_key P C U trust server.ed25519_key (record s { wire = w })
            ≡ (ok key, record s' { wire = w }))
      → P.verify key
          (transcript P
            (P.random (s.wire.draws + 1) 32)
            server.nonce
            (P.dh_public (P.random s.wire.draws 32))
            server.x22519_key)
          server.signature
        ≡ true
      → client_handshake P C U trust s ≡ (
        ok (session_key P (P.diffie_hellman (P.random s.wire.draws 32) server.x22519_key)),
        record s' {
          wire = record s.wire {
            input = rest;
            output = (s.wire.output ++ framed hello_bytes) ++ framed (answer challenge);
            draws = s.wire.draws + 1 + 1;
          };
        },
      )
  unfolding client_handshake
  client_handshake_accepts trust hello_bytes reply challenge rest key server s s' none_left input
        small (lo, hi) (lo', hi') encoded decoded approved verified =
      let w₁ = record s.wire { draws = s.wire.draws + 1 + 1 } in
      let wrote₁ = write_raw_delivered hello_bytes w₁ none_left small in
      let w₂ = record w₁ { output = s.wire.output ++ framed hello_bytes } in
      let read₁ = read_raw-framed reply (framed challenge ++ rest) w₂ lo hi input in
      let w₃ = record w₂ { input = framed challenge ++ rest } in
      let read₂ = read_raw-framed challenge rest w₃ lo' hi' refl in
      let w₄ = record w₃ { input = rest } in
      let wrote₂ =
        write_raw_delivered (answer challenge) w₄ none_left
          (omega (arith, length-answer challenge)) in
      rw (encoded, wrote₁, read₁, decoded, approved w₃, verified, read₂, wrote₂) refl

  -- The server's hello to the client's, and its challenge, from the states of both wires.
  abbrev pub server_hello_to : Wire → Wire → ServerHello
  server_hello_to sw cw =
      server_hello P C (client_hello_at cw) (P.dh_public (P.random sw.draws 32))
        (P.random (sw.draws + 1) 32)

  -- A client and a server whose writes are delivered and whose hellos fit frames and are read back agree:
  -- where the client trusts the server's key and each side's input is what the other side sends, in the
  -- order of the protocol, both handshakes succeed. The server knows the client's key and the secret whose
  -- salted hash is the client's session key, and what each side has sent is what the other side has read.
  pub handshake_agreement :
      (trust : Bool) (client_bytes server_bytes client_rest server_rest : Bytes) (sw : Wire)
      (s s' : Client)
      → (s.wire.fates ≡ []) × (sw.fates ≡ [])
      → C.pub_key ≡ P.public_of C.pri_key
      → (C.client_hello.serialize (client_hello_at s.wire) ≡ some client_bytes)
        × (C.client_hello.deserialize client_bytes ≡ some (client_hello_at s.wire))
      → (C.server_hello.serialize (server_hello_to sw s.wire) ≡ some server_bytes)
        × (C.server_hello.deserialize server_bytes ≡ some (server_hello_to sw s.wire))
      → IsFrameable client_bytes × IsFrameable server_bytes
      → ((w : Wire)
          → approved_server_key P C U trust C.pub_key (record s { wire = w })
            ≡ (ok C.pub_key, record s' { wire = w }))
      → s.wire.input ≡ framed server_bytes ++ (framed (challenge_at P L C sw) ++ client_rest)
      → sw.input ≡ framed client_bytes ++ (framed (answer (challenge_at P L C sw)) ++ server_rest)
      → (shared : Bytes) × (sw' : Wire) × (cw' : Wire) × (server_handshake P C sw
          ≡ (ok (shared, P.public_of U.signing_key), sw'))
        × (client_handshake P C U trust s ≡ (ok (session_key P shared), record s' { wire = cw' }))
        × (sw'.output ≡ (sw.output ++ framed server_bytes) ++ framed (challenge_at P L C sw))
        × (cw'.output
            ≡ (s.wire.output ++ framed client_bytes) ++ framed (answer (challenge_at P L C sw)))
        × (sw'.input ≡ server_rest)
        × (cw'.input ≡ client_rest)
  unfolding server_hello
  handshake_agreement trust client_bytes server_bytes client_rest server_rest sw s s'
        (quiet, quiet') own (encoded, decoded) (encoded', decoded') (fits, fits') approved input
        input' =
      let signed =
        transcript P (P.random (s.wire.draws + 1) 32) (P.random (sw.draws + 1) 32)
          (P.dh_public (P.random s.wire.draws 32)) (P.dh_public (P.random sw.draws 32)) in
      let verified : P.verify C.pub_key signed (P.sign C.pri_key signed) ≡ true =
        rw own (L.verify-sign C.pri_key signed) in
      let size = L.length-sha512 (P.random (sw.draws + 1 + 1) 64) in
      let same = L.dh_agree (P.random s.wire.draws 32) (P.random sw.draws 32) in
      let server_side =
        server_handshake_accepts P L C client_bytes server_bytes server_rest U.signing_key
          (client_hello_at s.wire) sw quiet' (ap P.valid_key own ∙ L.valid_key-public_of C.pri_key)
          input' fits fits'.1 decoded encoded' in
      let client_side =
        client_handshake_accepts trust client_bytes server_bytes (challenge_at P L C sw) client_rest
          C.pub_key (server_hello_to sw s.wire) s s' quiet input fits.1 fits'
          (omega arith, omega arith) encoded decoded' approved verified in
      let cw' = record s.wire {
        input = client_rest;
        output = (s.wire.output ++ framed client_bytes) ++ framed (answer (challenge_at P L C sw));
        draws = s.wire.draws + 1 + 1;
      } in
      let one_key : ◌≡◌ {A = Outcome Fault Bytes × Client}
          (
            ok (
                session_key P (
                  P.diffie_hellman (P.random s.wire.draws 32)
                    (P.dh_public (P.random sw.draws 32)))),
            record s' { wire = cw' },
          )
          (
            ok (
                session_key P (
                  P.diffie_hellman (P.random sw.draws 32)
                    (P.dh_public (P.random s.wire.draws 32)))),
            record s' { wire = cw' },
          ) =
        rw same refl in
      (_, _, cw', server_side, client_side ∙ one_key, refl, refl, refl, refl)
