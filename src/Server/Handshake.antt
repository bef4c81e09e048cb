-- ===== src/Server/Handshake.antt =====
-- `server_handshake`, and the salt that `handle_connection` and `client_handshake_helper` put on the
-- shared key.
pub mod Session
use rdrive.Base.{
  ℕ, ◌-◌, codes, Bool, true, false, not, List, [], ◌∷◌, ◌++◌, Bytes, length, take, drop, replicate,
  ltb, ◌==◌, Option,
}
use rdrive.Fault.{
  Fault, hello_timeout, signature_timeout, write_timeout, deserialize_failed, serialize_failed,
  bad_signature_bytes, bad_public_key, signature_rejected,
}
use rdrive.Run.{Run, ◌>>=◌, ◌>>◌, pure, or_fail, fail_if, panic_if}
use rdrive.Crypto.{Primitives}
use rdrive.Wire.{Wire, timeout, draw}
use rdrive.Wire.Frames.{read_raw_data_into, write_raw_frame_into}
use rdrive.Header.{ClientHello, ServerHello}
use rdrive.Server.{Site}

-- `[0xF; 148]` with the key at 0 and at 64, and `HANDSHAKE_BYTES` at 128.
unfoldable pub session_key : Primitives → Bytes → Bytes
session_key P shared_key = P.sha256 (
    shared_key
    ++ (replicate 32 15 ++ (shared_key ++ (replicate 32 15 ++ codes "V1PROTOCOL_HANDSHAKE"))))

-- What both sides sign and check: both nonces and both ephemeral keys.
unfoldable pub transcript : Primitives → Bytes → Bytes → Bytes → Bytes → Bytes
transcript P client_nonce server_nonce client_key server_key =
    P.sha512 (client_nonce ++ (server_nonce ++ (client_key ++ server_key)))

module _ (P : Primitives) (C : Site) where
  unfoldable pub server_hello : ClientHello → Bytes → Bytes → ServerHello
  server_hello hello x25519_pub nonce = record {
    ed25519_key = C.pub_key;
    x22519_key = x25519_pub;
    signature = P.sign C.pri_key (transcript P hello.nonce nonce hello.x22519_key x25519_pub);
    nonce = nonce;
  }

  -- The client's key, once its signature of the challenge is checked.
  unfoldable pub check_packet : Bytes → Bytes → Run Wire Bytes
  check_packet nonce packet = do
    panic_if (ltb (length packet) 64)
    let signature = take 64 packet
    let pub_key = drop 64 packet
    fail_if (not (length signature == 64)) bad_signature_bytes
    fail_if (not (P.valid_key pub_key)) bad_public_key
    fail_if (not (P.verify pub_key nonce signature)) signature_rejected
    pure pub_key

  -- The raw session key and the client's key.
  unfoldable pub server_handshake : Run Wire (Bytes × Bytes)
  server_handshake = do
    x25519_pri ← draw P 32
    client_hello_data ← timeout hello_timeout read_raw_data_into
    client_hello ← or_fail (C.client_hello.deserialize client_hello_data) deserialize_failed
    nonce ← draw P 32
    fail_if (not (P.valid_key C.pub_key)) bad_public_key
    let x25519_pub = P.dh_public x25519_pri
    hello ←
        or_fail (C.server_hello.serialize (server_hello client_hello x25519_pub nonce))
          serialize_failed
    timeout write_timeout (write_raw_frame_into hello)
    random ← draw P 64
    let challenge = P.sha512 random
    write_raw_frame_into challenge
    packet ← timeout signature_timeout read_raw_data_into
    verify_key ← check_packet challenge packet
    pure (P.diffie_hellman x25519_pri client_hello.x22519_key, verify_key)
