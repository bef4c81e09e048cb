-- ===== src/Client/Handshake.antt =====
-- `client_handshake_helper`, from its first message on, and `AuthServerMap`'s file.
pub mod Changed
pub mod Agreement
use rdrive.Base.{Bool, not, none, some, [], ◌++◌, Bytes, bytes_eq, length, ◌==◌, if◌then◌else◌}
use rdrive.Fault.{
  disk_failed, serialize_failed, deserialize_failed, bad_public_key, bad_key_file, server_rejected,
  signature_rejected,
}
use rdrive.Run.{Run, ◌>>=◌, ◌>>◌, pure, gets, fail, fail_if, or_fail}
use rdrive.Crypto.{Primitives}
use rdrive.Wire.{draw, shutdown}
use rdrive.Wire.Frames.{read_raw_data_into, write_raw_frame_into}
use rdrive.Disk.{exists, create_dir_all, read_file, write_file}
use rdrive.Server.{Site}
use rdrive.Server.Handshake.{session_key, transcript}
use rdrive.Client.{ServerMap, key_of, insert_key, Profile, Client, on_wire, on_disk, ask}

module _ (P : Primitives) (C : Site) (U : Profile) where
  unfoldable pub read_or_create : Run Client ServerMap
  read_or_create = do
    made ← on_disk (create_dir_all U.user_key_dir)
    fail_if (not made) disk_failed
    disk ← gets (λ s. s.disk)
    if exists U.server_map_path disk
        then (on_disk (read_file U.server_map_path) >>= λ found.
            or_fail found disk_failed >>= λ json.
            or_fail (U.server_map.deserialize json) deserialize_failed)
        else pure []

  unfoldable pub write_map : ServerMap → Run Client (Unit {0})
  write_map m = do
    json ← or_fail (U.server_map.serialize m) serialize_failed
    written ← on_disk (write_file U.server_map_path json)
    fail_if (not written) disk_failed

  -- `insert` and `write`
  unfoldable pub remember : Bytes → ServerMap → Run Client ServerMap
  remember key m = do write_map (insert_key U.server_ip key m); pure (insert_key U.server_ip key m)

  -- A prompt that the user must answer by `y`.
  unfoldable pub confirm : Run Client (Unit {0})
  confirm = do
    trusted ← ask
    if trusted then pure tt else (on_wire shutdown >> fail server_rejected)

  -- A server with a stored key. On a changed key the code stores the new key's fingerprint.
  unfoldable pub known_server : Bytes → ServerMap → Bytes → Run Client Bytes
  known_server server_key m existing =
      if not (bytes_eq existing (P.hex server_key))
      then (confirm >> (remember (P.hex (P.sha256 (P.hex server_key))) m >>= λ _. pure server_key))
      else (or_fail (P.unhex existing) bad_key_file >>= λ key.
          fail_if (not (length key == 32)) bad_key_file
          >> fail_if (not (P.valid_key key)) bad_public_key
          >> pure key)

  unfoldable pub unknown_server : Bytes → ServerMap → Run Client Bytes
  unknown_server server_key m = do confirm; _ ← remember (P.hex server_key) m; pure server_key

  -- The key that the server's signature is checked against.
  unfoldable pub approved_server_key : Bool → Bytes → Run Client Bytes
  approved_server_key should_trust server_key = do
    stored ← read_or_create
    fail_if (not (P.valid_key server_key)) bad_public_key
    m ← if should_trust then remember (P.hex server_key) stored else pure stored
    elim (key_of U.server_ip m) [
      | some existing ↦ known_server server_key m existing
      | none ↦ unknown_server server_key m
    ]

  unfoldable pub client_handshake : Bool → Run Client Bytes
  client_handshake should_trust = do
    x25519_pri ← on_wire (draw P 32)
    let x25519_pub = P.dh_public x25519_pri
    nonce ← on_wire (draw P 32)
    hello ←
        or_fail (C.client_hello.serialize (record { x22519_key = x25519_pub; nonce = nonce }))
          serialize_failed
    on_wire (write_raw_frame_into hello)
    server_hello_data ← on_wire read_raw_data_into
    server_hello ← or_fail (C.server_hello.deserialize server_hello_data) deserialize_failed
    key ← approved_server_key should_trust server_hello.ed25519_key
    let signed = transcript P nonce server_hello.nonce x25519_pub server_hello.x22519_key
    fail_if (not (P.verify key signed server_hello.signature)) signature_rejected
    challenge ← on_wire read_raw_data_into
    on_wire (write_raw_frame_into (P.sign U.signing_key challenge ++ P.public_of U.signing_key))
    pure (session_key P (P.diffie_hellman x25519_pri server_hello.x22519_key))
