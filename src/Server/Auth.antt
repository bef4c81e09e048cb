-- ===== src/Server/Auth.antt =====
-- `handle_auth_keys`: registering a key, and moving a user's spaces to a new key. The spaces are two
-- directories, named by hashes of the key in hexadecimal.
pub mod Signed
use rdrive.Base.{
  ℕ, codes, Bool, true, false, not, ◌&&◌, List, [], ◌∷◌, ◌++◌, Bytes, length, take, drop, ltb, ◌==◌,
  if◌then◌else◌,
}
use rdrive.Base.Outcome.{Outcome, ok, err, panic, pending}
use rdrive.Fault.{Fault, message, bad_public_key, user_not_registered}
use rdrive.Run.{Run, ◌>>=◌, ◌>>◌, gets, fail_if, panic_if, lift}
use rdrive.Crypto.{Primitives, validate_signature}
use rdrive.Wire.{Wire, draw}
use rdrive.Wire.Frames.{read_encrypt_data_into}
use rdrive.Disk.{Disk, FilePath, exists, is_dir, create_dir_all, rename}
use rdrive.Server.{Site, Server, on_wire, on_disk}
use rdrive.Server.Reply.{send_frame, send_warn, send_failed, refuse}

module _ (P : Primitives) (C : Site) where
  -- `get_authorized_client_dir()` and the key's fingerprint.
  abbrev pub user_key_path : Bytes → FilePath
  user_key_path key = C.authorized_client_dir ++ (P.hex (P.sha256 (P.hex key)) ∷ [])

  abbrev pub user_storage_dir : Bytes → FilePath
  user_storage_dir key = C.storage_dir ++ (P.hex (P.sha512 key) ∷ [])

module _ (P : Primitives) (C : Site) (session_key : Bytes) where
  -- The one byte that says yes.
  abbrev pub acknowledge : Run Server (Unit {0})
  acknowledge = on_wire (send_frame P session_key (1 ∷ []))

  abbrev bad_signature : Fault → Run Server (Unit {0})
  bad_signature e = on_wire (
      send_failed P session_key C
        (record { code = 401; message = codes "Invalid signature: " ++ codes (message e) }))

  -- From the check of the storage directory on.
  unfoldable pub create_spaces : Bytes → Run Server (Unit {0})
  create_spaces pub_key = do
    disk ← gets (λ s. s.disk)
    if exists (user_storage_dir P C pub_key) disk && exists (user_key_path P C pub_key) disk
        then on_wire (
            send_warn P session_key C (record {
              code = 409;
              message = codes "Client Auth & Storage directory already exists, not required";
            }))
        else (do
          made_key ← on_disk (create_dir_all (user_key_path P C pub_key))
          made_dir ← on_disk (create_dir_all (user_storage_dir P C pub_key))
          if made_key && made_dir
              then acknowledge
              else refuse P session_key C 500
                  "Failed to create auth key or user storage directory, try again later")

  -- A client whose signature holds.
  unfoldable pub admit : Bytes → Run Server (Unit {0})
  admit pub_key = do
    disk ← gets (λ s. s.disk)
    let known = exists (user_key_path P C pub_key) disk
    let usable = is_dir (user_key_path P C pub_key) disk
    if not C.enable_client_whitelist && not known
        then refuse P session_key C 403
            "Client not authorized, please contact the admin, provider or ssh into the server"
        else (if known && not usable
            then refuse P session_key C 500
                "Auth key path exists but is not a directory, skipping user storage dir creation"
            else create_spaces pub_key)

  unfoldable pub registered : Outcome Fault Bytes → Run Server (Unit {0})
  registered (ok pub_key) = admit pub_key
  registered (err e) = bad_signature e
  registered panic = lift panic
  registered pending = lift pending

  -- The flag 1, on [64 nonce][64 signature][32 key].
  unfoldable pub register : Bytes → Run Server (Unit {0})
  register header_bytes = do
    panic_if (ltb (length header_bytes) 64)
    let nonce = take 64 header_bytes
    let signature_new_key = drop 64 header_bytes
    panic_if (ltb (length signature_new_key) 64)
    let signature = take 64 signature_new_key
    let new_key = drop 64 signature_new_key
    registered (validate_signature P new_key signature nonce)

  -- The old key's spaces become the new key's.
  unfoldable pub move_spaces : Bytes → Bytes → Run Server (Unit {0})
  move_spaces old_pub_key new_pub_key = do
    disk ← gets (λ s. s.disk)
    fail_if (not (exists (user_storage_dir P C old_pub_key) disk)) user_not_registered
    moved_key ← on_disk (rename (user_key_path P C old_pub_key) (user_key_path P C new_pub_key))
    moved_dir ←
        on_disk (rename (user_storage_dir P C old_pub_key) (user_storage_dir P C new_pub_key))
    if moved_key && moved_dir
        then acknowledge
        else refuse P session_key C 500 "Failed to rotate keys, try again later"

  unfoldable pub rotated : Bytes → Outcome Fault Bytes → Run Server (Unit {0})
  rotated new_key (ok old_pub_key) = do
    fail_if (not (P.valid_key new_key)) bad_public_key
    move_spaces old_pub_key new_key
  rotated new_key (err e) = bad_signature e
  rotated new_key panic = lift panic
  rotated new_key pending = lift pending

  -- The flag 2, on [64 nonce][64 signature][32 old key][32 new key].
  unfoldable pub rotate : Bytes → Run Server (Unit {0})
  rotate header_bytes = do
    panic_if (ltb (length header_bytes) 64)
    let nonce = take 64 header_bytes
    let signature_keys = drop 64 header_bytes
    panic_if (ltb (length signature_keys) 64)
    let signature = take 64 signature_keys
    let old_key_new_key = drop 64 signature_keys
    panic_if (ltb (length old_key_new_key) 32)
    let old_key = take 32 old_key_new_key
    let new_key = drop 32 old_key_new_key
    rotated new_key (validate_signature P old_key signature nonce)

  unfoldable pub handle_auth_keys : ℕ → Run Server (Unit {0})
  handle_auth_keys flag = do
    random ← on_wire (draw P 64)
    on_wire (send_frame P session_key (P.sha512 random))
    if flag == 1
        then (on_wire (read_encrypt_data_into P session_key) >>= register)
        else (if flag == 2
            then (on_wire (read_encrypt_data_into P session_key) >>= rotate)
            else refuse P session_key C 400 "Invalid flag value")
