-- ===== src/Client/Commands.antt =====
-- `auth_client`, `upload_client`, `download_client` and `get_server_status`. Where the code reads the
-- first byte of a reply, an empty reply panics. A warning is printed and passed over.
pub mod Replay
pub mod Delivery
pub mod Journey
pub mod Success
pub mod Tests
use rdrive.Base.{
  ℕ, ◌+◌, Bool, true, false, not, ◌&&◌, Option, none, some, List, [], ◌∷◌, ◌++◌, Bytes, bytes_eq,
  length, take, drop, replicate, ◌==◌, if◌then◌else◌,
}
use rdrive.Fault.{
  Fault, handshake_failed, disk_failed, serialize_failed, deserialize_failed, refused, unknown_flag,
  hash_mismatch, bad_path,
}
use rdrive.Run.{Run, ◌>>=◌, ◌>>◌, pure, gets, fail, panics, panic_if, fail_if, or_fail}
use rdrive.Crypto.{Primitives, overhead}
use rdrive.Wire.{Wire, map_err, shutdown}
use rdrive.Wire.Frames.{read_encrypt_data_into, write_encrypt_frame_into}
use rdrive.Disk.{Disk, FilePath, read_file, write_file, remove_file}
use rdrive.Disk.Join.{path_join}
use rdrive.Header.{Command, auth, upload, download, status, StatusHeader}
use rdrive.FileHash.{file_hasher}
use rdrive.Transfer.{read_chunk_size, send_chunks, receive_chunks}
use rdrive.Server.{Site}
use rdrive.Server.Files.{chunks_of}
use rdrive.Client.{Profile, Client, on_wire, on_disk}
use rdrive.Client.Handshake.{client_handshake}

module _ (P : Primitives) (C : Site) (U : Profile) where
  -- A request, and the frame that answers it.
  unfoldable pub request : Bytes → Command → Run Client Bytes
  request key command = do
    header ← or_fail (C.command.serialize command) serialize_failed
    on_wire (write_encrypt_frame_into P key header)
    on_wire (read_encrypt_data_into P key)

  abbrev handshake : Run Client Bytes
  handshake = map_err handshake_failed (client_handshake P C U false)

  -- The flag of a reply that is an error (3) or a warning (2).
  unfoldable pub check_error : ℕ → Bytes → Run Client (Unit {0})
  check_error flag payload =
      if flag == 3
      then (or_fail (C.error_header.deserialize payload) deserialize_failed >>= λ _. fail refused)
      else (if flag == 2
          then (or_fail (C.warn_header.deserialize payload) deserialize_failed >>= λ _. pure tt)
          else pure tt)

  -- The same, where 1 is the only other flag.
  unfoldable pub check_flag : ℕ → Bytes → Run Client (Unit {0})
  check_flag flag payload = do
    check_error flag payload
    fail_if (not (flag == 1) && not (flag == 2)) unknown_flag

  -- `rsp[0]` and `&rsp[1..]`, and a step on them.
  abbrev pub split_flag : {A : Type 0} → Bytes → (ℕ → Bytes → Run Client A) → Run Client A
  split_flag [] k = panics
  split_flag (flag ∷ payload) k = k flag payload

  -- The answer to the challenge: [64 nonce][64 signature], the old key if there is one, and the new key.
  unfoldable pub auth_packet : Option Bytes → Bytes → Bytes → Bytes
  auth_packet none public_key nonce = nonce ++ (P.sign U.signing_key nonce ++ public_key)
  auth_packet (some old_key) public_key nonce =
      nonce ++ (P.sign U.signing_key nonce ++ (old_key ++ public_key))

  abbrev auth_flag : Option Bytes → ℕ
  auth_flag none = 1
  auth_flag (some old_key) = 2

  unfoldable pub auth_client : Bytes → Option Bytes → Run Client (Unit {0})
  auth_client public_key old_public_key = do
    key ← handshake
    nonce ← request key (auth (auth_flag old_public_key))
    panic_if (not (length nonce == 64))
    on_wire (write_encrypt_frame_into P key (auth_packet old_public_key public_key nonce))
    rsp ← on_wire (read_encrypt_data_into P key)
    split_flag rsp check_flag

  -- The last component of a path.
  abbrev pub file_name : FilePath → Option Bytes
  file_name [] = none
  file_name (x ∷ []) = some x
  file_name (x ∷ y ∷ p) = file_name (y ∷ p)

  -- The file is looked at three times: for its size, its hash and its content. The result is its id, as the server
  -- repeats it.
  unfoldable pub upload_client : FilePath → Bytes → Bytes → Run Client Bytes
  upload_client file_path file_key file_id = do
    name ← or_fail (file_name file_path) bad_path
    metadata ← on_disk (read_file file_path)
    measured ← or_fail metadata disk_failed
    key ← handshake
    hashed ← on_disk (file_hasher P file_path)
    file_hash ← or_fail hashed disk_failed
    response ← request key (
        upload (record {
          file_id = file_id;
          file_name = name;
          file_size = length measured;
          file_hash = file_hash;
          file_key = file_key;
        }))
    split_flag response check_error
    opened ← on_disk (read_file file_path)
    content ← or_fail opened disk_failed
    on_wire (
        send_chunks P key (replicate (read_chunk_size + overhead) 0)
          (chunks_of (length content) read_chunk_size content))
    last ← on_wire (read_encrypt_data_into P key)
    split_flag last check_flag
    rsp ← or_fail (C.upload_response.deserialize (drop 1 last)) deserialize_failed
    on_wire shutdown
    pure rsp.file_id

  -- What follows the request. `File::create` fails on a path that does not resolve.
  unfoldable pub receive_download : FilePath → Bytes → Bytes → Run Client FilePath
  receive_download output key header_bytes = do
    split_flag header_bytes check_flag
    response ← or_fail (C.download_response.deserialize (drop 1 header_bytes)) deserialize_failed
    disk ← gets (λ s. s.disk)
    output_path ← or_fail (path_join disk.nodes output response.file_name) disk_failed
    created ← on_disk (write_file output_path [])
    fail_if (not created) disk_failed
    content ← on_wire (
        receive_chunks P key response.file_size read_chunk_size response.file_size 0
          (replicate read_chunk_size 0) [])
    written ← on_disk (write_file output_path content)
    fail_if (not written) disk_failed
    if bytes_eq (P.hex (P.sha256 content)) response.file_hash
        then (on_wire shutdown >> pure output_path)
        else (on_disk (remove_file output_path) >>= λ _. fail hash_mismatch)

  unfoldable pub download_client : FilePath → Bytes → Bytes → Run Client FilePath
  download_client output file_id file_key = do
    key ← handshake
    header_bytes ← request key (download (record { file_id = file_id; file_key = file_key }))
    receive_download output key header_bytes

  unfoldable pub get_server_status : Run Client StatusHeader
  get_server_status = do
    key ← handshake
    response ← request key status
    header ← or_fail (C.status_header.deserialize response) deserialize_failed
    on_wire shutdown
    pure header
