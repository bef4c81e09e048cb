-- ===== src/Server/Files.antt =====
-- `handle_upload` and `handle_download`. What a file holds after an upload broke off, as much of the
-- received bytes as had reached it, is not modelled: it stays empty.
pub mod Stored
pub mod Isolation
pub mod Slots
pub mod Rejected
pub mod Refinement
pub mod Retrieval
pub mod Chunks
pub mod Served
pub mod Accepted
pub mod Plain
use rdrive.Base.{
  ℕ, zero, suc, ◌+◌, codes, Bool, true, false, not, ◌&&◌, ◌||◌, Option, none, some, List, [], ◌∷◌,
  ◌++◌, Bytes, bytes_eq, is_empty, length, take, drop, replicate, ltb, leb, if◌then◌else◌,
}
use rdrive.Base.Outcome.{ok}
use rdrive.Fault.{disk_failed, serialize_failed}
use rdrive.Run.{Run, ◌>>=◌, ◌>>◌, pure, gets, modify, fail_if, panic_if, or_fail}
use rdrive.Crypto.{Primitives, overhead}
use rdrive.Wire.{shutdown}
use rdrive.Disk.{FilePath, exists, create_dir_all, write_file, remove_file, read_file}
use rdrive.Locks.{Locks, hold_file_lock, release_file_lock, try_write, try_read, drop_guard}
use rdrive.Header.{UploadHeader, DownloadHeader}
use rdrive.Transfer.{read_chunk_size, send_chunks, receive_chunks}
use rdrive.Server.{
  Site, Server, MetadataFile, log_upload, log_download, on_wire, on_disk, on_locks, reading,
}
use rdrive.Server.Reply.{send_frame, send_success, refuse}

-- Whether `s[..8]` panics: the string is shorter, or a character spans its ninth byte.
abbrev continues : Bytes → Bool
continues [] = false
continues (b ∷ s) = leb 128 b && ltb b 192

unfoldable pub slice_panics : Bytes → Bool
slice_panics s = ltb (length s) 8 || continues (drop 8 s)

-- What the reads of a file return, up to the empty one.
unfoldable pub chunks_of : ℕ → ℕ → Bytes → List Bytes
chunks_of zero size s = []
chunks_of (suc fuel) size s =
    let rest = chunks_of fuel size (drop size s) in if is_empty s then [] else take size s ∷ rest

-- Taking a lock: whether it was free.
abbrev pub claim : (Locks → Option Locks) → Run Server Bool
claim f s = elim (f s.locks) [ none ↦ (ok false, s) | some l ↦ (ok true, record s { locks = l }) ]

-- A block whose guard is dropped on every way out of it.
abbrev pub behind_guard : {A : Type 0} → (Locks → Locks) → Run Server A → Run Server A
behind_guard unlock m s = let (r, s') = m s in (r, record s' { locks = unlock s'.locks })

module _ (P : Primitives) (C : Site) (session_key client_key : Bytes) where
  -- base_dir/client_key_hash/file_key_hash/file_id_hash
  abbrev pub user_dir_path : Bytes → FilePath
  user_dir_path file_key =
      C.storage_path ++ (P.hex (P.sha512 client_key) ∷ P.hex (P.sha256 file_key) ∷ [])

  abbrev pub file_path : Bytes → Bytes → FilePath
  file_path file_key file_id =
      user_dir_path file_key ++ ((P.hex (P.sha256 file_id) ++ codes ".file") ∷ [])

  abbrev pub meta_path : Bytes → Bytes → FilePath
  meta_path file_key file_id =
      user_dir_path file_key ++ ((P.hex (P.sha256 file_id) ++ codes ".meta") ∷ [])

  -- `metadata.save_to_disk_async` and the reply.
  unfoldable pub save_upload : UploadHeader → ℕ → Run Server Bool
  save_upload h network_time = do
    metadata ←
        or_fail
          (C.metadata.serialize (record {
            filename = h.file_name;
            file_size = h.file_size;
            file_hash = h.file_hash;
            file_key_hash = P.hex (P.sha256 h.file_key);
          }))
          serialize_failed
    saved ← on_disk (write_file (meta_path h.file_key h.file_id) metadata)
    fail_if (not saved) disk_failed
    on_wire (
        send_success P session_key (
          C.upload_response.serialize
            (record { file_id = h.file_id; file_hash = h.file_hash; network_time = network_time })))
    pure true

  -- The received content: whether the upload succeeded.
  unfoldable pub store_upload : UploadHeader → ℕ → Bytes → Run Server Bool
  store_upload h network_time content = do
    written ← on_disk (write_file (file_path h.file_key h.file_id) content)
    fail_if (not written) disk_failed
    if bytes_eq (P.hex (P.sha256 content)) h.file_hash then save_upload h network_time else (do
      _ ← on_disk (remove_file (file_path h.file_key h.file_id))
      refuse P session_key C 406 "File hash mismatch"
      pure false)

  -- `handle_upload` behind its lock.
  unfoldable pub receive_upload : UploadHeader → Run Server Bool
  receive_upload h = do
    made ← on_disk (create_dir_all (user_dir_path h.file_key))
    fail_if (not made) disk_failed
    panic_if (slice_panics h.file_hash)
    on_wire (send_frame P session_key (1 ∷ []))
    network_time ← reading C.elapsed
    created ← on_disk (write_file (file_path h.file_key h.file_id) [])
    fail_if (not created) disk_failed
    content ← on_wire (
        receive_chunks P session_key h.file_size read_chunk_size h.file_size 0
          (replicate read_chunk_size 0) [])
    store_upload h network_time content

  unfoldable pub handle_upload : UploadHeader → Run Server (Unit {0})
  handle_upload h = do
    l ← on_locks (hold_file_lock h.file_id)
    granted ← claim (try_write l h.file_id)
    if granted
        then (do
          done ← behind_guard (drop_guard l h.file_id true) (receive_upload h)
          if done
              then modify (λ s. record s {
                locks = release_file_lock h.file_id s.locks;
                tracker = log_upload h.file_size s.tracker;
              })
              else pure tt)
        else refuse P session_key C 409 "File is currently locked by another operation"

  -- The file behind its metadata: how many bytes the metadata says it has.
  unfoldable pub send_file : DownloadHeader → MetadataFile → Run Server (Option ℕ)
  send_file h m = do
    panic_if (slice_panics m.file_hash)
    network_time ← reading C.elapsed
    header ←
        or_fail
          (C.download_response.serialize (record {
            file_name = m.filename;
            file_size = m.file_size;
            file_hash = m.file_hash;
            network_time = network_time;
          }))
          serialize_failed
    on_wire (send_frame P session_key (1 ∷ header))
    opened ← on_disk (read_file (file_path h.file_key h.file_id))
    content ← or_fail opened disk_failed
    on_wire (
        send_chunks P session_key (replicate (read_chunk_size + overhead) 0)
          (chunks_of (length content) read_chunk_size content))
    on_wire shutdown
    pure (some m.file_size)

  abbrev pub decoded : Option Bytes → Option MetadataFile
  decoded none = none
  decoded (some s) = C.metadata.deserialize s

  -- `handle_download` behind its lock: the size that is logged.
  unfoldable pub find_file : DownloadHeader → Run Server (Option ℕ)
  find_file h = do
    disk ← gets (λ s. s.disk)
    if not (exists (user_dir_path h.file_key) disk)
        then (refuse P session_key C 404 "File not found" >> pure none)
        else (if not (exists (meta_path h.file_key h.file_id) disk)
            then (refuse P session_key C 404 "Metadata File not found" >> pure none)
            else (do
              stored ← on_disk (read_file (meta_path h.file_key h.file_id))
              elim (decoded stored) [
                | none ↦ (refuse P session_key C 500 "Failed to read metadata" >> pure none)
                | some m ↦ send_file h m
              ]))

  unfoldable pub handle_download : DownloadHeader → Run Server (Unit {0})
  handle_download h = do
    l ← on_locks (hold_file_lock h.file_id)
    granted ← claim (try_read l h.file_id)
    if granted
        then (do
          done ← behind_guard (drop_guard l h.file_id false) (find_file h)
          elim done [
            | none ↦ pure tt
            | some file_size ↦ modify (λ s. record s {
              locks = release_file_lock h.file_id s.locks;
              tracker = log_download file_size s.tracker;
            })
          ])
        else refuse P session_key C 409 "File is currently being uploaded or modified"
