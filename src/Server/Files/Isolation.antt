-- ===== src/Server/Files/Isolation.antt =====
-- Whose files a command can change.
use rdrive.Base.{
  ℕ, ◌≡◌, refl, ◌∙◌, ap, true, false, not, Option, none, some, arith, Bytes, bytes_eq, String,
}
use rdrive.Fault.{disk_failed}
use rdrive.Run.{Run, ◌>>=◌, ◌>>◌, pure, modify, gets}
use rdrive.Run.Keeps.{
  Keeps, Keeps-bind, Keeps-pure, Keeps-or_fail, Keeps-if, Keeps-fail_if, Keeps-panic_if,
}
use rdrive.Crypto.{Primitives}
use rdrive.Wire.{Wire}
use rdrive.Disk.{FilePath, path_eq, exists, create_dir_all, write_file, remove_file, read_file}
use rdrive.Disk.Contents.{
  file_at, file_at-create_dir_all, file_at-read_file, file_at-write_file, file_at-remove_file,
}
use rdrive.Locks.{Locks, hold_file_lock, release_file_lock, try_write, try_read, drop_guard}
use rdrive.Header.{UploadHeader, DownloadHeader}
use rdrive.Server.{
  Site, Server, MetadataFile, log_upload, log_download, on_wire, on_disk, on_locks, reading,
}
use rdrive.Server.Reply.{refuse}
use rdrive.Server.Files.{
  claim, behind_guard, decoded, user_dir_path, file_path, meta_path, save_upload, store_upload,
  receive_upload, handle_upload, send_file, find_file, handle_download,
}

-- The file at a path holds this content, if there is one.
abbrev pub Holds : FilePath → Option Bytes → Server → Type 0
Holds q c s = file_at q s.disk ≡ c

module _ {A : Type 0} (q : FilePath) (c : Option Bytes) where
  pub Keeps-on_wire : (m : Run Wire A) → Keeps (Holds q c) (on_wire m)
  Keeps-on_wire m = record { at = λ s h. h }

  Keeps-on_locks : (f : Locks → A × Locks) → Keeps (Holds q c) (on_locks f)
  Keeps-on_locks f = record { at = λ s h. h }

  pub Keeps-reading : (f : ℕ → A) → Keeps (Holds q c) (reading f)
  Keeps-reading f = record { at = λ s h. h }

  pub Keeps-gets : (f : Server → A) → Keeps (Holds q c) (gets f)
  Keeps-gets f = record { at = λ s h. h }

  Keeps-behind_guard :
      (unlock : Locks → Locks) (m : Run Server A)
      → Keeps (Holds q c) m
      → Keeps (Holds q c) (behind_guard unlock m)
  Keeps-behind_guard unlock m k = record { at = λ s h. k.at s h }

module _ (q : FilePath) (c : Option Bytes) where
  Keeps-create_dir_all : (p : FilePath) → Keeps (Holds q c) (on_disk (create_dir_all p))
  Keeps-create_dir_all p = record { at = λ s h. file_at-create_dir_all p q s.disk ∙ h }

  Keeps-read_file : (p : FilePath) → Keeps (Holds q c) (on_disk (read_file p))
  Keeps-read_file p = record { at = λ s h. file_at-read_file p q s.disk ∙ h }

  Keeps-write_file :
      (p : FilePath) (s : Bytes)
      → path_eq p q ≡ false
      → Keeps (Holds q c) (on_disk (write_file p s))
  Keeps-write_file p b e = record { at = λ s h. file_at-write_file p q b s.disk e ∙ h }

  Keeps-remove_file :
      (p : FilePath) → path_eq p q ≡ false → Keeps (Holds q c) (on_disk (remove_file p))
  Keeps-remove_file p e = record { at = λ s h. file_at-remove_file p q s.disk e ∙ h }

  Keeps-claim : (f : Locks → Option Locks) → Keeps (Holds q c) (claim f)
  Keeps-claim f = record { at = λ s h. ground (arith, h) }

  Keeps-modify :
      (f : Server → Server) → ((s : Server) → (f s).disk ≡ s.disk) → Keeps (Holds q c) (modify f)
  Keeps-modify f same = record { at = λ s h. ap (file_at q) (same s) ∙ h }

ruleset keeps = (
  Keeps-bind, Keeps-pure, Keeps-or_fail, Keeps-if, Keeps-fail_if, Keeps-panic_if, Keeps-on_wire,
  Keeps-on_locks, Keeps-reading, Keeps-gets, Keeps-behind_guard, Keeps-create_dir_all,
  Keeps-read_file, Keeps-write_file, Keeps-remove_file, Keeps-claim,
)

module _ (P : Primitives) (C : Site) (key client_key : Bytes) (q : FilePath)
    (c : Option Bytes) where
  pub refuse-Keeps : (code : ℕ) (why : String) → Keeps (Holds q c) (refuse P key C code why)
  refuse-Keeps code why = record { at = λ s h. h }

  save_upload-Keeps :
      (h : UploadHeader) (time : ℕ)
      → path_eq (meta_path P C key client_key h.file_key h.file_id) q ≡ false
      → Keeps (Holds q c) (save_upload P C key client_key h time)
  unfolding save_upload
  save_upload-Keeps h time e = search keeps

  rejected-Keeps :
      (h : UploadHeader)
      → path_eq (file_path P C key client_key h.file_key h.file_id) q ≡ false
      → Keeps (Holds q c) (
          on_disk (remove_file (file_path P C key client_key h.file_key h.file_id)) >>= λ _.
          refuse P key C 406 "File hash mismatch" >> pure false)
  rejected-Keeps h e = search keeps

  store_upload-Keeps :
      (h : UploadHeader) (time : ℕ) (content : Bytes)
      → path_eq (file_path P C key client_key h.file_key h.file_id) q ≡ false
      → path_eq (meta_path P C key client_key h.file_key h.file_id) q ≡ false
      → Keeps (Holds q c) (store_upload P C key client_key h time content)
  unfolding store_upload
  store_upload-Keeps h time content e e' =
      Keeps-bind _ _
        (Keeps-write_file q c (file_path P C key client_key h.file_key h.file_id) content e)
        (λ w. Keeps-bind _ _ (Keeps-fail_if (not w) disk_failed) (λ _.
          Keeps-if (bytes_eq (P.hex (P.sha256 content)) h.file_hash) _ _
            (save_upload-Keeps h time e') (rejected-Keeps h e)))

  pub receive_upload-Keeps :
      (h : UploadHeader)
      → path_eq (file_path P C key client_key h.file_key h.file_id) q ≡ false
      → path_eq (meta_path P C key client_key h.file_key h.file_id) q ≡ false
      → Keeps (Holds q c) (receive_upload P C key client_key h)
  unfolding receive_upload
  receive_upload-Keeps h e e' = search (keeps, store_upload-Keeps) depth 16

  pub handle_upload-Keeps :
      (h : UploadHeader)
      → path_eq (file_path P C key client_key h.file_key h.file_id) q ≡ false
      → path_eq (meta_path P C key client_key h.file_key h.file_id) q ≡ false
      → Keeps (Holds q c) (handle_upload P C key client_key h)
  unfolding handle_upload
  handle_upload-Keeps h e e' = Keeps-bind _ _ (Keeps-on_locks q c (hold_file_lock h.file_id)) (λ l.
      Keeps-bind _ _ (Keeps-claim q c (try_write l h.file_id)) (λ granted.
        Keeps-if granted _ _
          (Keeps-bind _ _
            (Keeps-behind_guard q c (drop_guard l h.file_id true) _ (receive_upload-Keeps h e e'))
            (λ done.
              Keeps-if done _ _
                (Keeps-modify q c
                  (λ s. record s {
                    locks = release_file_lock h.file_id s.locks;
                    tracker = log_upload h.file_size s.tracker;
                  })
                  (λ s. refl))
                (Keeps-pure tt)))
          (refuse-Keeps 409 "File is currently locked by another operation")))

  send_file-Keeps :
      (h : DownloadHeader) (m : MetadataFile) → Keeps (Holds q c) (send_file P C key client_key h m)
  unfolding send_file
  send_file-Keeps h m = search keeps depth 16

  read_metadata-Keeps :
      (h : DownloadHeader) (o : Option MetadataFile)
      → Keeps {A = Option ℕ} (Holds q c) (elim o [
        | none ↦ (refuse P key C 500 "Failed to read metadata" >> pure none)
        | some m ↦ send_file P C key client_key h m
      ])
  read_metadata-Keeps h none = search keeps
  read_metadata-Keeps h (some m) = send_file-Keeps h m

  refused-Keeps :
      (code : ℕ) (why : String)
      → Keeps {A = Option ℕ} (Holds q c) (refuse P key C code why >> pure none)
  refused-Keeps code why = search keeps

  pub find_file-Keeps : (h : DownloadHeader) → Keeps (Holds q c) (find_file P C key client_key h)
  unfolding find_file
  find_file-Keeps h = Keeps-bind _ _ (Keeps-gets q c (λ s. s.disk)) (λ d.
      Keeps-if (not (exists (user_dir_path P C key client_key h.file_key) d)) _ _
        (refused-Keeps 404 "File not found")
        (Keeps-if (not (exists (meta_path P C key client_key h.file_key h.file_id) d)) _ _
          (refused-Keeps 404 "Metadata File not found")
          (Keeps-bind _ _ (Keeps-read_file q c (meta_path P C key client_key h.file_key h.file_id))
            (λ stored. read_metadata-Keeps h (decoded P C key client_key stored)))))

  logged_download-Keeps :
      (h : DownloadHeader) (o : Option ℕ)
      → Keeps (Holds q c) (elim o [
        | none ↦ pure tt
        | some file_size ↦ modify (λ s. record s {
          locks = release_file_lock h.file_id s.locks;
          tracker = log_download file_size s.tracker;
        })
      ])
  logged_download-Keeps h none = Keeps-pure tt
  logged_download-Keeps h (some n) =
      Keeps-modify q c
        (λ s. record s {
          locks = release_file_lock h.file_id s.locks;
          tracker = log_download n s.tracker;
        })
        (λ s. refl)

  pub handle_download-Keeps :
      (h : DownloadHeader) → Keeps (Holds q c) (handle_download P C key client_key h)
  unfolding handle_download
  handle_download-Keeps h = Keeps-bind _ _ (Keeps-on_locks q c (hold_file_lock h.file_id)) (λ l.
      Keeps-bind _ _ (Keeps-claim q c (try_read l h.file_id)) (λ granted.
        Keeps-if granted _ _
          (Keeps-bind _ _
            (Keeps-behind_guard q c (drop_guard l h.file_id false) _ (find_file-Keeps h))
            (logged_download-Keeps h))
          (refuse-Keeps 409 "File is currently being uploaded or modified")))
