-- ===== src/Server/Files/Stored.antt =====
-- What stands on the disk after an upload.
use rdrive.Base.{
  sym, ℕ, ◌≡◌, ◌∙◌, ap, inl, inr, true, false, not, some, [], ◌∷◌, ◌++◌, arith, Bytes, bytes_eq,
  eq_of_bytes_eq, length, codes, Bool-cases, replicate, if◌then◌else◌,
}
use rdrive.Base.Outcome.{ok}
use rdrive.Fault.{disk_failed, serialize_failed}
use rdrive.Run.{◌>>=◌, ◌>>◌, pure, fail_if, panic_if}
use rdrive.Run.Laws.{>>=-eq-ok}
use rdrive.Crypto.{Primitives, IsLawful}
use rdrive.Wire.{Wire}
use rdrive.Disk.{Disk, file, node_at, put, path_eq, create_dir_all, write_file, remove_file}
use rdrive.Disk.Laws.{
  node_at-put_same, node_at-put_other, path_eq-append, bytes_eq-append, write_file-eq-true,
}
use rdrive.Header.{UploadHeader}
use rdrive.Transfer.{read_chunk_size, receive_chunks}
use rdrive.Transfer.Length.{length-receive_chunks}
use rdrive.Server.{Site, Server, MetadataFile, on_wire, on_disk, reading}
use rdrive.Server.Steps.{or_fail_step, wire_step, disk_step, panic_step}
use rdrive.Server.Reply.Input.{send_frame_input}
use rdrive.Server.Reply.{send_frame, send_success, send_failed, refuse}
use rdrive.Server.Files.{
  user_dir_path, file_path, meta_path, save_upload, store_upload, receive_upload, slice_panics,
}

module _ (P : Primitives) (C : Site) (key client_key : Bytes) where
  -- What the metadata of an upload says.
  abbrev pub metadata_of : UploadHeader → MetadataFile
  metadata_of h = record {
    filename = h.file_name;
    file_size = h.file_size;
    file_hash = h.file_hash;
    file_key_hash = P.hex (P.sha256 h.file_key);
  }

  other_path :
      (file_key file_id : Bytes)
      → path_eq
          (meta_path P C key client_key file_key file_id)
          (file_path P C key client_key file_key file_id)
        ≡ false
  other_path file_key file_id =
      path_eq-append (user_dir_path P C key client_key file_key)
        ((P.hex (P.sha256 file_id) ++ codes ".meta") ∷ [])
        ((P.hex (P.sha256 file_id) ++ codes ".file") ∷ [])
      ∙ ground (arith, bytes_eq-append (P.hex (P.sha256 file_id)) (codes ".meta") (codes ".file"))

  -- The content and the metadata of an upload stand in their places.
  abbrev pub IsStored : UploadHeader → Bytes → Disk → Type 0
  IsStored h content d =
      (node_at (file_path P C key client_key h.file_key h.file_id) d.nodes ≡ some (file content))
      × ((m : Bytes) × (C.metadata.serialize (metadata_of h) ≡ some m)
          × (node_at (meta_path P C key client_key h.file_key h.file_id) d.nodes ≡ some (file m)))

  save_upload-IsStored :
      (h : UploadHeader) (time : ℕ) (content : Bytes) (s s' : Server)
      → node_at (file_path P C key client_key h.file_key h.file_id) s.disk.nodes
        ≡ some (file content)
      → save_upload P C key client_key h time s ≡ (ok true, s')
      → IsStored h content s'.disk
  unfolding save_upload
  save_upload-IsStored h time content s s' there run =
      let mp = meta_path P C key client_key h.file_key h.file_id in
      let reply = on_wire (
        send_success P key (
          C.upload_response.serialize
            (record { file_id = h.file_id; file_hash = h.file_hash; network_time = time }))) in
      let (m, encoded, run₁) =
        or_fail_step (C.metadata.serialize (metadata_of h)) serialize_failed
          (λ m. on_disk (write_file mp m) >>= λ saved.
            fail_if (not saved) disk_failed >> (reply >> pure true))
          s s' true run in
      let (s₁, _, wrote, run₂) = disk_step (write_file mp m) (reply >> pure true) s s' true run₁ in
      let (_, s₂, kept, _, last) =
        wire_step
          (send_success P key (
            C.upload_response.serialize
              (record { file_id = h.file_id; file_hash = h.file_hash; network_time = time })))
          (λ _. pure true) s₁ s' true run₂ in
      let disks : s'.disk.nodes ≡ put mp (file m) s.disk.nodes =
        ap (λ r. r.1.disk.nodes) (sym last)
        ∙ ap (λ d. d.nodes) kept
        ∙ write_file-eq-true mp m s.disk s₁.disk wrote in
      (
        rw disks (
            node_at-put_other mp (file_path P C key client_key h.file_key h.file_id) (file m)
              s.disk.nodes (other_path h.file_key h.file_id)
            ∙ there),
        (m, encoded, rw disks (node_at-put_same mp (file m) s.disk.nodes)),
      )

  -- A rejected upload is no success.
  not_rejected :
      (h : UploadHeader) (s s' : Server)
      → (on_disk (remove_file (file_path P C key client_key h.file_key h.file_id)) >>= λ _.
            refuse P key C 406 "File hash mismatch" >> pure false)
          s
        ≡ (ok true, s')
      → ⊥
  not_rejected h s s' run =
      let (_, s₁, _, run₁) =
        >>=-eq-ok (on_disk (remove_file (file_path P C key client_key h.file_key h.file_id)))
          (λ _. refuse P key C 406 "File hash mismatch" >> pure false) s run in
      let (_, _, _, _, last) =
        wire_step
          (send_failed P key C (record { code = 406; message = codes "File hash mismatch" }))
          (λ _. pure false) s₁ s' true run₁ in
      ground (arith, last)

  store_upload-IsStored :
      (h : UploadHeader) (time : ℕ) (content : Bytes) (s s' : Server)
      → store_upload P C key client_key h time content s ≡ (ok true, s')
      → (P.hex (P.sha256 content) ≡ h.file_hash) × IsStored h content s'.disk
  unfolding store_upload
  store_upload-IsStored h time content s s' run =
      let fp = file_path P C key client_key h.file_key h.file_id in
      let rejected =
        on_disk (remove_file fp) >>= λ _. refuse P key C 406 "File hash mismatch" >> pure false in
      let (s₁, _, wrote, run₁) =
        disk_step (write_file fp content)
          (if bytes_eq (P.hex (P.sha256 content)) h.file_hash
            then save_upload P C key client_key h time
            else rejected)
          s s' true run in
      let there : node_at fp s₁.disk.nodes ≡ some (file content) =
        rw (write_file-eq-true fp content s.disk s₁.disk wrote)
          (node_at-put_same fp (file content) s.disk.nodes) in
      elim (Bool-cases (bytes_eq (P.hex (P.sha256 content)) h.file_hash)) [
        | inl same ↦ (
          eq_of_bytes_eq (P.hex (P.sha256 content)) h.file_hash same,
          save_upload-IsStored h time content s₁ s' there (rw same at run₁),
        )
        | inr other ↦ absurd (not_rejected h s₁ s' (rw other at run₁))
      ]

module _ (P : Primitives) (L : IsLawful P) (C : Site) (key client_key : Bytes) where
  -- An upload that succeeds has received a content from its own input, of the hash that the header announces, and
  -- has put it and the header's metadata in their places.
  pub receive_upload_takes :
      (h : UploadHeader) (s s' : Server)
      → receive_upload P C key client_key h s ≡ (ok true, s')
      → (content : Bytes) × (w₁ : Wire) × (w₂ : Wire) × (w₁.input ≡ s.wire.input)
        × (receive_chunks P key h.file_size read_chunk_size h.file_size 0
              (replicate read_chunk_size 0)
              []
              w₁
            ≡ (ok content, w₂))
        × (P.hex (P.sha256 content) ≡ h.file_hash)
        × IsStored P C key client_key h content s'.disk
  unfolding receive_upload
  receive_upload_takes h s s' run =
      let dir = user_dir_path P C key client_key h.file_key in
      let fp = file_path P C key client_key h.file_key h.file_id in
      let buf = replicate read_chunk_size 0 in
      let take_in = receive_chunks P key h.file_size read_chunk_size h.file_size 0 buf [] in
      let fill = λ (time : ℕ). on_disk (write_file fp []) >>= λ done.
      fail_if (not done) disk_failed
      >> (on_wire take_in >>= store_upload P C key client_key h time) in
      let begin = on_wire (send_frame P key (1 ∷ [])) >>= λ _. (reading C.elapsed >>= fill) in
      let (s₁, at₁, _, run₁) =
        disk_step (create_dir_all dir) (panic_if (slice_panics h.file_hash) >> begin) s s' true
          run in
      let (_, run₂) = panic_step (slice_panics h.file_hash) begin s₁ s' true run₁ in
      let (_, s₂, _, replied, run₃) =
        wire_step (send_frame P key (1 ∷ [])) (λ _. reading C.elapsed >>= fill) s₁ s' true run₂ in
      let time = C.elapsed s₂.wire.draws in
      let (s₃, at₃, _, run₄) =
        disk_step (write_file fp []) (on_wire take_in >>= store_upload P C key client_key h time) s₂
          s' true run₃ in
      let (content, s₄, _, took, run₅) =
        wire_step take_in (store_upload P C key client_key h time) s₃ s' true run₄ in
      let (same_hash, kept) = store_upload-IsStored P C key client_key h time content s₄ s' run₅ in
      let unread : s₃.wire.input ≡ s.wire.input =
        ap (λ w. w.input) at₃
        ∙ ap (λ r. r.1.input) (sym replied)
        ∙ send_frame_input P key (1 ∷ []) s₁.wire
        ∙ ap (λ w. w.input) at₁ in
      (content, s₃.wire, s₄.wire, unread, took, same_hash, kept)

  -- An upload that succeeds has received exactly as many bytes as its header announces, of the hash that it
  -- announces, and leaves them and the metadata of the header in their places, whatever the client sent and
  -- whatever failed before.
  pub receive_upload-IsStored :
      (h : UploadHeader) (s s' : Server)
      → receive_upload P C key client_key h s ≡ (ok true, s')
      → (content : Bytes) × (length content ≡ h.file_size)
        × (P.hex (P.sha256 content) ≡ h.file_hash)
        × IsStored P C key client_key h content s'.disk
  receive_upload-IsStored h s s' run =
      let (content, w₁, w₂, _, took, same_hash, kept) = receive_upload_takes h s s' run in
      let size =
        length-receive_chunks P L key read_chunk_size h.file_size (replicate read_chunk_size 0) w₁
          w₂ content (omega arith) took in
      (content, size, same_hash, kept)
