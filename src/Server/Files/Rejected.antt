-- ===== src/Server/Files/Rejected.antt =====
-- An upload whose hash does not fit.
use rdrive.Base.{
  sym, ℕ, ◌≡◌, ◌∙◌, ap, inl, inr, true, false, not, none, some, [], ◌∷◌, arith, Bytes, bytes_eq,
  codes, replicate, Bool-cases, if◌then◌else◌,
}
use rdrive.Base.Outcome.{ok}
use rdrive.Fault.{disk_failed, serialize_failed}
use rdrive.Run.{◌>>=◌, ◌>>◌, pure, fail_if, panic_if}
use rdrive.Crypto.{Primitives}
use rdrive.Disk.{file, node_at, create_dir_all, write_file, remove_file}
use rdrive.Disk.Laws.{node_at-put_same, write_file-eq-true}
use rdrive.Disk.Contents.{file_at, create_dir_all_fates, write_file_fates, remove_file-gone}
use rdrive.Header.{UploadHeader}
use rdrive.Transfer.{read_chunk_size, receive_chunks}
use rdrive.Server.{Site, Server, on_wire, on_disk, reading}
use rdrive.Server.Steps.{or_fail_step, wire_step, disk_step, panic_step}
use rdrive.Server.Reply.{send_frame, send_success, send_failed, refuse}
use rdrive.Server.Files.{
  user_dir_path, file_path, meta_path, save_upload, store_upload, receive_upload, slice_panics,
}
use rdrive.Server.Files.Slots.{Slot, slot_eq, slot_of, stored, stored-none, erase, eq_of_slot_eq}
use rdrive.Server.Files.Stored.{metadata_of}
use rdrive.Server.Files.Refinement.{receive_upload_elsewhere}

module _ (P : Primitives) (C : Site) (key client_key : Bytes) where
  save_upload_succeeds :
      (h : UploadHeader) (time : ℕ) (s s' : Server)
      → save_upload P C key client_key h time s ≡ (ok false, s')
      → ⊥
  unfolding save_upload
  save_upload_succeeds h time s s' run =
      let mp = meta_path P C key client_key h.file_key h.file_id in
      let reply = send_success P key (
        C.upload_response.serialize
          (record { file_id = h.file_id; file_hash = h.file_hash; network_time = time })) in
      let (m, encoded, run₁) =
        or_fail_step (C.metadata.serialize (metadata_of P C key client_key h)) serialize_failed
          (λ m. on_disk (write_file mp m) >>= λ saved.
            fail_if (not saved) disk_failed >> (on_wire reply >> pure true))
          s s' false run in
      let (s₁, _, wrote, run₂) =
        disk_step (write_file mp m) (on_wire reply >> pure true) s s' false run₁ in
      let (_, s₂, _, _, last) = wire_step reply (λ _. pure true) s₁ s' false run₂ in
      ground (arith, last)

  removed :
      (h : UploadHeader) (content : Bytes) (s s' : Server)
      → s.disk.fates ≡ []
      → node_at (file_path P C key client_key h.file_key h.file_id) s.disk.nodes
        ≡ some (file content)
      → (on_disk (remove_file (file_path P C key client_key h.file_key h.file_id)) >>= λ _.
            refuse P key C 406 "File hash mismatch" >> pure false)
          s
        ≡ (ok false, s')
      → file_at (file_path P C key client_key h.file_key h.file_id) s'.disk ≡ none
  removed h content s s' quiet there run =
      let fp = file_path P C key client_key h.file_key h.file_id in
      let s₁ = record s { disk = (remove_file fp s.disk).1 } in
      let (_, s₂, kept, _, last) =
        wire_step
          (send_failed P key C (record { code = 406; message = codes "File hash mismatch" }))
          (λ _. pure false) s₁ s' false run in
      ap (λ r. file_at fp r.1.disk) (sym last)
      ∙ ap (file_at fp) kept
      ∙ remove_file-gone fp content s.disk quiet there

  store_upload_rejected :
      (h : UploadHeader) (time : ℕ) (content : Bytes) (s s' : Server)
      → s.disk.fates ≡ []
      → store_upload P C key client_key h time content s ≡ (ok false, s')
      → file_at (file_path P C key client_key h.file_key h.file_id) s'.disk ≡ none
  unfolding store_upload
  store_upload_rejected h time content s s' quiet run =
      let fp = file_path P C key client_key h.file_key h.file_id in
      let rejected =
        on_disk (remove_file fp) >>= λ _. refuse P key C 406 "File hash mismatch" >> pure false in
      let (s₁, _, wrote, run₁) =
        disk_step (write_file fp content)
          (if bytes_eq (P.hex (P.sha256 content)) h.file_hash
            then save_upload P C key client_key h time
            else rejected)
          s s' false run in
      let there : node_at fp s₁.disk.nodes ≡ some (file content) =
        rw (write_file-eq-true fp content s.disk s₁.disk wrote)
          (node_at-put_same fp (file content) s.disk.nodes) in
      elim (Bool-cases (bytes_eq (P.hex (P.sha256 content)) h.file_hash)) [
        | inl same ↦ absurd (save_upload_succeeds h time s₁ s' (rw same at run₁))
        | inr other ↦
            removed h content s₁ s' (write_file_fates fp content s.disk s₁.disk true wrote quiet)
              there (rw other at run₁)
      ]

  receive_upload_rejected :
      (h : UploadHeader) (s s' : Server)
      → s.disk.fates ≡ []
      → receive_upload P C key client_key h s ≡ (ok false, s')
      → file_at (file_path P C key client_key h.file_key h.file_id) s'.disk ≡ none
  unfolding receive_upload
  receive_upload_rejected h s s' quiet run =
      let dir = user_dir_path P C key client_key h.file_key in
      let fp = file_path P C key client_key h.file_key h.file_id in
      let buf = replicate read_chunk_size 0 in
      let take_in = receive_chunks P key h.file_size read_chunk_size h.file_size 0 buf [] in
      let fill = λ (time : ℕ). on_disk (write_file fp []) >>= λ done.
      fail_if (not done) disk_failed
      >> (on_wire take_in >>= store_upload P C key client_key h time) in
      let begin = on_wire (send_frame P key (1 ∷ [])) >>= λ _. (reading C.elapsed >>= fill) in
      let (s₁, _, made, run₁) =
        disk_step (create_dir_all dir) (panic_if (slice_panics h.file_hash) >> begin) s s' false
          run in
      let (_, run₂) = panic_step (slice_panics h.file_hash) begin s₁ s' false run₁ in
      let (_, s₂, kept, _, run₃) =
        wire_step (send_frame P key (1 ∷ [])) (λ _. reading C.elapsed >>= fill) s₁ s' false run₂ in
      let time = C.elapsed s₂.wire.draws in
      let (s₃, _, emptied, run₄) =
        disk_step (write_file fp []) (on_wire take_in >>= store_upload P C key client_key h time) s₂
          s' false run₃ in
      let (content, s₄, kept', took, run₅) =
        wire_step take_in (store_upload P C key client_key h time) s₃ s' false run₄ in
      let quiet₁ = create_dir_all_fates dir s.disk s₁.disk true made quiet in
      let quiet₃ =
        write_file_fates fp [] s₂.disk s₃.disk true emptied (ap (λ d. d.fates) kept ∙ quiet₁) in
      store_upload_rejected h time content s₄ s' (ap (λ d. d.fates) kept' ∙ quiet₃) run₅

  -- An upload that is rejected erases what its slot held before, and nothing else, where the file system
  -- does all that it is asked.
  pub receive_upload-erase :
      (h : UploadHeader) (s s' : Server)
      → s.disk.fates ≡ []
      → receive_upload P C key client_key h s ≡ (ok false, s')
      → (a : Slot)
      → stored C s'.disk a ≡ erase (slot_of P client_key h.file_key h.file_id) (stored C s.disk) a
  unfolding erase
  receive_upload-erase h s s' quiet run a =
      let own = slot_of P client_key h.file_key h.file_id in
      elim (Bool-cases (slot_eq own a)) [
        | inl same ↦
            rw (same, ← (eq_of_slot_eq own a same))
              (stored-none C s'.disk own (receive_upload_rejected h s s' quiet run))
        | inr other ↦
            rw other (receive_upload_elsewhere P C key client_key h s s' (ok false) a run other)
      ]
