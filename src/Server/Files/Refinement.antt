-- ===== src/Server/Files/Refinement.antt =====
-- Uploads against the storage as its clients see it.
use rdrive.Base.{
  sym, ◌≡◌, refl, ◌∙◌, ap, inl, inr, Bool, true, false, some, Bytes, codes, length, Bool-cases,
}
use rdrive.Base.Outcome.{Outcome, ok}
use rdrive.Fault.{Fault}
use rdrive.Crypto.{Primitives, IsLawful}
use rdrive.Disk.{Disk}
use rdrive.Disk.Contents.{file_at}
use rdrive.Header.{IsFaithful, UploadHeader}
use rdrive.Server.{Site, Server}
use rdrive.Server.Files.{receive_upload}
use rdrive.Server.Files.Isolation.{receive_upload-Keeps}
use rdrive.Server.Files.Slots.{
  Slot, slot_eq, slot_of, slot_path, stored, insert, stored_same, other_slot_path, eq_of_slot_eq,
}
use rdrive.Server.Files.Stored.{metadata_of, IsStored, receive_upload-IsStored}

module _ (P : Primitives) (C : Site) (key client_key : Bytes) where
  -- Whether an upload succeeds or not, the other slots stay as they were.
  pub receive_upload_elsewhere :
      (h : UploadHeader) (s s' : Server) (r : Outcome Fault Bool) (a : Slot)
      → receive_upload P C key client_key h s ≡ (r, s')
      → slot_eq (slot_of P client_key h.file_key h.file_id) a ≡ false
      → stored C s'.disk a ≡ stored C s.disk a
  receive_upload_elsewhere h s s' r a run other =
      let own = slot_of P client_key h.file_key h.file_id in
      let kept : (suffix : Bytes)
          → length (codes ".meta") ≡ length suffix
          → file_at (slot_path C a suffix) s'.disk ≡ file_at (slot_path C a suffix) s.disk =
        λ suffix n.
          ap (λ r. file_at (slot_path C a suffix) r.1.disk) (sym run)
          ∙ (receive_upload-Keeps P C key client_key (slot_path C a suffix)
                (file_at (slot_path C a suffix) s.disk) h
                (other_slot_path C own a (codes ".file") suffix n other)
                (other_slot_path C own a (codes ".meta") suffix n other)).at
              s refl in
      stored_same C s.disk s'.disk a (kept (codes ".meta") refl) (kept (codes ".file") refl)

  pub IsStored-stored :
      (h : UploadHeader) (content : Bytes) (d : Disk)
      → IsFaithful C.metadata
      → IsStored P C key client_key h content d
      → stored C d (slot_of P client_key h.file_key h.file_id)
        ≡ some (metadata_of P C key client_key h, content)
  unfolding stored
  IsStored-stored h content d faithful (there, (m, encoded, meta)) =
      rw (there, meta, faithful (metadata_of P C key client_key h) m encoded)

module _ (P : Primitives) (L : IsLawful P) (C : Site) (key client_key : Bytes) where
  -- An upload that succeeds inserts, into the storage as the clients see it, the header's metadata and a content
  -- of the size and the hash that the header announces, and changes no other place of it. The metadata's encoding
  -- is read back as it was written.
  pub receive_upload_refines :
      (h : UploadHeader) (s s' : Server)
      → IsFaithful C.metadata
      → receive_upload P C key client_key h s ≡ (ok true, s')
      → (content : Bytes) × (length content ≡ h.file_size)
        × (P.hex (P.sha256 content) ≡ h.file_hash)
        × ((a : Slot)
            → stored C s'.disk a
              ≡ insert
                  (slot_of P client_key h.file_key h.file_id)
                  (metadata_of P C key client_key h, content)
                  (stored C s.disk)
                  a)
  unfolding insert
  receive_upload_refines h s s' faithful run =
      let (content, size, hash, there) = receive_upload-IsStored P L C key client_key h s s' run in
      let own = slot_of P client_key h.file_key h.file_id in
      (
        content,
        size,
        hash,
        λ a. elim (Bool-cases (slot_eq own a)) [
          | inl same ↦
              rw (same, ← (eq_of_slot_eq own a same))
                (IsStored-stored P C key client_key h content s'.disk faithful there)
          | inr other ↦
              rw other (receive_upload_elsewhere P C key client_key h s s' (ok true) a run other)
        ],
      )
