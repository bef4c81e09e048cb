-- ===== src/Client/Commands/Success.antt =====
-- Uploads and downloads that succeed, where nothing stands in their way.
use rdrive.Base.{
  ◌+◌, ◌%◌, ◌≡◌, refl, ◌∙◌, ap, true, false, some, [], ◌++◌, arith, Bytes, length, replicate,
  length-replicate,
}
use rdrive.Base.Outcome.{Outcome, ok}
use rdrive.Fault.{Fault}
use rdrive.Crypto.{Primitives, IsLawful, overhead}
use rdrive.Wire.{Wire}
use rdrive.Wire.Limits.{sent}
use rdrive.Wire.Delivered.{Seals}
use rdrive.Disk.{Disk, is_dir, create_dir_all}
use rdrive.Header.{IsFaithful}
use rdrive.Transfer.{read_chunk_size, send_chunks}
use rdrive.Transfer.Delivered.{send_chunks_delivered}
use rdrive.Server.{Site, Server}
use rdrive.Server.Files.{
  user_dir_path, file_path, meta_path, slice_panics, chunks_of, receive_upload,
}
use rdrive.Server.Files.Chunks.{chunks_of-AllOfLength}
use rdrive.Server.Files.Slots.{slot_of, stored}
use rdrive.Server.Files.Stored.{metadata_of}
use rdrive.Server.Files.Accepted.{IsEncodable, receive_upload-accepted}
use rdrive.Client.{Profile, Client}
use rdrive.Client.Commands.Delivery.{receive-sent_content}
use rdrive.Client.Commands.Journey.{upload_header, receive_upload-sent}

module _ (P : Primitives) (L : IsLawful P) (seals : Seals P) (C : Site) (U : Profile) where
  -- The sender's loop over a file of whole chunks.
  abbrev sending : Bytes → Bytes → Wire → Outcome Fault (Unit {0}) × Wire
  sending key file =
      send_chunks P key (replicate (read_chunk_size + overhead) 0)
        (chunks_of (length file) read_chunk_size file)

  sending_delivered :
      (key file : Bytes) (w : Wire)
      → w.fates ≡ []
      → length file % read_chunk_size ≡ 0
      → sending key file w ≡ (ok tt, (sending key file w).1)
  sending_delivered key file w quiet whole =
      let (w', sent_it, _) =
        send_chunks_delivered P L seals key (chunks_of (length file) read_chunk_size file)
          read_chunk_size (replicate (read_chunk_size + overhead) 0) w quiet (omega arith)
          (length-replicate (read_chunk_size + overhead) 0)
          (chunks_of-AllOfLength (length file) file whole) in
      ap (λ r. (r.0, (sending key file w).1)) sent_it

  -- The upload of a file of whole chunks succeeds and leaves the file in its place of the storage. The server reads
  -- what the client's loop writes, both wires deliver, the server's disk grants everything, the directory can be
  -- made and no directory stands in the way, the hash is long enough to be logged, metadata and responses can be
  -- encoded, and the metadata are read back as they were written.
  pub receive_upload-sending :
      (key client_key file_id name file file_key more : Bytes) (d : Disk) (cw : Wire) (s : Server)
      → length file % read_chunk_size ≡ 0
      → (cw.fates ≡ []) × (s.wire.fates ≡ []) × (s.disk.fates ≡ [])
      → IsFaithful C.metadata
      → IsEncodable P L seals C key client_key (upload_header P file_id name file file_key)
      → slice_panics (P.hex (P.sha256 file)) ≡ false
      → create_dir_all (user_dir_path P C key client_key file_key) s.disk ≡ (true, d)
      → is_dir (file_path P C key client_key file_key file_id) d ≡ false
      → is_dir (meta_path P C key client_key file_key file_id) d ≡ false
      → s.wire.input ≡ sent P L key cw (sending key file cw).1 ++ more
      → (s' : Server) × (receive_upload P C key client_key
            (upload_header P file_id name file file_key)
            s
          ≡ (ok true, s'))
        × (stored C s'.disk (slot_of P client_key file_key file_id)
            ≡ some
                (metadata_of P C key client_key (upload_header P file_id name file file_key), file))
  receive_upload-sending key client_key file_id name file file_key more d cw s whole
        (quiet, quiet₁, quiet₂) faithful encodable long made free free' e =
      let h = upload_header P file_id name file file_key in
      let up = sending_delivered key file cw quiet whole in
      let (s', accepted) =
        receive_upload-accepted P L seals C key client_key h file d s (quiet₁, quiet₂) encodable
          (long, refl) made free free'
          (λ w same still. (
            record w { input = more },
            receive-sent_content P L key file more cw (sending key file cw).1 w up (same ∙ e),
            still,
          )) in
      (
        s',
        accepted,
        receive_upload-sent P L C U key client_key file_id name file file_key more cw
            (sending key file cw).1 s s' faithful up e accepted,
      )
