-- ===== src/Client/Commands/Journey.antt =====
-- A file on its way from one client's disk over the server to another's.
use rdrive.Base.{sym, ◌+◌, ◌≡◌, ◌∙◌, true, some, ◌++◌, arith, Bytes, length, replicate}
use mathlib.Core.Path.{subst}
use rdrive.Base.Outcome.{Outcome, ok}
use rdrive.Fault.{Fault}
use rdrive.Crypto.{Primitives, IsLawful, overhead}
use rdrive.Wire.{Wire}
use rdrive.Wire.Limits.{sent}
use rdrive.Header.{IsFaithful, UploadHeader}
use rdrive.Transfer.{read_chunk_size, send_chunks}
use rdrive.Server.{Site, Server}
use rdrive.Server.Files.{chunks_of, receive_upload}
use rdrive.Server.Files.Slots.{slot_of, stored}
use rdrive.Server.Files.Stored.{metadata_of, IsStored, receive_upload_takes}
use rdrive.Server.Files.Refinement.{IsStored-stored}
use rdrive.Client.{Profile, Client}
use rdrive.Client.Commands.Delivery.{receive-sent_content}

-- What an upload announces of a file.
abbrev pub upload_header : Primitives → Bytes → Bytes → Bytes → Bytes → UploadHeader
upload_header P file_id name file file_key = record {
  file_id = file_id;
  file_name = name;
  file_size = length file;
  file_hash = P.hex (P.sha256 file);
  file_key = file_key;
}

module _ (P : Primitives) (L : IsLawful P) (C : Site) (U : Profile) where
  -- The bytes of an upload that a client has sent in full are what the server stores.
  pub receive_upload-sent :
      (key client_key file_id name file file_key more : Bytes) (cw cw' : Wire) (s s' : Server)
      → IsFaithful C.metadata
      → send_chunks P key
          (replicate (read_chunk_size + overhead) 0)
          (chunks_of (length file) read_chunk_size file)
          cw
        ≡ (ok tt, cw')
      → s.wire.input ≡ sent P L key cw cw' ++ more
      → receive_upload P C key client_key (upload_header P file_id name file file_key) s
        ≡ (ok true, s')
      → stored C s'.disk (slot_of P client_key file_key file_id)
        ≡ some (metadata_of P C key client_key (upload_header P file_id name file file_key), file)
  receive_upload-sent key client_key file_id name file file_key more cw cw' s s' faithful up e run =
      let h = upload_header P file_id name file file_key in
      let (content, w₁, w₂, unread, took, _, kept) =
        receive_upload_takes P L C key client_key h s s' run in
      let whole = receive-sent_content P L key file more cw cw' w₁ up (unread ∙ e) in
      let both : ◌≡◌ {A = Outcome Fault Bytes × Wire} (ok content, w₂)
          (ok file, record w₁ { input = more }) =
        sym took ∙ whole in
      let same : content ≡ file = ground (arith, both) in
      IsStored-stored P C key client_key h file s'.disk faithful
        (subst (λ x. IsStored P C key client_key h x s'.disk) same kept)
