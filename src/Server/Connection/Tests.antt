-- ===== src/Server/Connection/Tests.antt =====
-- Uploads to a small server and what is read back.
use rdrive.Base.{
  ℕ, ◌≡◌, refl, codes, some, none, [], ◌∷◌, ◌++◌, arith, Bytes, length, take, drop, replicate,
}
use rdrive.Crypto.{encrypt_into, decrypt_into}
use rdrive.Crypto.Toy.{toy, toy-IsLawful, fit, zero_tag}
use rdrive.Wire.{read_exact, write_all, grown}
use rdrive.Wire.Frames.{write_encrypt_frame_into}
use rdrive.Transfer.{receive_chunks, receive_chunk, send_chunks}
use rdrive.Disk.{
  parent, node_at, put, make_dirs, create_dir_all, write_file, remove_file, remove, read_file,
}
use rdrive.Disk.Contents.{file_at}
use rdrive.Header.{UploadHeader, DownloadHeader, status, upload}
use rdrive.Server.{Server, MetadataFile}
use rdrive.Server.Reply.{send_failed, send_last, send_frame, send_success, send_status}
use rdrive.Server.Files.{
  receive_upload, store_upload, save_upload, slice_panics, find_file, send_file, chunks_of,
  file_path, meta_path,
}
use rdrive.Server.Files.Slots.{Slot, slot_of, stored, insert, erase}
use rdrive.Server.Files.Stored.{metadata_of}
use rdrive.Server.Files.Refinement.{receive_upload_refines}
use rdrive.Server.Files.Retrieval.{IsSent, find_file_refines}
use rdrive.Server.Files.Rejected.{receive_upload-erase}
use rdrive.Server.Connection.{serve, allowed, dispatch}
use rdrive.Server.Connection.Isolation.{serve_isolated}
use rdrive.Server.Toy.{wire_of, server_of}
use rdrive.Server.Toy.Codecs.{storage_site, metadata-IsFaithful}

-- Two bytes, and no bytes.
abbrev two_byte_file : UploadHeader
two_byte_file = record {
  file_id = codes "id";
  file_name = codes "n";
  file_size = 2;
  file_hash =
      1 ∷ 2 ∷ 0 ∷ 0 ∷ 0 ∷ 0 ∷ 0 ∷ 0 ∷ 0 ∷ 0 ∷ 0 ∷ 0 ∷ 0 ∷ 0 ∷ 0 ∷ 0 ∷ 0 ∷ 0 ∷ 0 ∷ 0 ∷ 0 ∷ 0 ∷ 0 ∷ 0
      ∷ 0 ∷ 0 ∷ 0 ∷ 0 ∷ 0 ∷ 0 ∷ 0 ∷ 0 ∷ [];
  file_key = codes "k";
}

abbrev empty_file : UploadHeader
empty_file = record two_byte_file {
  file_size = 0;
  file_hash =
      0 ∷ 0 ∷ 0 ∷ 0 ∷ 0 ∷ 0 ∷ 0 ∷ 0 ∷ 0 ∷ 0 ∷ 0 ∷ 0 ∷ 0 ∷ 0 ∷ 0 ∷ 0 ∷ 0 ∷ 0 ∷ 0 ∷ 0 ∷ 0 ∷ 0 ∷ 0 ∷ 0
      ∷ 0 ∷ 0 ∷ 0 ∷ 0 ∷ 0 ∷ 0 ∷ 0 ∷ 0 ∷ [];
}

sending : Server
unfolding replicate
sending = server_of (wire_of (replicate 12 6 ++ (1 ∷ 2 ∷ zero_tag)))

sent : Server
unfolding sending receive_upload store_upload save_upload slice_panics create_dir_all make_dirs
    write_file parent put node_at send_success send_last send_frame write_encrypt_frame_into
    encrypt_into decrypt_into write_all read_exact grown take drop fit replicate receive_chunks
    receive_chunk
sent = (receive_upload toy storage_site [] [] two_byte_file sending).1

receive_upload_refines_example :
    (content : Bytes) × (length content ≡ 2)
    × (toy.hex (toy.sha256 content) ≡ two_byte_file.file_hash)
    × ((a : Slot)
        → stored storage_site sent.disk a
          ≡ insert
              (slot_of toy [] (codes "k") (codes "id"))
              (metadata_of toy storage_site [] [] two_byte_file, content)
              (stored storage_site sending.disk)
              a)
unfolding sent
receive_upload_refines_example =
    receive_upload_refines toy toy-IsLawful storage_site [] [] two_byte_file sending sent
      metadata-IsFaithful refl

emptied : Server
unfolding receive_upload store_upload save_upload slice_panics create_dir_all make_dirs write_file
    parent put node_at send_success send_last send_frame write_encrypt_frame_into encrypt_into
    decrypt_into write_all read_exact grown take drop fit replicate receive_chunks receive_chunk
emptied = (receive_upload toy storage_site [] [] empty_file (server_of (wire_of []))).1

abbrev wanted_file : DownloadHeader
wanted_file = record { file_id = codes "id"; file_key = codes "k" }

-- Another client asks for the status.
asked : Server
asked = (serve toy storage_site 1 none [] (3 ∷ []) status emptied).1

downloaded : Server
unfolding emptied asked find_file send_file read_file
downloaded = (find_file toy storage_site [] [] wanted_file asked).1

find_file_refines_example :
    (m : MetadataFile) × (content : Bytes) × (stored storage_site asked.disk
        (slot_of toy [] (codes "k") (codes "id"))
      ≡ some (m, content))
    × (◌≡◌ {A = ℕ} 0 m.file_size)
    × IsSent toy storage_site [] [] content downloaded.wire
    × ((a : Slot) → stored storage_site downloaded.disk a ≡ stored storage_site asked.disk a)
unfolding downloaded serve allowed dispatch send_status send_chunks chunks_of
find_file_refines_example =
    find_file_refines toy storage_site [] [] wanted_file asked downloaded 0 refl

serve_isolated_example :
    (file_at
        (file_path toy storage_site [] [] (codes "k") (codes "id"))
        (serve toy storage_site 1 none [] (3 ∷ []) (upload two_byte_file) emptied).1.disk
      ≡ file_at (file_path toy storage_site [] [] (codes "k") (codes "id")) emptied.disk)
    × (file_at
          (meta_path toy storage_site [] [] (codes "k") (codes "id"))
          (serve toy storage_site 1 none [] (3 ∷ []) (upload two_byte_file) emptied).1.disk
        ≡ file_at (meta_path toy storage_site [] [] (codes "k") (codes "id")) emptied.disk)
unfolding fit
serve_isolated_example =
    serve_isolated toy storage_site [] (3 ∷ []) [] (codes "k") (codes "id") 1 none
      (upload two_byte_file) emptied (λ flags e. ground (arith, e)) (λ e. ground (arith, e))

-- Two bytes under the hash of none.
abbrev mislabelled : UploadHeader
mislabelled = record empty_file { file_size = 2 }

rejected : Server
unfolding sending receive_upload store_upload save_upload slice_panics create_dir_all make_dirs
    remove_file remove write_file parent put node_at send_failed send_last send_frame
    write_encrypt_frame_into encrypt_into decrypt_into write_all read_exact grown take drop fit
    replicate receive_chunks receive_chunk
rejected = (receive_upload toy storage_site [] [] mislabelled sending).1

receive_upload-erase_example :
    stored storage_site rejected.disk (slot_of toy [] (codes "k") (codes "id"))
    ≡ erase
        (slot_of toy [] (codes "k") (codes "id"))
        (stored storage_site sending.disk)
        (slot_of toy [] (codes "k") (codes "id"))
unfolding rejected
receive_upload-erase_example =
    receive_upload-erase toy storage_site [] [] mislabelled sending rejected refl refl
      (slot_of toy [] (codes "k") (codes "id"))
