-- ===== src/Client/Commands/Tests.antt =====
-- A file of one chunk that one client sends and another fetches.
use rdrive.Base.{
  ℕ, arith, ◌%◌, false, length-replicate, ◌+◌, ◌≡◌, refl, sym, append-nil, codes, true, some, [],
  ◌∷◌, ◌++◌, Bytes, length, drop, take, replicate,
}
use rdrive.Base.Outcome.{ok}
use rdrive.Crypto.{encrypt_into, decrypt_into, overhead}
use rdrive.Crypto.Toy.{toy, toy-IsLawful, fit, zero_tag}
use rdrive.Wire.Delivered.{Seals}
use rdrive.Client.Commands.Success.{receive_upload-sending}
use rdrive.Server.Files.Accepted.{IsEncodable}
use rdrive.Server.Files.Stored.{metadata_of}
use rdrive.Wire.{Wire, read_exact, write_all, grown}
use rdrive.Wire.Frames.{write_encrypt_frame_into}
use rdrive.Wire.Limits.{sent}
use rdrive.Transfer.{read_chunk_size, send_chunks, receive_chunks, receive_chunk}
use rdrive.Disk.{parent, Disk, put, node_at, make_dirs, create_dir_all, write_file, read_file}
use rdrive.Header.{UploadHeader, DownloadHeader}
use rdrive.Server.{Server}
use rdrive.Server.Reply.{send_success, send_last, send_frame}
use rdrive.Server.Files.{
  user_dir_path, chunks_of, receive_upload, store_upload, save_upload, slice_panics, find_file,
  send_file,
}
use rdrive.Server.Files.Slots.{slot_of, stored}
use rdrive.Server.Toy.{wire_of, server_of}
use rdrive.Server.Toy.Codecs.{storage_site, metadata-IsFaithful}
use rdrive.Client.{Client}
use rdrive.Client.Toy.{user}
use rdrive.Client.Commands.Journey.{upload_header}

file : Bytes
unfolding replicate
file = replicate 65536 1

up_wire : Wire
unfolding file send_chunks chunks_of encrypt_into write_all take drop replicate
up_wire =
    (send_chunks toy [] (replicate (read_chunk_size + overhead) 0)
      (chunks_of (length file) read_chunk_size file) (wire_of [])).1

abbrev header : UploadHeader
header = upload_header toy (codes "id") (codes "n") file (codes "k")

uploading : Server
unfolding up_wire
uploading = server_of (wire_of up_wire.output)

uploaded : Server
unfolding uploading receive_upload store_upload save_upload slice_panics create_dir_all make_dirs
    write_file parent put node_at send_success send_last send_frame write_encrypt_frame_into
    encrypt_into decrypt_into write_all read_exact grown take drop fit replicate receive_chunks
    receive_chunk
uploaded = (receive_upload toy storage_site [] [] header uploading).1

-- The download comes over another connection.
asked : Server
unfolding uploaded
asked = record uploaded { wire = wire_of [] }

abbrev wanted : DownloadHeader
wanted = record { file_id = codes "id"; file_key = codes "k" }

served : Server
unfolding asked find_file send_file read_file node_at send_frame write_encrypt_frame_into
    encrypt_into write_all grown take drop replicate send_chunks chunks_of slice_panics fit
served = (find_file toy storage_site [] [] wanted asked).1

fetching : Client
unfolding served
fetching = record {
  wire = wire_of served.wire.output;
  disk = record { nodes = []; fates = [] };
  answers = [];
}

up_input : uploading.wire.input ≡ sent toy toy-IsLawful [] (wire_of []) up_wire ++ []
unfolding uploading drop
up_input = sym (append-nil up_wire.output)

toy_seals : Seals toy
toy_seals key nonce plain small = ((plain, zero_tag), refl)

whole : length file % read_chunk_size ≡ 0
unfolding file
whole = omega (arith, length-replicate {A = ℕ} 65536 1)

long : slice_panics (toy.hex (toy.sha256 file)) ≡ false
unfolding file slice_panics fit take drop replicate
long = refl

abbrev file_dir : Disk
file_dir = (create_dir_all (user_dir_path toy storage_site [] [] (codes "k")) uploading.disk).1

encodable : IsEncodable toy toy-IsLawful toy_seals storage_site [] [] header
encodable = ((_, refl), λ time. (1 ∷ [], refl, omega arith))

receive_upload-sending_example :
    (s' : Server) × (receive_upload toy storage_site [] [] header uploading ≡ (ok true, s'))
    × (stored storage_site s'.disk (slot_of toy [] (codes "k") (codes "id"))
        ≡ some (metadata_of toy storage_site [] [] header, file))
unfolding uploading create_dir_all make_dirs node_at put fit
receive_upload-sending_example =
    receive_upload-sending toy toy-IsLawful toy_seals storage_site user [] [] (codes "id")
      (codes "n") file (codes "k") [] file_dir (wire_of []) uploading whole (refl, refl, refl)
      metadata-IsFaithful encodable long refl refl refl up_input
