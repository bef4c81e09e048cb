-- ===== src/Server/Toy/Codecs.antt =====
-- Encodings of the metadata and of the response to a download that are read back.
use rdrive.Base.{
  ◌+◌, ◌≤◌, ◌≡◌, refl, Option, some, none, [], ◌∷◌, ◌++◌, arith, Bytes, length, take, drop, leb,
  take-append, drop-append, if◌then◌else◌,
}
use rdrive.Wire.Frames.{max_frame_length}
use rdrive.Header.{IsFaithful, DownloadResponse}
use rdrive.Server.{Site, MetadataFile}
use rdrive.Server.Toy.{site}

-- An encoding of the metadata with the lengths of its first fields in front.
abbrev pub read_metadata_file : Bytes → Option MetadataFile
read_metadata_file (a ∷ n ∷ b ∷ s) = some (record {
  filename = take a s;
  file_size = n;
  file_hash = take b (drop a s);
  file_key_hash = drop b (drop a s);
})
read_metadata_file _ = none

-- The same of a response, where it fits a frame.
abbrev response_fields : DownloadResponse → Bytes
response_fields r =
    length r.file_name
    ∷ r.file_size
    ∷ length r.file_hash
    ∷ r.network_time
    ∷ (r.file_name ++ r.file_hash)

abbrev pub read_response : Bytes → Option DownloadResponse
read_response (a ∷ n ∷ b ∷ t ∷ s) =
    some (record { file_name = take a s; file_size = n; file_hash = drop a s; network_time = t })
read_response _ = none

abbrev pub write_response : DownloadResponse → Option Bytes
write_response r =
    if leb (length (response_fields r) + 29) max_frame_length
    then some (response_fields r)
    else none

abbrev pub storage_site : Site
storage_site = record site {
  download_response = record { serialize = write_response; deserialize = read_response };
  metadata = record {
    serialize = λ m. some (
        length m.filename
        ∷ m.file_size
        ∷ length m.file_hash
        ∷ (m.filename ++ (m.file_hash ++ m.file_key_hash)));
    deserialize = read_metadata_file;
  };
}

pub metadata-IsFaithful : IsFaithful storage_site.metadata
metadata-IsFaithful m [] e = absurd (ground arith)
metadata-IsFaithful m (a ∷ []) e = absurd (ground arith)
metadata-IsFaithful m (a ∷ n ∷ []) e = absurd (ground arith)
metadata-IsFaithful m (a ∷ n ∷ b ∷ s) e = ground (
  arith,
  take-append (length m.filename) m.filename (m.file_hash ++ m.file_key_hash) refl,
  drop-append (length m.filename) m.filename (m.file_hash ++ m.file_key_hash) refl,
  take-append (length m.file_hash) m.file_hash m.file_key_hash refl,
  drop-append (length m.file_hash) m.file_hash m.file_key_hash refl,
)

pub download_response-IsFaithful : IsFaithful storage_site.download_response
download_response-IsFaithful r [] e = absurd (ground arith)
download_response-IsFaithful r (a ∷ []) e = absurd (ground arith)
download_response-IsFaithful r (a ∷ n ∷ []) e = absurd (ground arith)
download_response-IsFaithful r (a ∷ n ∷ b ∷ []) e = absurd (ground arith)
download_response-IsFaithful r (a ∷ n ∷ b ∷ t ∷ s) e = ground (
  arith,
  take-append (length r.file_name) r.file_name r.file_hash refl,
  drop-append (length r.file_name) r.file_name r.file_hash refl,
)

pub download_response-fits :
    (r : DownloadResponse) (b : Bytes)
    → storage_site.download_response.serialize r ≡ some b
    → length b + 29 ≤ max_frame_length
download_response-fits r b e = ground (arith, e)
