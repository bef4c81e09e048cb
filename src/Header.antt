-- ===== src/Header.antt =====
-- src/header.rs: the messages of the protocol and their validation. Strings and byte arrays are byte
-- lists; a float is its bit pattern, which the program only passes on.
-- `serialize` and `deserialize` are the crate `postcard`: each message's encoding is a `Codec`, a
-- parameter.
pub mod Validation
pub mod Tests
use rdrive.Base.{
  ℕ, ◌*◌, ◌≡◌, Bool, ◌||◌, not, ◌&&◌, Option, some, Bytes, length, is_empty, ltb, leb,
}
use rdrive.Base.Outcome.{Outcome, ok, ◌>>◌, reject_if}

pub record ClientHello : Type 0 where
  pub x22519_key : Bytes
  pub nonce : Bytes

pub record ServerHello : Type 0 where
  pub ed25519_key : Bytes
  pub x22519_key : Bytes
  pub signature : Bytes
  pub nonce : Bytes

pub record EchoDebugHeader : Type 0 where
  pub payload_len : ℕ
  pub payload_hash : Bytes
  pub process_ms : ℕ

pub record UploadHeader : Type 0 where
  pub file_id : Bytes
  pub file_name : Bytes
  pub file_size : ℕ
  pub file_hash : Bytes
  pub file_key : Bytes

pub record UploadResponse : Type 0 where
  pub file_id : Bytes
  pub file_hash : Bytes
  pub network_time : ℕ

pub record DownloadHeader : Type 0 where
  pub file_id : Bytes
  pub file_key : Bytes

pub record DownloadResponse : Type 0 where
  pub file_name : Bytes
  pub file_size : ℕ
  pub file_hash : Bytes
  pub network_time : ℕ

pub record ErrorHeader : Type 0 where
  pub code : ℕ
  pub message : Bytes

pub record WarnHeader : Type 0 where
  pub code : ℕ
  pub message : Bytes

pub record StatusHeader : Type 0 where
  pub timestamp : Bytes
  pub uptime_hrs : ℕ
  pub auth_client : ℕ
  pub total_uploaded : ℕ
  pub total_downloaded : ℕ
  pub total_bandwidth_used : ℕ

pub data Command : Type 0 where
  echo : Command
  auth : ℕ → Command
  upload : UploadHeader → Command
  download : DownloadHeader → Command
  status : Command

-- `serialize` and `deserialize` of one message type.
pub record Codec (A : Type 0) : Type 0 where
  pub serialize : A → Option Bytes
  pub deserialize : Bytes → Option A

-- What is serialized is read back.
abbrev pub IsFaithful : {A : Type 0} → Codec A → Type 0
IsFaithful {A} c = (a : A) (s : Bytes) → c.serialize a ≡ some s → c.deserialize s ≡ some a

-- Why a header is refused.
pub data Invalid : Type 0 where
  bad_file_id empty_file_name bad_file_size empty_file_hash bad_file_key : Invalid

abbrev pub min_file_size : ℕ
min_file_size = 1024 * 1024

-- `(32..=256).contains(&n)`
abbrev in_range : ℕ → ℕ → ℕ → Bool
in_range lo hi n = leb lo n && leb n hi

-- `UploadHeader::validate`, given `MAX_FILE_SIZE_GB`, a number of bytes.
unfoldable pub validate_upload : ℕ → UploadHeader → Outcome Invalid (Unit {0})
validate_upload max_file_size h = do
  reject_if (is_empty h.file_id || not (in_range 32 256 (length h.file_id))) bad_file_id
  reject_if (is_empty h.file_name) empty_file_name
  reject_if (ltb h.file_size min_file_size || ltb max_file_size h.file_size) bad_file_size
  reject_if (is_empty h.file_hash) empty_file_hash
  reject_if (is_empty h.file_key || ltb 512 (length h.file_key)) bad_file_key

-- `DownloadHeader::validate`
unfoldable pub validate_download : DownloadHeader → Outcome Invalid (Unit {0})
validate_download h = do
  reject_if (is_empty h.file_id || not (in_range 32 256 (length h.file_id))) bad_file_id
  reject_if (is_empty h.file_key || ltb 512 (length h.file_key)) bad_file_key
