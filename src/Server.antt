-- ===== src/Server.antt =====
-- The server's side of src/protocol_v1.rs: the state that a connection's handlers read and change, and
-- the settings that they look up. A handler runs from its first step to its last here; what tasks do to
-- the file locks between each other's steps is the subject of Locks.
pub mod Steps
pub mod Reply
pub mod Handshake
pub mod Echo
pub mod Auth
pub mod Files
pub mod Connection
pub mod Accept
pub mod Startup
pub mod Toy
pub mod Tests
use rdrive.Base.{ℕ, ◌+◌, ◌++◌, Bool, Option, Bytes, List, [], ◌∷◌}
use rdrive.Base.Outcome.{Outcome, ok}
use rdrive.Fault.{Fault}
use rdrive.Run.{Run}
use rdrive.Wire.{Wire}
use rdrive.Disk.{Disk, FilePath}
use rdrive.Locks.{Locks}
use rdrive.RateLimit.{RateLimiter}
use rdrive.Header.{
  Codec, ClientHello, ServerHello, EchoDebugHeader, Command, UploadResponse, DownloadResponse,
  ErrorHeader, WarnHeader, StatusHeader,
}

-- src/lib.rs, `Tracker`; the bandwidth is counted in bytes.
pub record Tracker : Type 0 where
  pub total_download : ℕ
  pub total_uploaded : ℕ
  pub total_bandwidth : ℕ

unfoldable pub log_upload : ℕ → Tracker → Tracker
log_upload bytes t = record t {
  total_bandwidth = t.total_bandwidth + bytes;
  total_uploaded = t.total_uploaded + 1;
}

unfoldable pub log_download : ℕ → Tracker → Tracker
log_download bytes t = record t {
  total_bandwidth = t.total_bandwidth + bytes;
  total_download = t.total_download + 1;
}

-- src/lib.rs, `MetadataFile`
pub record MetadataFile : Type 0 where
  pub filename : Bytes
  pub file_size : ℕ
  pub file_hash : Bytes
  pub file_key_hash : Bytes

-- The settings, the server's key, the encodings of the messages (`postcard`), and the readings of the
-- clock, each by the number of random draws made so far.
pub record Site : Type 0 where
  -- The storage that the server was started with, and those that `get_storage_dir` and
  -- `get_authorized_client_dir` name.
  pub storage_path : FilePath
  pub storage_dir : FilePath
  pub authorized_client_dir : FilePath
  pub max_file_size : ℕ
  pub enable_echo : Bool
  pub enable_client_whitelist : Bool
  pub pri_key : Bytes
  pub pub_key : Bytes
  pub client_hello : Codec ClientHello
  pub server_hello : Codec ServerHello
  pub command : Codec Command
  pub echo_debug : Codec EchoDebugHeader
  pub upload_response : Codec UploadResponse
  pub download_response : Codec DownloadResponse
  pub error_header : Codec ErrorHeader
  pub warn_header : Codec WarnHeader
  pub status_header : Codec StatusHeader
  pub metadata : Codec MetadataFile
  pub clock : ℕ → ℕ
  -- Milliseconds or seconds since the handler's start.
  pub elapsed : ℕ → ℕ
  pub uptime_hrs : ℕ → ℕ
  pub rfc3339 : ℕ → Bytes

pub record Server : Type 0 where
  pub wire : Wire
  pub disk : Disk
  pub locks : Locks
  pub tracker : Tracker
  pub limiter : RateLimiter

-- A step on one part of the state.
abbrev pub on_wire : {A : Type 0} → Run Wire A → Run Server A
on_wire m s = let (r, w) = m s.wire in (r, record s { wire = w })

abbrev pub on_disk : {A : Type 0} → (Disk → A × Disk) → Run Server A
on_disk f s = let (a, d) = f s.disk in (ok a, record s { disk = d })

abbrev pub on_locks : {A : Type 0} → (Locks → A × Locks) → Run Server A
on_locks f s = let (a, l) = f s.locks in (ok a, record s { locks = l })

-- A reading of the clock.
abbrev pub reading : {A : Type 0} → (ℕ → A) → Run Server A
reading f s = (ok (f s.wire.draws), s)

-- What `match` makes of a step's result.
abbrev pub caught :
    {A : Type 0} → Outcome Fault A × Server → Outcome Fault (Outcome Fault A) × Server
caught (r, s) = (ok r, s)
