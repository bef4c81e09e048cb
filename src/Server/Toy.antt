-- ===== src/Server/Toy.antt =====
-- A small server for the tests: encodings that are easy to read, an empty disk, and primitives that keep no
-- secret.
pub mod Codecs
use rdrive.Base.{codes, true, false, none, some, [], ◌∷◌, Bytes}
use rdrive.Wire.{Wire, closed}
use rdrive.Locks.{no_locks}
use rdrive.Header.{Codec}
use rdrive.Server.{Site, Server}

-- An encoding that no message needs to be read back from.
abbrev pub opaque_codec : {A : Type 0} → Codec A
opaque_codec = record { serialize = λ a. some (1 ∷ []); deserialize = λ s. none }

abbrev pub site : Site
site = record {
  storage_path = codes "storage" ∷ [];
  storage_dir = codes "storage" ∷ [];
  authorized_client_dir = codes "authorized_keys" ∷ [];
  max_file_size = 1000000000;
  enable_echo = true;
  enable_client_whitelist = true;
  pri_key = 7 ∷ [];
  pub_key = 7 ∷ [];
  client_hello = opaque_codec;
  server_hello = opaque_codec;
  command = opaque_codec;
  echo_debug = opaque_codec;
  upload_response = opaque_codec;
  download_response = opaque_codec;
  error_header = record { serialize = λ e. some (e.code ∷ e.message); deserialize = λ s. none };
  warn_header = opaque_codec;
  status_header = opaque_codec;
  metadata = opaque_codec;
  clock = λ n. n;
  elapsed = λ n. n;
  uptime_hrs = λ n. n;
  rfc3339 = λ n. [];
}

abbrev pub wire_of : Bytes → Wire
wire_of input = record {
  input = input;
  ending = closed;
  output = [];
  fates = [];
  draws = 0;
  pool = [];
  shut = false;
}

abbrev pub server_of : Wire → Server
server_of w = record {
  wire = w;
  disk = record { nodes = []; fates = [] };
  locks = no_locks;
  tracker = record { total_download = 0; total_uploaded = 0; total_bandwidth = 0 };
  limiter = record { buckets = []; max_tokens = 0; refill_rate = 0 };
}
