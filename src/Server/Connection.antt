-- ===== src/Server/Connection.antt =====
-- `handle_connection`: the handshake, one command, its price, and its handler.
pub mod Limits
pub mod Tests
pub mod History
pub mod Isolation
use rdrive.Base.{
  ℕ, ◌*◌, ◌/◌, codes, Bool, true, false, not, Option, none, some, List, [], ◌∷◌, ◌++◌, Bytes,
  replicate, String, if◌then◌else◌,
}
use rdrive.Base.Outcome.{Outcome, ok, err, panic, pending}
use rdrive.Fault.{
  Fault, message, handshake_failed, deserialize_failed, contains, contains_any, to_lowercase,
}
use rdrive.Run.{Run, ◌>>=◌, ◌>>◌, pure, fail, panics, lift, or_fail}
use rdrive.Crypto.{Primitives}
use rdrive.Wire.{Wire, map_err, set_pool}
use rdrive.Wire.Frames.{read_encrypt_data_into}
use rdrive.RateLimit.{unit, IpAddr, is_allowed_cost}
use rdrive.Header.{
  Command, echo, auth, upload, download, status, Invalid, validate_upload, validate_download,
  bad_file_id, empty_file_name, bad_file_size, empty_file_hash, bad_file_key,
}
use rdrive.Server.{Site, Server, on_wire, caught}
use rdrive.Server.Reply.{send_failed, send_status, refuse}
use rdrive.Server.Handshake.{session_key, server_handshake}
use rdrive.Server.Echo.{handle_echo_perf}
use rdrive.Server.Auth.{handle_auth_keys}
use rdrive.Server.Files.{handle_upload, handle_download}

-- The price of a command.
unfoldable pub cost : Command → ℕ
cost status = unit
cost (auth flags) = 2 * unit
cost (upload h) = 5 * unit
cost (download h) = 5 * unit
cost echo = 3 * unit / 2

-- `validate()`'s messages.
abbrev pub invalid_message : Invalid → String
invalid_message bad_file_id = "File ID must be a non-empty string between 32 and 256 characters"
invalid_message empty_file_name = "File name cannot be empty"
invalid_message bad_file_size = "File size must be between 1MB and the limit in GB"
invalid_message empty_file_hash = "File hash cannot be empty"
invalid_message bad_file_key = "File key must be between 1 and 512 characters"

abbrev pub eof_patterns : List Bytes
eof_patterns = codes "eof" ∷ codes "early eof" ∷ codes "unexpected eof" ∷ []

-- `let _ = m.await`
abbrev pub ignored : {S : Type 0} → Run S (Unit {0}) → Run S (Unit {0})
ignored m s = (ok tt, (m s).1)

module _ (P : Primitives) (C : Site) where
  unfoldable pub read_headers : Bytes → Run Wire Command
  read_headers key = do
    decrypted_buf ← read_encrypt_data_into P key
    or_fail (C.command.deserialize decrypted_buf) deserialize_failed

  -- `RATE_LIMITER.is_allowed_cost`; a client whose address is unknown is not limited.
  unfoldable pub allowed : Option IpAddr → Command → Run Server Bool
  allowed none c s = (ok true, s)
  allowed (some ip) c s =
      let (l, fine) = is_allowed_cost (C.clock s.wire.draws) ip (cost c) s.limiter in
      (ok fine, record s { limiter = l })

  abbrev pub invalid : Bytes → String → Invalid → Run Server (Unit {0})
  invalid key what e = on_wire (
      send_failed P key C
        (record { code = 400; message = codes what ++ codes (invalid_message e) }))

  -- A handler behind the validation of its header.
  abbrev pub validated :
      Bytes → String → Outcome Invalid (Unit {0}) → Run Server (Unit {0}) → Run Server (Unit {0})
  validated key what (ok _) m = m
  validated key what (err e) m = invalid key what e
  validated key what panic m = panics
  validated key what pending m = lift pending

  -- The last `match`.
  unfoldable pub dispatch : ℕ → Bytes → Bytes → Command → Run Server (Unit {0})
  dispatch fuel key client_key echo =
      if C.enable_echo
      then on_wire (handle_echo_perf P C key fuel)
      else refuse P key C 403 "ECHO command is disabled on this server"
  dispatch fuel key client_key (auth flags) = handle_auth_keys P C key flags
  dispatch fuel key client_key (upload h) =
      validated key "Invalid upload header: " (validate_upload C.max_file_size h)
        (handle_upload P C key client_key h)
  dispatch fuel key client_key (download h) =
      validated key "Invalid download header: " (validate_download h)
        (handle_download P C key client_key h)
  dispatch fuel key client_key status = send_status P key C

  -- A command, paid for.
  unfoldable pub serve : ℕ → Option IpAddr → Bytes → Bytes → Command → Run Server (Unit {0})
  serve fuel ip key client_key c = do
    fine ← allowed ip c
    if fine
        then dispatch fuel key client_key c
        else refuse P key C 429 "Rate limit exceeded, try again later"

  -- What came of reading the command.
  unfoldable pub on_command :
      ℕ → Option IpAddr → Bytes → Bytes → Outcome Fault Command → Run Server (Unit {0})
  on_command fuel ip key client_key (ok c) = serve fuel ip key client_key c
  on_command fuel ip key client_key (err e) =
      if contains (codes "Timeout") (codes (message e))
      then ignored (refuse P key C 408 "Request timed out")
      else (if contains_any eof_patterns (to_lowercase (codes (message e)))
          then pure tt
          else fail e)
  on_command fuel ip key client_key panic = panics
  on_command fuel ip key client_key pending = lift pending

  abbrev pub pool_size : ℕ
  pool_size = 14 * 1024 * 1024

  -- Fuel is for the echo loop.
  unfoldable pub handle_connection : ℕ → Option IpAddr → Run Server (Unit {0})
  handle_connection fuel ip = do
    keys ← on_wire (map_err handshake_failed (server_handshake P C))
    let key = session_key P keys.0
    on_wire (set_pool (replicate pool_size 0))
    command ← λ s. caught (on_wire (read_headers key) s)
    on_command fuel ip key keys.1 command
