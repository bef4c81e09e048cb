-- ===== src/Fault.antt =====
-- The errors that the program raises (`anyhow::Error`), one constructor for each place that makes
-- one, with the fixed part of the message. `src/protocol_v1.rs` tells two groups of errors apart by
-- searching their messages.
mod Message
unfoldable pub use Message.*
use rdrive.Base.{String, Bytes, codes, Bool, true, false, List, [], ◌∷◌, ◌||◌, bytes_eq, ◌==◌, ◌&&◌}

pub data Fault : Type 0 where
  -- src/crypto.rs
  ciphertext_too_short buffer_too_small cipher_failed : Fault
  bad_signature_bytes bad_public_key signature_rejected : Fault
  -- reading and writing
  frame_timeout read_error early_eof invalid_frame_length frame_too_short : Fault
  too_large write_failed write_timeout serialize_failed deserialize_failed : Fault
  hello_timeout signature_timeout chunk_timeout : Fault
  -- handlers
  handshake_failed disk_failed user_not_registered : Fault
  server_rejected : Fault
  refused unknown_flag hash_mismatch bad_key_file bad_input bad_path : Fault
  -- src/bin/client.rs: an error that is printed before `exit(1)`, and two that are returned
  exited no_keys not_in_map : Fault

-- The text of the message; numbers that the code prints into it are left out.
abbrev pub message : Fault → String
message ciphertext_too_short = "Ciphertext too short"
message buffer_too_small = "Output buffer too small, need at least bytes"
message cipher_failed = "aead::Error"
message bad_signature_bytes = "Failed to construct signature from bytes: signature error"
message bad_public_key = "Failed to construct public key from bytes: signature error"
message signature_rejected = "Signature verification failed: signature error"
message frame_timeout = "Timeout reading frame length"
message read_error = "Read error: early eof"
message early_eof = "early eof"
message invalid_frame_length = "Invalid frame length: "
message frame_too_short = "Frame length too short for encrypted header: "
message too_large = "Too large content: bytes"
message write_failed = "broken pipe"
message write_timeout = "deadline has elapsed"
message serialize_failed = "Failed to serialize: "
message deserialize_failed = "Failed to deserialize: "
message hello_timeout = "Handshake timed out reading client hello"
message signature_timeout = "Handshake timed out reading client signature"
message chunk_timeout = "Upload timed out reading chunk"
message handshake_failed = "Handshake failed: "
message disk_failed = "os error"
message user_not_registered = "User not registered, not found"
message server_rejected = "User rejected unknown server"
message refused = "Auth failed: "
message unknown_flag = "Invalid response from server"
message hash_mismatch = "Hash mismatch: expected but computed "
message bad_key_file = "Invalid private key length: "
message bad_input = "Invalid input, expected a number"
message bad_path = "Invalid file path"
message exited = "exit status 1"
message no_keys = "No existing keys, cannot rotate."
message not_in_map = "Couldn't find in file map "
