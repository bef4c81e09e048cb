-- ===== src/Server/Reply.antt =====
-- `send_success`, `send_warn`, `send_failed` and `send_status`: a flag and a message in one encrypted
-- frame, and the end of the connection.
pub mod Read
pub mod Input
use rdrive.Base.{ℕ, ◌/◌, ◌^◌, String, codes, not, List, [], ◌∷◌, Bytes, Option}
use rdrive.Fault.{Fault, write_timeout, serialize_failed, disk_failed}
use rdrive.Run.{Run, ◌>>=◌, ◌>>◌, gets, or_fail, fail_if}
use rdrive.Crypto.{Primitives}
use rdrive.Wire.{Wire, timeout, shutdown}
use rdrive.Wire.Frames.{write_encrypt_frame_into}
use rdrive.Disk.{Disk, dirs_in, is_dir}
use rdrive.Header.{ErrorHeader, WarnHeader, StatusHeader}
use rdrive.Server.{Tracker, Site, Server, on_wire, reading}

module _ (P : Primitives) (session_key : Bytes) where
  -- `timeout(WRITE_TIMEOUT, write_encrypt_frame_into(…)).await??`
  unfoldable pub send_frame : Bytes → Run Wire (Unit {0})
  send_frame data_bytes = timeout write_timeout (write_encrypt_frame_into P session_key data_bytes)

  -- The common end of the replies.
  unfoldable pub send_last : Bytes → Run Wire (Unit {0})
  send_last rsp = do send_frame rsp; shutdown

  -- `send_success`, on the response's encoding.
  unfoldable pub send_success : Option Bytes → Run Wire (Unit {0})
  send_success response = do payload ← or_fail response serialize_failed; send_last (1 ∷ payload)

  module _ (C : Site) where
    unfoldable pub send_warn : WarnHeader → Run Wire (Unit {0})
    send_warn response = do
      payload_bytes ← or_fail (C.warn_header.serialize response) serialize_failed
      send_last (2 ∷ payload_bytes)

    unfoldable pub send_failed : ErrorHeader → Run Wire (Unit {0})
    send_failed response = do
      payload_bytes ← or_fail (C.error_header.serialize response) serialize_failed
      send_last (3 ∷ payload_bytes)

    -- `send_failed` with a code and a fixed message, from a handler.
    abbrev pub refuse : ℕ → String → Run Server (Unit {0})
    refuse code message = on_wire (send_failed (record { code = code; message = codes message }))

    unfoldable pub send_status : Run Server (Unit {0})
    send_status = do
      uptime ← reading C.uptime_hrs
      tracker ← gets (λ s. s.tracker)
      disk ← gets (λ s. s.disk)
      fail_if (not (is_dir C.storage_dir disk)) disk_failed
      timestamp ← reading C.rfc3339
      status ←
          or_fail
            (C.status_header.serialize (record {
              timestamp = timestamp;
              uptime_hrs = uptime;
              auth_client = dirs_in C.storage_dir disk.nodes;
              total_uploaded = tracker.total_uploaded;
              total_downloaded = tracker.total_download;
              total_bandwidth_used = tracker.total_bandwidth / 2 ^ 30;
            }))
            serialize_failed
      on_wire (send_last status)
