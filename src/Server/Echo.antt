-- ===== src/Server/Echo.antt =====
-- `handle_echo_perf`. Its own timer and the one in `read_frame_length` run for the same 30 seconds; the
-- inner one is polled first.
pub mod Ends
use rdrive.Base.{
  ℕ, zero, suc, codes, Bool, ◌||◌, List, [], ◌∷◌, Bytes, bytes_eq, length, if◌then◌else◌, is_empty,
}
use rdrive.Base.Word32.{as_u32}
use rdrive.Base.Outcome.{Outcome, ok, err, panic, pending}
use rdrive.Fault.{Fault, message, serialize_failed, contains_any, to_lowercase}
use rdrive.Run.{Run, ◌>>=◌, ◌>>◌, pure, fail, panics, or_fail}
use rdrive.Crypto.{Primitives}
use rdrive.Wire.{Wire}
use rdrive.Wire.Frames.{read_encrypt_data_into}
use rdrive.Server.{Site}
use rdrive.Server.Reply.{send_frame}

-- The messages of errors that only say that the client has left.
abbrev pub gone_patterns : List Bytes
gone_patterns =
    codes "eof"
    ∷ codes "early eof"
    ∷ codes "unexpected eof"
    ∷ codes "forcibly closed"
    ∷ codes "connection reset"
    ∷ codes "closed by the remote"
    ∷ codes "connection aborted"
    ∷ codes "broken pipe"
    ∷ []

unfoldable pub is_gone : Fault → Bool
unfolding contains_any to_lowercase
is_gone e = contains_any gone_patterns (to_lowercase (codes (message e)))

-- The payloads that end the loop.
unfoldable pub is_quit : Bytes → Bool
is_quit payload =
    is_empty payload
    || bytes_eq payload (codes " ")
    || bytes_eq payload (codes "q")
    || bytes_eq payload (codes "quit")
    || bytes_eq payload (codes "exit")

module _ (P : Primitives) (C : Site) (session_key : Bytes) where
  -- The reply to one payload.
  unfoldable pub echo_reply : Bytes → Run Wire (Unit {0})
  echo_reply payload w =
      (or_fail
            (C.echo_debug.serialize (record {
              payload_len = as_u32 (length payload);
              payload_hash = P.sha256 payload;
              process_ms = C.elapsed w.draws;
            }))
            serialize_failed
          >>= send_frame P session_key)
        w

  -- The rest of a round, on what was read. A timer that elapsed ends the loop, and so does a client that
  -- has left.
  unfoldable pub echo_payload : Run Wire (Unit {0}) → Outcome Fault Bytes → Run Wire (Unit {0})
  echo_payload again (ok payload) =
      if is_quit payload then pure tt else (echo_reply payload >> again)
  echo_payload again (err e) = if is_gone e then pure tt else fail e
  echo_payload again panic = panics
  echo_payload again pending = pure tt

  -- The loop, on fuel.
  unfoldable pub handle_echo_perf : ℕ → Run Wire (Unit {0})
  handle_echo_perf zero w = (pending, w)
  handle_echo_perf (suc fuel) w =
      let (r, w') = read_encrypt_data_into P session_key w in
      echo_payload (handle_echo_perf fuel) r w'
