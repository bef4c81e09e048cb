-- ===== src/Server/Reply/Input.antt =====
-- A reply reads nothing.
use rdrive.Base.{◌≡◌, Bytes, arith}
use rdrive.Crypto.{Primitives}
use rdrive.Wire.{Wire, write_all}
use rdrive.Wire.Frames.{write_encrypt_frame_into}
use rdrive.Server.Reply.{send_frame}

pub send_frame_input :
    (P : Primitives) (key s : Bytes) (w : Wire) → (send_frame P key s w).1.input ≡ w.input
unfolding send_frame write_encrypt_frame_into write_all
send_frame_input P key s w = ground arith
