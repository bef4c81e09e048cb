-- ===== src/Wire/Tests.antt =====
-- Frames between two ends of a connection over the stand-in primitives.
use rdrive.Base.{◌≡◌, ◌≢◌, refl, [], ◌∷◌, ◌++◌, arith, Bytes, length, take, drop, replicate, false}
use rdrive.Base.Outcome.{ok, err, panic}
use rdrive.Fault.{frame_too_short, read_error, frame_timeout}
use rdrive.Crypto.{encrypt_into}
use rdrive.Crypto.Toy.{toy, toy-IsLawful, fit}
use rdrive.Wire.{Wire, Ending, closed, silent, read_exact, write_all, grown}
use rdrive.Wire.Frames.{read_frame_length, read_encrypt_data_into, write_encrypt_frame_into}
use rdrive.Wire.Limits.{read-write_encrypt_frame, read_encrypt_data-ne-panic}

abbrev pub idle : Bytes → Ending → Wire
idle input ending = record {
  input = input;
  ending = ending;
  output = [];
  fates = [];
  draws = 0;
  pool = [];
  shut = false;
}

abbrev key : Bytes
key = 1 ∷ 2 ∷ []

sender : Wire
unfolding write_encrypt_frame_into encrypt_into write_all grown take drop replicate fit
sender = (write_encrypt_frame_into toy key (7 ∷ 8 ∷ 9 ∷ []) (idle [] closed)).1

sender_output : length sender.output ≡ 35
unfolding sender
sender_output = refl

short_frame :
    (read_encrypt_data_into toy key (idle (0 ∷ 0 ∷ 0 ∷ 5 ∷ 1 ∷ []) closed)).0 ≡ err frame_too_short
unfolding read_encrypt_data_into read_frame_length read_exact take drop
short_frame = refl

cut_off : (read_encrypt_data_into toy key (idle (0 ∷ 0 ∷ []) closed)).0 ≡ err read_error
unfolding read_encrypt_data_into read_frame_length read_exact take drop
cut_off = refl

slow_peer : (read_encrypt_data_into toy key (idle (0 ∷ 0 ∷ []) silent)).0 ≡ err frame_timeout
unfolding read_encrypt_data_into read_frame_length read_exact take drop
slow_peer = refl

read-write_encrypt_frame_example :
    (r' : Wire) × (read_encrypt_data_into toy key (idle (sender.output ++ (4 ∷ [])) closed)
      ≡ (ok (7 ∷ 8 ∷ 9 ∷ []), r'))
    × (r'.input ≡ 4 ∷ [])
unfolding sender drop
read-write_encrypt_frame_example =
    read-write_encrypt_frame toy toy-IsLawful key (7 ∷ 8 ∷ 9 ∷ []) (4 ∷ []) (idle [] closed) sender
      (idle (sender.output ++ (4 ∷ [])) closed) refl (omega arith) refl

read_encrypt_data-ne-panic_example :
    (read_encrypt_data_into toy key (idle (0 ∷ 0 ∷ 0 ∷ 5 ∷ 1 ∷ []) closed)).0 ≢ panic
read_encrypt_data-ne-panic_example =
    read_encrypt_data-ne-panic toy key (idle (0 ∷ 0 ∷ 0 ∷ 5 ∷ 1 ∷ []) closed)
