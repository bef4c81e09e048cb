-- ===== src/Transfer/Tests.antt =====
-- Chunks of two bytes between two ends of a connection, and the theorems at them.
use rdrive.Base.{
  ℕ, ◌≡◌, refl, false, List, [], ◌∷◌, ◌++◌, arith, Bytes, length, take, drop, replicate,
}
use rdrive.Base.Outcome.{ok, panic}
use rdrive.Crypto.{encrypt_into, decrypt_into}
use rdrive.Crypto.Toy.{toy, toy-IsLawful, fit, zero_tag}
use rdrive.Wire.{Wire, closed, read_exact, write_all}
use rdrive.Transfer.{send_chunks, receive_chunk, receive_chunks}
use rdrive.Transfer.Length.{length-receive_chunks}
use rdrive.Transfer.Exchange.{receive-send_chunks, send_chunks_partial}

abbrev idle : Bytes → Wire
idle input = record {
  input = input;
  ending = closed;
  output = [];
  fates = [];
  draws = 0;
  pool = [];
  shut = false;
}

abbrev chunks : List Bytes
chunks = (1 ∷ 2 ∷ []) ∷ (3 ∷ 4 ∷ []) ∷ []

enc_buf : Bytes
unfolding replicate
enc_buf = replicate 30 0

sender : Wire
unfolding send_chunks encrypt_into write_all take drop fit enc_buf
sender = (send_chunks toy (9 ∷ []) enc_buf chunks (idle [])).1

receive-send_chunks_example :
    receive_chunks toy (9 ∷ []) 3 2 4 0 (0 ∷ 0 ∷ []) [] (idle (sender.output ++ (5 ∷ [])))
    ≡ (ok (1 ∷ 2 ∷ 3 ∷ 4 ∷ []), idle (5 ∷ []))
unfolding sender drop enc_buf
receive-send_chunks_example =
    receive-send_chunks toy toy-IsLawful (9 ∷ []) chunks 2 3 enc_buf (0 ∷ 0 ∷ []) (5 ∷ []) (idle [])
      sender (idle (sender.output ++ (5 ∷ []))) (omega arith) refl refl (omega arith) refl refl

send_chunks_partial_example : (send_chunks toy (9 ∷ []) enc_buf ((7 ∷ []) ∷ []) (idle [])).0 ≡ panic
unfolding enc_buf
send_chunks_partial_example =
    send_chunks_partial toy toy-IsLawful (9 ∷ []) (7 ∷ []) [] 2 enc_buf ((7 ∷ []), zero_tag)
      (idle []) refl (omega arith) refl

length-receive_chunks_example : length {A = ℕ} (1 ∷ 2 ∷ 3 ∷ 4 ∷ []) ≡ 4
unfolding sender drop enc_buf receive_chunks receive_chunk decrypt_into read_exact take
length-receive_chunks_example =
    length-receive_chunks toy toy-IsLawful (9 ∷ []) 2 4 (0 ∷ 0 ∷ []) (idle sender.output)
      (receive_chunks toy (9 ∷ []) 4 2 4 0 (0 ∷ 0 ∷ []) [] (idle sender.output)).1
      (1 ∷ 2 ∷ 3 ∷ 4 ∷ []) (omega arith) refl
