-- ===== src/Transfer/Delivered.antt =====
-- A sender whose writes are delivered and whose chunks fill the buffer.
use rdrive.Base.{ℕ, ◌+◌, ◌^◌, ◌<◌, ◌≡◌, refl, ap, List, [], ◌∷◌, ◌++◌, arith, Bytes, length, take}
use rdrive.Base.Outcome.{ok}
use rdrive.Fault.{chunk_timeout}
use rdrive.Crypto.{Primitives, IsLawful, overhead}
use rdrive.Crypto.Buffers.{encrypt_into_exact, length-sealed}
use rdrive.Wire.{Wire, elapsed}
use rdrive.Wire.Delivered.{Seals, write_all_delivered}
use rdrive.Transfer.{send_chunks}

-- Chunks of one length.
abbrev pub AllOfLength : ℕ → List Bytes → Type 0
AllOfLength n [] = Unit {0}
AllOfLength n (c ∷ cs) = (length c ≡ n) × AllOfLength n cs

module _ (P : Primitives) (L : IsLawful P) (seals : Seals P) (key : Bytes) where
  pub send_chunks_delivered :
      (chunks : List Bytes) (size : ℕ) (enc_buf : Bytes) (w : Wire)
      → w.fates ≡ []
      → size < 2 ^ 32
      → length enc_buf ≡ size + overhead
      → AllOfLength size chunks
      → (w' : Wire) × (send_chunks P key enc_buf chunks w ≡ (ok tt, w')) × (w'.fates ≡ [])
  unfolding send_chunks
  send_chunks_delivered [] size enc_buf w quiet small room all = (w, refl, quiet)
  send_chunks_delivered (c ∷ cs) size enc_buf w quiet small room (full, all) =
      let (parts, sealed) = seals key (P.random w.draws 12) c (omega (arith, full, small)) in
      let out = P.random w.draws 12 ++ (parts.0 ++ parts.1) in
      let encrypted =
        encrypt_into_exact P L c enc_buf key (P.random w.draws 12) parts.0 parts.1 sealed
          (omega (arith, full, room)) in
      let lens = L.length-seal key (P.random w.draws 12) c parts.0 parts.1 sealed in
      let size_of_out : length out ≡ length c + overhead =
        length-sealed (length c) (P.random w.draws 12) parts.0 parts.1 (L.length-random w.draws 12)
          lens.0 lens.1 in
      let enc_len = 12 + length c + 16 in
      let w₁ = record w { draws = w.draws + 1 } in
      let wrote = ap (elapsed chunk_timeout) (write_all_delivered (take enc_len out) w₁ quiet) in
      let (w', sent, quiet') =
        send_chunks_delivered cs size out (record w₁ { output = w₁.output ++ take enc_len out })
          quiet small (omega (arith, size_of_out, full)) all in
      (w', rw (encrypted, wrote) sent, quiet')
