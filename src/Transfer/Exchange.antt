-- ===== src/Transfer/Exchange.antt =====
-- What one end sends in chunks, the other end receives.
use rdrive.Base.{
  ℕ, zero, suc, ◌+◌, ◌-◌, ◌*◌, ◌<◌, ◌≤◌, ◌≡◌, refl, ◌∙◌, ap, min, some, true, false, List, [], ◌∷◌,
  ◌++◌, arith, Bytes, length, take, drop, length-append, take-of_length, drop-append, append-nil,
  append_assoc, lt→ltb,
}
use rdrive.Base.Outcome.{ok, panic}
use rdrive.Fault.{chunk_timeout}
use rdrive.Run.{Run, ◌>>=◌, pure, lift}
use rdrive.Run.Laws.{>>=-ok}
use rdrive.Crypto.{Primitives, IsLawful, overhead, decrypt_into}
use rdrive.Crypto.Buffers.{encrypt_into_larger}
use rdrive.Wire.{Wire, read_exact, timeout, elapsed}
use rdrive.Wire.RoundTrip.{Opens, Opens-length, read_exact-append}
use rdrive.Transfer.{send_chunks, receive_chunk, receive_chunks}
use rdrive.Transfer.Stream.{concat, Streams, resized, opened, send_chunks-Streams}

module _ (P : Primitives) (L : IsLawful P) (key : Bytes) where
  -- One round of the receiver.
  receive_chunk_lem :
      (size file_size received : ℕ) (dec_buf file c body rest : Bytes)
      (next : ℕ → Bytes → Bytes → Run Wire Bytes) (r : Wire)
      → length dec_buf ≡ size
      → length c ≡ size
      → received + size ≤ file_size
      → Opens P key body c
      → r.input ≡ body ++ rest
      → receive_chunk P key size file_size received dec_buf file next r
        ≡ next (received + size) c (file ++ c) (record r { input = rest })
  unfolding receive_chunk
  receive_chunk_lem size file_size received dec_buf file c body rest next r hd hc room o e =
      let whole : min size (file_size - received) ≡ size = omega arith in
      let enough : 12 + size + 16 ≡ length body = omega (arith, Opens-length P L key body c o) in
      let all : take size c ≡ c = take-of_length size c (omega arith) in
      let read : timeout chunk_timeout (read_exact (12 + min size (file_size - received) + 16)) r
          ≡ (ok body, record r { input = rest }) =
        rw (whole, enough) (ap (elapsed chunk_timeout) (read_exact-append body rest r e)) in
      >>=-ok (timeout chunk_timeout (read_exact (12 + min size (file_size - received) + 16)))
        (λ enc. lift (decrypt_into P enc dec_buf key) >>= λ d.
          next (received + d.0) d.1 (file ++ take d.0 d.1))
        read
      ∙ rw (opened P L key dec_buf c body size hd hc o, all) refl

  receive_more :
      (fuel size file_size received : ℕ) (dec_buf file : Bytes) (r : Wire)
      → received < file_size
      → receive_chunks P key (suc fuel) size file_size received dec_buf file r
        ≡ receive_chunk P key size file_size received dec_buf file
            (receive_chunks P key fuel size file_size)
            r
  unfolding receive_chunks
  receive_more fuel size file_size received dec_buf file r h =
      ap
        (λ b.
          (elim b as (λ x. Run Wire Bytes) [
            | true ↦
                receive_chunk P key size file_size received dec_buf file
                  (receive_chunks P key fuel size file_size)
            | false ↦ pure file
          ])
            r)
        (lt→ltb received file_size h)

  receive_done :
      (fuel size file_size received : ℕ) (dec_buf file : Bytes) (r : Wire)
      → file_size ≤ received
      → receive_chunks P key fuel size file_size received dec_buf file r ≡ (ok file, r)
  unfolding receive_chunks
  receive_done zero size file_size received dec_buf file r h = refl
  receive_done (suc fuel) size file_size received dec_buf file r h = ground arith

  receive_chunks-Streams :
      (chunks : List Bytes) (fuel size file_size received : ℕ) (dec_buf file stream rest : Bytes)
      (r : Wire)
      → 0 < size
      → length dec_buf ≡ size
      → length chunks ≤ fuel
      → file_size ≡ received + length chunks * size
      → Streams P key (size + 28) stream chunks
      → r.input ≡ stream ++ rest
      → receive_chunks P key fuel size file_size received dec_buf file r
        ≡ (ok (file ++ concat chunks), record r { input = rest })
  receive_chunks-Streams [] fuel size file_size received dec_buf file stream rest r pos hd hf es st
        e =
      receive_done fuel size file_size received dec_buf file r (omega arith)
      ∙ ground (arith, append-nil file)
  receive_chunks-Streams (c ∷ cs) zero size file_size received dec_buf file stream rest r pos hd hf
        es st e =
      absurd (omega arith)
  receive_chunks-Streams (c ∷ cs) (suc fuel) size file_size received dec_buf file stream rest r pos
        hd hf es (body, more, o, hc, eb, st) e =
      receive_more fuel size file_size received dec_buf file r (omega arith)
      ∙ receive_chunk_lem size file_size received dec_buf file c body (more ++ rest)
          (receive_chunks P key fuel size file_size) r hd (omega arith) (omega arith) o
          (e ∙ rw eb (append_assoc body more rest))
      ∙ receive_chunks-Streams cs fuel size file_size (received + size) c (file ++ c) more rest
          (record r { input = more ++ rest }) pos (omega arith) (omega arith) (omega arith) st refl
      ∙ rw (append_assoc file c (concat cs))

  -- A file that was sent with success is received whole, on as much fuel as it has chunks, whatever follows it
  -- on the wire: the receiver, told the sum of the chunks' lengths, ends with their concatenation and leaves the
  -- rest. Both ends have buffers for one chunk of the same size.
  pub receive-send_chunks :
      (chunks : List Bytes) (size fuel : ℕ) (enc_buf dec_buf rest : Bytes) (w w' r : Wire)
      → 0 < size
      → length enc_buf ≡ size + overhead
      → length dec_buf ≡ size
      → length chunks ≤ fuel
      → send_chunks P key enc_buf chunks w ≡ (ok tt, w')
      → r.input ≡ drop (length w.output) w'.output ++ rest
      → receive_chunks P key fuel size (length chunks * size) 0 dec_buf [] r
        ≡ (ok (concat chunks), record r { input = rest })
  receive-send_chunks chunks size fuel enc_buf dec_buf rest w w' r pos he hd hf sent e =
      let (stream, out, streams) = send_chunks-Streams P L key chunks enc_buf w w' sent in
      receive_chunks-Streams chunks fuel size (length chunks * size) 0 dec_buf [] stream rest r pos
        hd hf (omega arith) (resized P L key chunks stream (length enc_buf) (size + 28) he streams)
        (e ∙ rw (out, drop-append (length w.output) w.output stream refl))

  Streams-full :
      (chunks : List Bytes) (stream : Bytes) (size : ℕ)
      → Streams P key (size + 28) stream chunks
      → length (concat chunks) ≡ length chunks * size
  Streams-full [] stream size h = omega arith
  Streams-full (c ∷ cs) stream size (body, rest, o, hc, e, h) =
      omega (arith, length-append c (concat cs), Streams-full cs rest size h)

  -- A send with a buffer for one encrypted chunk of a size succeeds only if all chunks together are as long as
  -- that many chunks of that size.
  pub send_chunks_full :
      (chunks : List Bytes) (size : ℕ) (enc_buf : Bytes) (w w' : Wire)
      → length enc_buf ≡ size + overhead
      → send_chunks P key enc_buf chunks w ≡ (ok tt, w')
      → length (concat chunks) ≡ length chunks * size
  send_chunks_full chunks size enc_buf w w' he h =
      let (stream, out, streams) = send_chunks-Streams P L key chunks enc_buf w w' h in
      Streams-full chunks stream size
        (resized P L key chunks stream (length enc_buf) (size + 28) he streams)

  -- A read that fills only part of the chunk buffer, as the last one of a file mostly does, makes the
  -- sender panic, if the cipher accepts the chunk: whatever it holds, wherever the wire stands.
  pub send_chunks_partial :
      (chunk : Bytes) (chunks : List Bytes) (size : ℕ) (enc_buf : Bytes) (parts : Bytes × Bytes)
      (w : Wire)
      → length enc_buf ≡ size + overhead
      → length chunk < size
      → P.seal key (P.random w.draws 12) chunk ≡ some parts
      → (send_chunks P key enc_buf (chunk ∷ chunks) w).0 ≡ panic
  unfolding send_chunks
  send_chunks_partial chunk chunks size enc_buf parts w he short sealed = ground (
    arith,
    encrypt_into_larger P L chunk enc_buf key (P.random w.draws 12) parts.0 parts.1 sealed,
  )
