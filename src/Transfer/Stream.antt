-- ===== src/Transfer/Stream.antt =====
-- What a sender puts on the wire, chunk by chunk.
use rdrive.Base.{
  ℕ, ◌+◌, ◌≤◌, ◌≡◌, refl, ◌∙◌, inl, inr, List, [], ◌∷◌, ◌++◌, arith, Bytes, length, take,
  take-of_length, drop-of_length, append-nil, append_assoc,
}
use mathlib.Core.Path.{subst}
use rdrive.Base.Outcome.{Outcome-cases, ok}
use rdrive.Fault.{chunk_timeout}
use rdrive.Run.Laws.{>>=-eq-ok}
use rdrive.Crypto.{Primitives, IsLawful, encrypt_into, decrypt_into}
use rdrive.Crypto.Buffers.{encrypt_into-eq-ok, decrypt_into_sealed}
use rdrive.Wire.{Wire, write_all, timeout}
use rdrive.Wire.RoundTrip.{Opens, Opens-length}
use rdrive.Transfer.{send_chunks}

abbrev pub concat : List Bytes → Bytes
concat [] = []
concat (c ∷ cs) = c ++ concat cs

module _ (P : Primitives) (key : Bytes) where
  -- A stream of bytes that holds these chunks, each sealed and n bytes long.
  abbrev pub Streams : ℕ → Bytes → List Bytes → Type 0
  Streams n stream [] = stream ≡ []
  Streams n stream (c ∷ cs) =
      (body : Bytes) × (rest : Bytes) × Opens P key body c
      × (length c + 28 ≡ n)
      × (stream ≡ body ++ rest)
      × Streams n rest cs

  timed_write :
      (bytes : Bytes) (w w' : Wire)
      → timeout chunk_timeout (write_all bytes) w ≡ (ok tt, w')
      → w'.output ≡ w.output ++ bytes
  unfolding write_all
  timed_write bytes w w' h = ground arith

  -- One round of the sender.
  send_round :
      (enc_buf chunk : Bytes) (chunks : List Bytes) (w w' : Wire) (n : ℕ) (out : Bytes)
      → send_chunks P key enc_buf (chunk ∷ chunks) w ≡ (ok tt, w')
      → encrypt_into P chunk enc_buf key (P.random w.draws 12) ≡ ok (n, out)
      → (w₁ : Wire) × (w₁.output ≡ w.output ++ take n out)
        × (send_chunks P key out chunks w₁ ≡ (ok tt, w'))
  unfolding send_chunks
  send_round enc_buf chunk chunks w w' n out h e =
      let (_, w₁, wrote, next) =
        >>=-eq-ok (timeout chunk_timeout (write_all (take n out)))
          (λ _. send_chunks P key out chunks) (record w { draws = w.draws + 1 }) (rw e at h) in
      (w₁, timed_write (take n out) (record w { draws = w.draws + 1 }) w₁ wrote, next)

module _ (P : Primitives) (L : IsLawful P) (key : Bytes) where
  encrypted_round :
      (enc_buf chunk : Bytes) (chunks : List Bytes) (w w' : Wire)
      → send_chunks P key enc_buf (chunk ∷ chunks) w ≡ (ok tt, w')
      → (n : ℕ) × (out : Bytes) × (encrypt_into P chunk enc_buf key (P.random w.draws 12)
          ≡ ok (n, out))
  unfolding send_chunks
  encrypted_round enc_buf chunk chunks w w' h =
      elim (Outcome-cases (encrypt_into P chunk enc_buf key (P.random w.draws 12))) [
        | inl ((n, out), e) ↦ (n, out, e)
        | inr (inl (f, e)) ↦ absurd (ground arith)
        | inr (inr (inl e)) ↦ absurd (ground arith)
        | inr (inr (inr e)) ↦ absurd (ground arith)
      ]

  joined :
      (w w₁ w' : Wire) (n : ℕ) (out rest : Bytes)
      → length out ≤ n
      → w₁.output ≡ w.output ++ take n out
      → w'.output ≡ w₁.output ++ rest
      → w'.output ≡ w.output ++ (out ++ rest)
  joined w w₁ w' n out rest fits wrote more =
      more ∙ rw (wrote, take-of_length n out fits) (append_assoc w.output out rest)

  pub resized :
      (cs : List Bytes) (stream : Bytes) (m n : ℕ)
      → m ≡ n
      → Streams P key m stream cs
      → Streams P key n stream cs
  resized cs stream m n e h = subst (λ k. Streams P key k stream cs) e h

  -- Decryption of a whole chunk into a buffer of its size.
  pub opened :
      (dec_buf c body : Bytes) (size : ℕ)
      → length dec_buf ≡ size
      → length c ≡ size
      → Opens P key body c
      → decrypt_into P body dec_buf key ≡ ok (size, c)
  opened dec_buf c body size hd hc (nonce, ciphertext, tag, hn, sealed, eb) =
      rw (eb, ← hc)
        (decrypt_into_sealed P L c dec_buf key nonce ciphertext tag hn sealed (omega arith)
          ∙ rw (drop-of_length (length c) dec_buf (omega arith), append-nil c))

  -- A successful send puts a stream of the chunks on the wire, and every chunk filled the buffer.
  pub send_chunks-Streams :
      (chunks : List Bytes) (enc_buf : Bytes) (w w' : Wire)
      → send_chunks P key enc_buf chunks w ≡ (ok tt, w')
      → (stream : Bytes) × (w'.output ≡ w.output ++ stream)
        × Streams P key (length enc_buf) stream chunks
  unfolding send_chunks
  send_chunks-Streams [] enc_buf w w' h = ([], ground (arith, append-nil w.output), refl)
  send_chunks-Streams (c ∷ cs) enc_buf w w' h =
      let (n, out, e) = encrypted_round enc_buf c cs w w' h in
      let (parts, sealed, hn, hw, room) =
        encrypt_into-eq-ok P L c enc_buf key (P.random w.draws 12) e in
      let o : Opens P key out c =
        (P.random w.draws 12, parts.0, parts.1, L.length-random w.draws 12, sealed, hw) in
      let size = Opens-length P L key out c o in
      let (w₁, wrote, next) = send_round P key enc_buf c cs w w' n out h e in
      let (rest, more, streams) = send_chunks-Streams cs out w₁ w' next in
      (
        out ++ rest,
        joined w w₁ w' n out rest (omega arith) wrote more,
        (
          out,
          rest,
          o,
          omega arith,
          refl,
          resized cs rest (length out) (length enc_buf) (omega arith) streams,
        ),
      )
