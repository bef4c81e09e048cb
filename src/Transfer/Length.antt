-- ===== src/Transfer/Length.antt =====
-- How much a receiver takes.
use rdrive.Base.{
  ℕ, zero, suc, ◌+◌, ◌-◌, ◌<◌, ◌≤◌, ◌≡◌, refl, ap, inl, inr, min, [], ◌++◌, arith, Bytes, length,
  take, length-append, length-take, ltb, Bool-cases,
}
use rdrive.Base.Outcome.{ok}
use rdrive.Fault.{chunk_timeout}
use rdrive.Run.{Run, ◌>>=◌, lift}
use rdrive.Run.Laws.{>>=-eq-ok}
use rdrive.Crypto.{Primitives, IsLawful, decrypt_into}
use rdrive.Crypto.Opening.{decrypt_into-eq-ok}
use rdrive.Wire.{Wire, read_exact, timeout}
use rdrive.Transfer.{receive_chunk, receive_chunks}

length-read_exact :
    (n : ℕ) (w w' : Wire) (s : Bytes)
    → timeout chunk_timeout (read_exact n) w ≡ (ok s, w')
    → length s ≡ n
unfolding read_exact
length-read_exact n w w' s h = ground (arith, length-take n w.input)

module _ (P : Primitives) (L : IsLawful P) (key : Bytes) where
  -- A round that succeeds has taken the whole chunk, and the loop goes on behind it.
  received_round :
      (size file_size received : ℕ) (dec_buf file : Bytes)
      (next : ℕ → Bytes → Bytes → Run Wire Bytes) (w w' : Wire) (content : Bytes)
      → receive_chunk P key size file_size received dec_buf file next w ≡ (ok content, w')
      → (chunk : Bytes) × (buf : Bytes) × (w₁ : Wire) × (length chunk
          ≡ min size (file_size - received))
        × (next (received + length chunk) buf (file ++ chunk) w₁ ≡ (ok content, w'))
  unfolding receive_chunk
  received_round size file_size received dec_buf file next w w' content h =
      let n = min size (file_size - received) in
      let (enc, w₁, read, h₁) =
        >>=-eq-ok (timeout chunk_timeout (read_exact (12 + n + 16)))
          (λ enc. lift (decrypt_into P enc dec_buf key) >>= λ d.
            next (received + d.0) d.1 (file ++ take d.0 d.1))
          w h in
      let ((m, buf), w₂, opened, h₂) =
        >>=-eq-ok (lift (decrypt_into P enc dec_buf key))
          (λ d. next (received + d.0) d.1 (file ++ take d.0 d.1)) w₁ h₁ in
      let all = length-read_exact (12 + n + 16) w w₁ enc read in
      let (long, cut) =
        decrypt_into-eq-ok P L enc dec_buf key {n = m} {out = buf} (ap (λ r. r.0) opened) in
      (take m buf, buf, w₂, omega (arith, all, long, cut), rw cut h₂)

  length-receive_chunks_from :
      (fuel size file_size received : ℕ) (dec_buf file : Bytes) (w w' : Wire) (content : Bytes)
      → 0 < size
      → length file ≡ received
      → received ≤ file_size
      → file_size ≤ received + fuel
      → receive_chunks P key fuel size file_size received dec_buf file w ≡ (ok content, w')
      → length content ≡ file_size
  unfolding receive_chunks
  length-receive_chunks_from zero size file_size received dec_buf file w w' content pos e lo hi h =
      let same : file ≡ content = ground arith in omega (arith, ap (λ s. length s) same)
  length-receive_chunks_from (suc fuel) size file_size received dec_buf file w w' content pos e lo
        hi h =
      elim (Bool-cases (ltb received file_size)) [
        | inl more ↦
            let (chunk, buf, w₁, len, next) =
              received_round size file_size received dec_buf file
                (receive_chunks P key fuel size file_size) w w' content
                (rw (more, receive_chunks) at h) in
            let some_bytes : received < file_size = ground arith in
            length-receive_chunks_from fuel size file_size (received + length chunk) buf
              (file ++ chunk) w₁ w' content pos (omega (arith, length-append file chunk))
              (omega arith) (omega arith) next
        | inr done ↦
            let same : file ≡ content = ground (arith, (rw (done, receive_chunks) at h)) in
            let full : file_size ≤ received = ground arith in omega (arith, ap (λ s. length s) same)
      ]

  -- Fuel of the announced size is enough: a receiver on it, with chunks that are not empty, that returns a file
  -- returns one of exactly that size, whatever the peer sends.
  pub length-receive_chunks :
      (size file_size : ℕ) (dec_buf : Bytes) (w w' : Wire) (content : Bytes)
      → 0 < size
      → receive_chunks P key file_size size file_size 0 dec_buf [] w ≡ (ok content, w')
      → length content ≡ file_size
  length-receive_chunks size file_size dec_buf w w' content pos h =
      length-receive_chunks_from file_size size file_size 0 dec_buf [] w w' content pos refl
        (omega arith) (omega arith) h
