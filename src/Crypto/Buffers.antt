-- ===== src/Crypto/Buffers.antt =====
-- Round trips of the buffer ciphers, the exact room that `encrypt_into` needs, and truncated input.
use rdrive.Base.{
  ℕ, ◌+◌, ◌-◌, ◌<◌, ◌≤◌, ◌≡◌, inl, inr, some, ◌++◌, arith, Bytes, length, take, drop, length-append,
  length-drop, take-append, drop-append, Option-cases, ltb_of_le, append_assoc,
}
use rdrive.Base.Outcome.{ok, panic}
use rdrive.Crypto.Interface.{Primitives, IsLawful}
use rdrive.Crypto.{overhead, encrypt_data, decrypt_data, encrypt_into, decrypt_into}

-- Cutting a sealed message nonce ++ (body ++ tag) at its seams.
module _ (n : ℕ) (nonce body tag : Bytes) (hn : length nonce ≡ 12) (hb : length body ≡ n)
    (ht : length tag ≡ 16) where
  pub length-sealed : length (nonce ++ (body ++ tag)) ≡ n + 28
  length-sealed = omega (arith, length-append nonce (body ++ tag), length-append body tag)

  pub sealed_nonce : take 12 (nonce ++ (body ++ tag)) ≡ nonce
  sealed_nonce = take-append 12 nonce _ hn

  pub sealed_rest : drop 12 (nonce ++ (body ++ tag)) ≡ body ++ tag
  sealed_rest = drop-append 12 nonce _ hn

  pub sealed_tag : drop (12 + n) (nonce ++ (body ++ tag)) ≡ tag
  sealed_tag =
      rw (← append_assoc nonce body tag)
        (drop-append _ (nonce ++ body) tag (omega (arith, length-append nonce body)))

  pub sealed_body : take n (drop 12 (nonce ++ (body ++ tag))) ≡ body
  sealed_body = rw sealed_rest (take-append n body tag hb)

module _ (P : Primitives) (L : IsLawful P) where
  -- A buffer of exactly the length that is needed is filled with nonce, ciphertext and tag.
  pub encrypt_into_exact :
      (input output key nonce ciphertext tag : Bytes)
      → P.seal key nonce input ≡ some (ciphertext, tag)
      → length output ≡ length input + overhead
      → encrypt_into P input output key nonce
        ≡ ok (12 + length input + 16, nonce ++ (ciphertext ++ tag))
  unfolding encrypt_into
  encrypt_into_exact input output key nonce ciphertext tag sealed room = ground (
    arith,
    L.length-seal key nonce input ciphertext tag sealed,
    length-drop 12 output,
    length-drop (length input) (drop 12 output),
  )

  -- Encryption into a buffer with room to spare panics, if the cipher accepts the input.
  pub encrypt_into_larger :
      (input output key nonce ciphertext tag : Bytes)
      → P.seal key nonce input ≡ some (ciphertext, tag)
      → length input + overhead < length output
      → encrypt_into P input output key nonce ≡ panic
  unfolding encrypt_into
  encrypt_into_larger input output key nonce ciphertext tag sealed room = ground (
    arith,
    L.length-seal key nonce input ciphertext tag sealed,
    length-drop 12 output,
    length-drop (length input) (drop 12 output),
  )

  -- A message in the layout of `encrypt_into` decrypts, and the rest of the buffer stays.
  pub decrypt_into_sealed :
      (plain output key nonce ciphertext tag : Bytes)
      → length nonce ≡ 12
      → P.seal key nonce plain ≡ some (ciphertext, tag)
      → length plain ≤ length output
      → decrypt_into P (nonce ++ (ciphertext ++ tag)) output key
        ≡ ok (length plain, plain ++ drop (length plain) output)
  unfolding decrypt_into
  decrypt_into_sealed plain output key nonce ciphertext tag hn sealed room =
      let lens = L.length-seal key nonce plain ciphertext tag sealed in
      let total = length-sealed (length plain) nonce ciphertext tag hn lens.0 lens.1 in
      let inner : length plain + 28 - 12 - 16 ≡ length plain = omega arith in
      rw (
        total,
        inner,
        sealed_tag (length plain) nonce ciphertext tag hn lens.0 lens.1,
        sealed_body (length plain) nonce ciphertext tag hn lens.0 lens.1,
        sealed_nonce (length plain) nonce ciphertext tag hn lens.0 lens.1,
        L.unseal-seal key nonce plain ciphertext tag sealed,
        ltb_of_le (length plain + 28) 28 (omega arith),
        ltb_of_le (length output) (length plain) room,
      )

  -- What a successful call has written.
  pub encrypt_into-eq-ok :
      (input output key nonce : Bytes) {n : ℕ} {written : Bytes}
      → encrypt_into P input output key nonce ≡ ok (n, written)
      → (parts : Bytes × Bytes) × (P.seal key nonce input ≡ some parts)
        × (n ≡ 12 + length input + 16)
        × (written ≡ nonce ++ (parts.0 ++ parts.1))
        × (length output ≡ length input + overhead)
  unfolding encrypt_into
  encrypt_into-eq-ok input output key nonce h = elim (Option-cases (P.seal key nonce input)) [
    | inl e ↦ absurd (ground arith)
    | inr (parts, e) ↦ (
      parts,
      e,
      ground arith,
      ground arith,
      ground (
        arith,
        L.length-seal key nonce input parts.0 parts.1 e,
        length-drop 12 output,
        length-drop (length input) (drop 12 output),
      ),
    )
  ]

  decrypt_data_sealed :
      (plain key nonce ciphertext tag : Bytes)
      → length nonce ≡ 12
      → P.seal key nonce plain ≡ some (ciphertext, tag)
      → decrypt_data P (nonce ++ (ciphertext ++ tag)) key ≡ ok plain
  unfolding decrypt_data
  decrypt_data_sealed plain key nonce ciphertext tag hn sealed =
      let lens = L.length-seal key nonce plain ciphertext tag sealed in
      let total = length-sealed (length plain) nonce ciphertext tag hn lens.0 lens.1 in
      let rest : length (ciphertext ++ tag) - 16 ≡ length plain =
        omega (arith, length-append ciphertext tag) in
      rw (
        total,
        sealed_nonce (length plain) nonce ciphertext tag hn lens.0 lens.1,
        sealed_rest (length plain) nonce ciphertext tag hn lens.0 lens.1,
        rest,
        take-append (length plain) ciphertext tag lens.0,
        drop-append (length plain) ciphertext tag lens.0,
        L.unseal-seal key nonce plain ciphertext tag sealed,
        ltb_of_le (length plain + 28) 28 (omega arith),
      )

  -- What `encrypt_data` returns, with a nonce of 12 bytes, is 28 bytes longer than the data, and `decrypt_data`
  -- takes it back to the data under the same key.
  pub decrypt_data-encrypt_data :
      (plain key nonce : Bytes) {out : Bytes}
      → length nonce ≡ 12
      → encrypt_data P plain key nonce ≡ ok out
      → (length out ≡ length plain + overhead) × (decrypt_data P out key ≡ ok plain)
  unfolding encrypt_data
  decrypt_data-encrypt_data plain key nonce {out} hn h =
      elim (Option-cases (P.seal key nonce plain)) [
        | inl e ↦ absurd (ground arith)
        | inr (parts, e) ↦
            let lens = L.length-seal key nonce plain parts.0 parts.1 e in
            let hw : out ≡ nonce ++ (parts.0 ++ parts.1) = ground arith in
            rw hw (
              length-sealed (length plain) nonce parts.0 parts.1 hn lens.0 lens.1,
              decrypt_data_sealed plain key nonce parts.0 parts.1 hn e,
            )
      ]

  -- A successful encryption into a buffer, with a nonce of 12 bytes, and a decryption into one of at least the
  -- plaintext's length give back the plaintext, at the front of the second buffer.
  decrypt_into-encrypt_into :
      (input output room key nonce : Bytes) {n : ℕ} {written : Bytes}
      → length nonce ≡ 12
      → length input ≤ length room
      → encrypt_into P input output key nonce ≡ ok (n, written)
      → (n ≡ length written)
        × (decrypt_into P written room key ≡ ok (length input, input ++ drop (length input) room))
  decrypt_into-encrypt_into input output room key nonce hn hr h =
      let (parts, sealed, hlen, hw, hroom) = encrypt_into-eq-ok input output key nonce h in
      let lens = L.length-seal key nonce input parts.0 parts.1 sealed in
      rw hw (
        omega (arith, length-sealed (length input) nonce parts.0 parts.1 hn lens.0 lens.1),
        decrypt_into_sealed input room key nonce parts.0 parts.1 hn sealed hr,
      )
