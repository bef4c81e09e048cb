-- ===== src/Wire/Limits.antt =====
-- The limits of the frames: what the writer sends and the reader refuses, and that neither panics.
use rdrive.Base.{
  ℕ, ◌+◌, ◌^◌, ◌<◌, ◌≤◌, ◌≡◌, ◌≢◌, refl, ◌∙◌, ◌++◌, arith, Bytes, length, take, drop, drop-append,
  ap, ltb, ltb_of_le, ◌-◌, Bool-cases, inl, inr,
}
use rdrive.Base.Word32.{as_u32, to_be_bytes, from_be_bytes}
use rdrive.Base.Outcome.{ok, err, panic}
use rdrive.Fault.{invalid_frame_length}
use rdrive.Run.Laws.{>>=-err, after-ne-panic}
use rdrive.Crypto.{Primitives, IsLawful, decrypt_into}
use rdrive.Wire.{Wire, read_exact, grown}
use rdrive.Wire.Frames.{
  max_frame_length, u32_max, framed, read_frame_length, read_body, open_frame,
  read_encrypt_data_into, write_encrypt_frame_into,
}
use rdrive.Wire.RoundTrip.{
  length-grown, Opens-length, write_encrypt_frame-Opens, read_encrypt_data-Opens,
  read_frame_length_refused,
}

module _ (P : Primitives) (key : Bytes) where
  -- A frame whose announced length is above 16 MiB is refused before anything behind the length is read.
  pub read_refused :
      (n : ℕ) (rest : Bytes) (r : Wire)
      → r.input ≡ to_be_bytes (as_u32 n) ++ rest
      → max_frame_length < n
      → n < 2 ^ 32
      → read_encrypt_data_into P key r ≡ (err invalid_frame_length, record r { input = rest })
  unfolding read_encrypt_data_into
  read_refused n rest r e lo hi =
      >>=-err read_frame_length (open_frame P key) (read_frame_length_refused n rest r e lo hi)

  decrypt_into-ne-panic : (s t : Bytes) → decrypt_into P s t key ≢ panic
  unfolding decrypt_into
  decrypt_into-ne-panic s t = ground arith

  read_exact-ne-panic : (n : ℕ) (w : Wire) → (read_exact n w).0 ≢ panic
  unfolding read_exact
  read_exact-ne-panic n w = ground arith

  read_frame_length-ne-panic : (w : Wire) → (read_frame_length w).0 ≢ panic
  unfolding read_frame_length
  read_frame_length-ne-panic w = ground (arith, read_exact-ne-panic 4 w)

  -- The pool is grown before it is split.
  read_body-ne-panic : (n : ℕ) (w : Wire) → 28 ≤ n → (read_body P key n w).0 ≢ panic
  unfolding read_body
  read_body-ne-panic n w long =
      let required = n + (n - 12 - 16) in
      rw (ltb_of_le n 28 long, ltb_of_le _ required (length-grown required w.pool))
        (after-ne-panic _ _ (read_exact-ne-panic n (record w { pool = grown required w.pool }))
          (λ encrypted s. after-ne-panic _ _ (decrypt_into-ne-panic encrypted _) (λ out t p. cc)))

  open_frame-ne-panic : (n : ℕ) (w : Wire) → (open_frame P key n w).0 ≢ panic
  open_frame-ne-panic n w = elim (Bool-cases (ltb n 28)) [
    | inl short ↦ ground (arith, short)
    | inr long ↦ ground (arith, long, read_body-ne-panic n w (ground (arith, long)))
  ]

  -- Whatever the peer sends, and however it ends, reading a frame does not panic.
  pub read_encrypt_data-ne-panic : (w : Wire) → (read_encrypt_data_into P key w).0 ≢ panic
  unfolding read_encrypt_data_into
  read_encrypt_data-ne-panic w =
      after-ne-panic (open_frame P key) (read_frame_length w) (read_frame_length-ne-panic w)
        (open_frame-ne-panic)

module _ (P : Primitives) (L : IsLawful P) (key : Bytes) where
  -- The bytes that a step has added to the output.
  abbrev pub sent : Wire → Wire → Bytes
  sent w w' = drop (length w.output) w'.output

  -- Data of at most 16 MiB less 28 bytes that one end writes as an encrypted frame is what the other
  -- end reads, under the same session key, and the bytes behind the frame stay unread.
  pub read-write_encrypt_frame :
      (plain rest : Bytes) (w w' r : Wire)
      → write_encrypt_frame_into P key plain w ≡ (ok tt, w')
      → length plain + 28 ≤ max_frame_length
      → r.input ≡ sent w w' ++ rest
      → (r' : Wire) × (read_encrypt_data_into P key r ≡ (ok plain, r')) × (r'.input ≡ rest)
  read-write_encrypt_frame plain rest w w' r h hi e =
      let (body, o, out) = write_encrypt_frame-Opens P L key plain w w' h in
      read_encrypt_data-Opens P L key plain body rest r o hi
        (e ∙ rw (out, drop-append (length w.output) w.output (framed body) refl))

  -- A frame whose length the limit of 16 MiB forbids is written all the same, and refused by the reader.
  pub oversized_frame_refused :
      (plain rest : Bytes) (w w' r : Wire)
      → write_encrypt_frame_into P key plain w ≡ (ok tt, w')
      → max_frame_length < length plain + 28
      → length plain + 28 < 2 ^ 32
      → r.input ≡ sent w w' ++ rest
      → (read_encrypt_data_into P key r).0 ≡ err invalid_frame_length
  oversized_frame_refused plain rest w w' r h lo hi e =
      let (body, o, out) = write_encrypt_frame-Opens P L key plain w w' h in
      let front : r.input ≡ to_be_bytes (as_u32 (length plain + 28)) ++ (body ++ rest) =
        e
        ∙ rw (
          out,
          drop-append (length w.output) w.output (framed body) refl,
          Opens-length P L key body plain o,
        ) in
      ap (λ r. r.0) (read_refused P key (length plain + 28) (body ++ rest) r front lo hi)

  -- Data within 28 bytes of 4 GiB passes the writer's test of its length, and the length that is
  -- written in front of the frame has wrapped around.
  pub frame_length_wraps :
      (plain : Bytes) (w w' : Wire)
      → write_encrypt_frame_into P key plain w ≡ (ok tt, w')
      → 2 ^ 32 ≤ length plain + 28
      → length plain ≤ u32_max
      → from_be_bytes (take 4 (sent w w')) + 2 ^ 32 ≡ length plain + 28
  unfolding take
  frame_length_wraps plain w w' h lo hi =
      let (body, o, out) = write_encrypt_frame-Opens P L key plain w w' h in
      let size = Opens-length P L key body plain o in
      rw (out, drop-append (length w.output) w.output (framed body) refl, size) (omega arith)
