-- ===== src/Wire/Delivered.antt =====
-- Frames on a wire that delivers every write.
use rdrive.Base.{
  ◌+◌, ◌^◌, ◌<◌, ◌≡◌, refl, false, some, [], ltb, ltb_of_le, ◌++◌, arith, Bytes, length, take, drop,
  length-take, length-drop,
}
use rdrive.Base.Outcome.{ok}
use rdrive.Crypto.{Primitives, IsLawful, overhead}
use rdrive.Crypto.Buffers.{encrypt_into_exact}
use rdrive.Wire.{Wire, grown, write_all}
use rdrive.Wire.RoundTrip.{length-grown}
use rdrive.Wire.Frames.{u32_max, write_encrypt_frame_into}
use rdrive.Base.Word32.{as_u32, to_be_bytes}

-- AES-GCM seals whatever has fewer than 2^32 bytes.
abbrev pub Seals : Primitives → Type 0
Seals P =
    (key nonce plain : Bytes)
    → length plain < 2 ^ 32
    → (parts : Bytes × Bytes) × (P.seal key nonce plain ≡ some parts)

pub write_all_delivered :
    (bytes : Bytes) (w : Wire)
    → w.fates ≡ []
    → write_all bytes w ≡ (ok tt, record w { output = w.output ++ bytes })
unfolding write_all
write_all_delivered bytes w quiet = ground arith

module _ (P : Primitives) (L : IsLawful P) (seals : Seals P) (key : Bytes) where
  pub write_encrypt_frame_delivered :
      (plain : Bytes) (w : Wire)
      → w.fates ≡ []
      → length plain < 2 ^ 32
      → (w' : Wire) × (write_encrypt_frame_into P key plain w ≡ (ok tt, w')) × (w'.fates ≡ [])
  unfolding write_encrypt_frame_into
  write_encrypt_frame_delivered plain w quiet small =
      let n = 12 + length plain + 16 in
      let pool = grown (4 + n) w.pool in
      let (parts, sealed) = seals key (P.random w.draws 12) plain small in
      let room : length (take n (drop 4 pool)) ≡ length plain + overhead =
        omega
          (arith, length-grown (4 + n) w.pool, length-take n (drop 4 pool), length-drop 4 pool) in
      let encrypted =
        encrypt_into_exact P L plain (take n (drop 4 pool)) key (P.random w.draws 12) parts.0
          parts.1 sealed room in
      let fits : ltb u32_max (length plain) ≡ false =
        ltb_of_le u32_max (length plain) (omega arith) in
      let prefix = to_be_bytes (as_u32 n) in
      let out = P.random w.draws 12 ++ (parts.0 ++ parts.1) in
      let w₁ = record w { draws = w.draws + 1; pool = prefix ++ (out ++ drop (4 + n) pool) } in
      let wrote = write_all_delivered (prefix ++ out) w₁ quiet in
      (record w₁ { output = w₁.output ++ (prefix ++ out) }, rw (fits, encrypted, wrote) refl, quiet)
