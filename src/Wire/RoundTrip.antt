-- ===== src/Wire/RoundTrip.antt =====
-- What a frame's writer sends, its reader returns.
use rdrive.Base.{
  ℕ, ◌+◌, ◌-◌, ◌^◌, ◌<◌, ◌≤◌, ◌≡◌, refl, ◌∙◌, inl, inr, some, ◌++◌, arith, Bytes, length, take,
  drop, replicate, length-append, length-take, length-drop, length-replicate, take-append,
  drop-append, drop-of_length, append-nil, ltb, ltb_of_le, ◌==◌, ◌||◌, ap, Bool-cases,
}
use rdrive.Base.Word32.{as_u32, to_be_bytes, from_be_bytes, from-to_be_bytes}
use rdrive.Base.Outcome.{Outcome-cases, ok, err}
use rdrive.Fault.{frame_timeout, read_error, invalid_frame_length}
use rdrive.Run.{Run, after, ◌>>◌, fail_if, pure}
use rdrive.Run.Laws.{>>=-ok}
use rdrive.Crypto.{Primitives, IsLawful, encrypt_into, decrypt_into}
use rdrive.Crypto.Buffers.{encrypt_into-eq-ok, decrypt_into_sealed}
use rdrive.Wire.{Wire, read_exact, write_all, grown, elapsed, renamed}
use rdrive.Wire.Frames.{
  max_frame_length, framed, read_frame_length, read_raw_data_into, read_body, open_frame,
  read_encrypt_data_into, write_encrypt_frame_into,
}

pub read_exact-append :
    (xs rest : Bytes) (w : Wire)
    → w.input ≡ xs ++ rest
    → read_exact (length xs) w ≡ (ok xs, record w { input = rest })
unfolding read_exact
read_exact-append xs rest w e =
    rw
      (
        e,
        length-append xs rest,
        take-append (length xs) xs rest refl,
        drop-append (length xs) xs rest refl,
      )
      (ground arith)

-- The test of a length that was read.
abbrev check : Bytes → Run Wire ℕ
check len_buf =
    let len = from_be_bytes len_buf in
    fail_if (len == 0 || ltb max_frame_length len) invalid_frame_length >> pure len

-- A length prefix beyond the limit is refused.
pub read_frame_length_refused :
    (n : ℕ) (rest : Bytes) (w : Wire)
    → w.input ≡ to_be_bytes (as_u32 n) ++ rest
    → max_frame_length < n
    → n < 2 ^ 32
    → read_frame_length w ≡ (err invalid_frame_length, record w { input = rest })
unfolding read_frame_length
read_frame_length_refused n rest w e lo hi =
    let four = read_exact-append (to_be_bytes (as_u32 n)) rest w e in
    ap (λ r. after check (elapsed frame_timeout (renamed read_error r))) four
    ∙ ground (arith, from-to_be_bytes n)

-- A length prefix within the limits is read, and the bytes behind it stay.
pub read_frame_length_lem :
    (n : ℕ) (rest : Bytes) (w : Wire)
    → w.input ≡ to_be_bytes (as_u32 n) ++ rest
    → 0 < n
    → n ≤ max_frame_length
    → read_frame_length w ≡ (ok n, record w { input = rest })
unfolding read_frame_length
read_frame_length_lem n rest w e lo hi =
    let four = read_exact-append (to_be_bytes (as_u32 n)) rest w e in
    ap (λ r. after check (elapsed frame_timeout (renamed read_error r))) four
    ∙ ground (arith, from-to_be_bytes n)

-- A raw frame of at most 16 MiB and at least one byte comes back whole, and what follows it stays.
pub read_raw-framed :
    (bytes rest : Bytes) (w : Wire)
    → 0 < length bytes
    → length bytes ≤ max_frame_length
    → w.input ≡ framed bytes ++ rest
    → read_raw_data_into w ≡ (ok bytes, record w { input = rest })
unfolding read_raw_data_into
read_raw-framed bytes rest w lo hi e =
    >>=-ok read_frame_length read_exact
      (read_frame_length_lem (length bytes) (bytes ++ rest) w e lo hi)
    ∙ read_exact-append bytes rest _ refl

pub length-grown : (n : ℕ) (pool : Bytes) → n ≤ length (grown n pool)
unfolding grown
length-grown n pool = elim (Bool-cases (ltb (length pool) n)) [
  | inl e ↦ rw e (
      omega (
        arith,
        length-append pool (replicate (n - length pool) 0),
        length-replicate {A = ℕ} (n - length pool) 0,
      ))
  | inr e ↦ rw e (ground arith)
]

module _ (P : Primitives) (key : Bytes) where
  -- The body of a sealed frame.
  abbrev pub Opens : Bytes → Bytes → Type 0
  Opens body plain =
      (nonce : Bytes) × (ciphertext : Bytes) × (tag : Bytes) × (length nonce ≡ 12)
      × (P.seal key nonce plain ≡ some (ciphertext, tag))
      × (body ≡ nonce ++ (ciphertext ++ tag))

-- A frame that another end of the connection writes with `write_encrypt_frame_into`: its prefix, and a
-- body that decrypts to the data.
module _ (P : Primitives) (L : IsLawful P) (key : Bytes) where
  pub Opens-length : (body plain : Bytes) → Opens P key body plain → length body ≡ length plain + 28
  Opens-length body plain (nonce, ciphertext, tag, hn, sealed, e) =
      let lens = L.length-seal key nonce plain ciphertext tag sealed in
      rw e (omega (arith, length-append nonce (ciphertext ++ tag), length-append ciphertext tag))

  written_output :
      (plain : Bytes) (w : Wire) {w' : Wire} {n : ℕ} {out : Bytes}
      → write_encrypt_frame_into P key plain w ≡ (ok tt, w')
      → encrypt_into P plain
          (take (12 + length plain + 16) (drop 4 (grown (4 + (12 + length plain + 16)) w.pool)))
          key
          (P.random w.draws 12)
        ≡ ok (n, out)
      → w'.output ≡ w.output ++ (to_be_bytes (as_u32 (12 + length plain + 16)) ++ out)
  unfolding write_encrypt_frame_into write_all
  written_output plain w h e = ground arith

  -- The write adds one such frame to the output, if the network takes it.
  pub write_encrypt_frame-Opens :
      (plain : Bytes) (w w' : Wire)
      → write_encrypt_frame_into P key plain w ≡ (ok tt, w')
      → (body : Bytes) × Opens P key body plain × (w'.output ≡ w.output ++ framed body)
  unfolding write_encrypt_frame_into
  write_encrypt_frame-Opens plain w w' h =
      let buffer =
        take (12 + length plain + 16) (drop 4 (grown (4 + (12 + length plain + 16)) w.pool)) in
      elim (Outcome-cases (encrypt_into P plain buffer key (P.random w.draws 12))) [
        | inl ((n, out), e) ↦
            let (parts, sealed, _, hw, _) =
              encrypt_into-eq-ok P L plain buffer key (P.random w.draws 12) e in
            let o : Opens P key out plain =
              (P.random w.draws 12, parts.0, parts.1, L.length-random w.draws 12, sealed, hw) in
            let hl : 12 + length plain + 16 ≡ length out =
              omega (arith, Opens-length out plain o) in
            (out, o, rw (← hl) (written_output plain w h e))
        | inr (inl (f, e)) ↦ absurd (ground arith)
        | inr (inr (inl e)) ↦ absurd (ground arith)
        | inr (inr (inr e)) ↦ absurd (ground arith)
      ]

  -- The two steps of `read_body` that look at the body.
  read_opened :
      (plain body rest : Bytes) (w : Wire) (pool : Bytes)
      → Opens P key body plain
      → w.input ≡ body ++ rest
      → read_exact (length plain + 28) (record w { pool = pool })
        ≡ (ok body, record w { input = rest; pool = pool })
  read_opened plain body rest w pool o e =
      rw (← Opens-length body plain o) (read_exact-append body rest (record w { pool = pool }) e)

  decrypt_opened :
      (plain body buffer : Bytes)
      → Opens P key body plain
      → length buffer ≡ length plain
      → decrypt_into P body buffer key ≡ ok (length plain, plain)
  decrypt_opened plain body buffer (nonce, ciphertext, tag, hn, sealed, e) room = rw e (
      decrypt_into_sealed P L plain buffer key nonce ciphertext tag hn sealed (omega arith)
      ∙ rw (drop-of_length (length plain) buffer (omega arith), append-nil plain))

  read_body-Opens :
      (plain body rest : Bytes) (w : Wire)
      → Opens P key body plain
      → w.input ≡ body ++ rest
      → (w' : Wire) × (read_body P key (length plain + 28) w ≡ (ok plain, w')) × (w'.input ≡ rest)
  unfolding read_body
  read_body-Opens plain body rest w o e =
      let n = length plain + 28 in
      let m = n - 12 - 16 in
      let pool = grown (n + m) w.pool in
      let buffer = take m (drop n pool) in
      (
        record w { input = rest; pool = body ++ (plain ++ drop (n + m) pool) },
        ground (
          arith,
          ltb_of_le (length plain + 28) 28 (omega arith),
          ltb_of_le (length pool) (n + m) (length-grown (n + m) w.pool),
          read_opened plain body rest w pool o e,
          decrypt_opened plain body buffer o (
              omega (
                arith,
                length-take m (drop n pool),
                length-drop n pool,
                length-grown (n + m) w.pool,
              )),
        ),
        refl,
      )

  -- A frame of at most 16 MiB that was sealed under the same key is read as the data.
  pub read_encrypt_data-Opens :
      (plain body rest : Bytes) (w : Wire)
      → Opens P key body plain
      → length plain + 28 ≤ max_frame_length
      → w.input ≡ framed body ++ rest
      → (w' : Wire) × (read_encrypt_data_into P key w ≡ (ok plain, w')) × (w'.input ≡ rest)
  unfolding read_encrypt_data_into
  read_encrypt_data-Opens plain body rest w o hi e =
      let (w', done, left) =
        read_body-Opens plain body rest (record w { input = body ++ rest }) o refl in
      let prefix : w.input ≡ to_be_bytes (as_u32 (length plain + 28)) ++ (body ++ rest) =
        e ∙ rw (Opens-length body plain o) in
      (
        w',
        >>=-ok read_frame_length (open_frame P key)
              (read_frame_length_lem (length plain + 28) (body ++ rest) w prefix (omega arith) hi)
            ∙ rw (ltb_of_le (length plain + 28) 28 (omega arith)) done,
        left,
      )
