-- ===== src/Wire/Frames.antt =====
-- src/protocol_v1.rs, the frames: a length of four bytes, and behind it raw or encrypted data.
use rdrive.Base.{ℕ, ◌+◌, ◌-◌, ◌*◌, ◌^◌, ◌||◌, ◌++◌, Bytes, length, take, drop, ltb, ◌==◌}
use rdrive.Base.Word32.{as_u32, to_be_bytes, from_be_bytes}
use rdrive.Fault.{frame_timeout, read_error, invalid_frame_length, frame_too_short, too_large}
use rdrive.Run.{Run, ◌>>=◌, ◌>>◌, pure, gets, lift, fail_if, panic_if}
use rdrive.Crypto.{Primitives, nonce_len, tag_len, encrypt_into, decrypt_into}
use rdrive.Wire.{Wire, read_exact, write_all, timeout, map_err, draw, reserve, set_pool}

abbrev pub max_frame_length : ℕ
max_frame_length = 1024 * 1024 * 16

abbrev pub u32_max : ℕ
u32_max = 2 ^ 32 - 1

unfoldable pub read_frame_length : Run Wire ℕ
unfolding read_exact
read_frame_length = do
  len_buf ← timeout frame_timeout (map_err read_error (read_exact 4))
  let len = from_be_bytes len_buf
  fail_if (len == 0 || ltb max_frame_length len) invalid_frame_length
  pure len

-- The length prefix of a frame, and the frame.
abbrev pub framed : Bytes → Bytes
framed body = to_be_bytes (as_u32 (length body)) ++ body

unfoldable pub read_raw_data_into : Run Wire Bytes
read_raw_data_into = do len ← read_frame_length; read_exact len

unfoldable pub write_raw_frame_into : Bytes → Run Wire (Unit {0})
write_raw_frame_into data_bytes = do
  fail_if (ltb u32_max (length data_bytes)) too_large
  write_all (framed data_bytes)

module _ (P : Primitives) (session_key : Bytes) where
  -- `read_encrypt_data_into` behind its tests of the length: returns the decrypted slice of the pool. A length below
  -- that of nonce and tag underflows, and a pool that is too short cannot be split and sliced.
  unfoldable pub read_body : ℕ → Run Wire Bytes
  read_body ciphertext_len = do
    panic_if (ltb ciphertext_len (nonce_len + tag_len))
    let plaintext_len = ciphertext_len - nonce_len - tag_len
    let required_len = ciphertext_len + plaintext_len
    reserve required_len
    pool ← gets (λ w. w.pool)
    panic_if (ltb (length pool) required_len)
    encrypted ← read_exact ciphertext_len
    let decrypted_buf = take plaintext_len (drop ciphertext_len pool)
    out ← lift (decrypt_into P encrypted decrypted_buf session_key)
    set_pool (encrypted ++ (out.1 ++ drop required_len pool))
    pure out.1

  abbrev pub open_frame : ℕ → Run Wire Bytes
  open_frame ciphertext_len = do
    fail_if (ltb ciphertext_len (nonce_len + tag_len)) frame_too_short
    read_body ciphertext_len

  unfoldable pub read_encrypt_data_into : Run Wire Bytes
  read_encrypt_data_into = do ciphertext_len ← read_frame_length; open_frame ciphertext_len

  unfoldable pub write_encrypt_frame_into : Bytes → Run Wire (Unit {0})
  write_encrypt_frame_into data_bytes = do
    let plaintext_len = length data_bytes
    fail_if (ltb u32_max plaintext_len) too_large
    let ciphertext_len = nonce_len + plaintext_len + tag_len
    let total_frame_len = 4 + ciphertext_len
    reserve total_frame_len
    let len_bytes = to_be_bytes (as_u32 ciphertext_len)
    nonce ← draw P nonce_len
    pool ← gets (λ w. w.pool)
    out ← lift (encrypt_into P data_bytes (take ciphertext_len (drop 4 pool)) session_key nonce)
    set_pool (len_bytes ++ (out.1 ++ drop total_frame_len pool))
    write_all (len_bytes ++ out.1)
