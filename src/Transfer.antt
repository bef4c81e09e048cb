-- ===== src/Transfer.antt =====
-- The chunk loops of src/protocol_v1.rs: a file's content is sent as encrypted chunks without a length
-- prefix, by `upload_client` and `handle_download`, and received by `handle_upload` and
-- `download_client`. `size` is `READ_CHUNK_SIZE`.
pub mod Stream
pub mod Exchange
pub mod Length
pub mod Delivered
pub mod Tests
use rdrive.Base.{
  ℕ, zero, suc, ◌+◌, ◌-◌, ◌*◌, min, List, [], ◌∷◌, ◌++◌, Bytes, length, take, replicate, ltb, true,
  false,
}
use rdrive.Fault.{Fault, chunk_timeout}
use rdrive.Run.{Run, ◌>>=◌, ◌>>◌, pure, lift}
use rdrive.Crypto.{Primitives, nonce_len, tag_len, overhead, encrypt_into, decrypt_into}
use rdrive.Wire.{Wire, read_exact, write_all, timeout, draw}

abbrev pub read_chunk_size : ℕ
read_chunk_size = 64 * 1024

module _ (P : Primitives) (session_key : Bytes) where
  -- The loop over `buf_file.read(&mut plan_buf)`: the list holds what each read returns before the
  -- first empty one. `enc_buf` is one buffer for all rounds.
  unfoldable pub send_chunks : Bytes → List Bytes → Run Wire (Unit {0})
  send_chunks enc_buf [] = pure tt
  send_chunks enc_buf (chunk ∷ chunks) = do
    nonce ← draw P nonce_len
    (enc_len, enc_buf') ← lift (encrypt_into P chunk enc_buf session_key nonce)
    timeout chunk_timeout (write_all (take enc_len enc_buf'))
    send_chunks enc_buf' chunks

  -- The body of `while received < file_size`: it reads and decrypts one chunk and writes it to the file.
  -- `next` goes on from the new count, the decryption buffer and the file's content.
  unfoldable pub receive_chunk :
      ℕ → ℕ → ℕ → Bytes → Bytes → (ℕ → Bytes → Bytes → Run Wire Bytes) → Run Wire Bytes
  receive_chunk size file_size received dec_buf file next = do
    let plain_text = min size (file_size - received)
    let cipher_text = nonce_len + plain_text + tag_len
    enc ← timeout chunk_timeout (read_exact cipher_text)
    (dec_len, dec_buf') ← lift (decrypt_into P enc dec_buf session_key)
    next (received + dec_len) dec_buf' (file ++ take dec_len dec_buf')

  -- The loop, on fuel.
  unfoldable pub receive_chunks : ℕ → ℕ → ℕ → ℕ → Bytes → Bytes → Run Wire Bytes
  receive_chunks zero size file_size received dec_buf file = pure file
  receive_chunks (suc fuel) size file_size received dec_buf file = elim (ltb received file_size) [
    | true ↦ receive_chunk size file_size received dec_buf file (receive_chunks fuel size file_size)
    | false ↦ pure file
  ]
