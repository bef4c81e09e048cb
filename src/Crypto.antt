-- ===== src/Crypto.antt =====
-- src/crypto.rs over buffers as byte lists. The ciphers, hashes, signatures and the random source are
-- third-party crates: they are the fields of `Primitives`, and the documented behaviour that the code
-- relies on is `IsLawful`.
mod Interface
pub mod Buffers
pub mod Opening
pub mod Toy
mod Tests
pub use Interface.{Primitives, IsLawful}
use rdrive.Base.{
  ℕ, ◌+◌, ◌-◌, ◌≡◌, Bool, true, false, Option, none, some, ◌++◌, Bytes, length, take, drop, ltb,
  ◌==◌, if◌then◌else◌,
}
use rdrive.Base.Outcome.{Outcome, ok, err, panic, ◌>>=◌, ◌>>◌}
use rdrive.Fault.{
  Fault, ciphertext_too_short, buffer_too_small, cipher_failed, bad_signature_bytes, bad_public_key,
  signature_rejected,
}

abbrev pub nonce_len : ℕ
nonce_len = 12

abbrev pub tag_len : ℕ
tag_len = 16

-- The bytes that encryption adds: a nonce in front and a tag behind.
abbrev pub overhead : ℕ
overhead = 28

-- `bail!` and `ok_or` on a pure result.
abbrev pub fail_if : Bool → Fault → Outcome Fault (Unit {0})
fail_if true e = err e
fail_if false e = ok tt

abbrev pub or_fail : {A : Type 0} → Option A → Fault → Outcome Fault A
or_fail none e = err e
or_fail (some a) e = ok a

-- `copy_from_slice` panics unless both slices have the same length.
abbrev copy_from_slice : ℕ → Bytes → Outcome Fault Bytes
copy_from_slice room source = if length source == room then ok source else panic

module _ (P : Primitives) where
  -- `encrypt_data`, with the nonce that it draws.
  unfoldable pub encrypt_data : Bytes → Bytes → Bytes → Outcome Fault Bytes
  encrypt_data plain key nonce = do
    sealed ← or_fail (P.seal key nonce plain) cipher_failed
    ok (nonce ++ (sealed.0 ++ sealed.1))

  unfoldable pub decrypt_data : Bytes → Bytes → Outcome Fault Bytes
  decrypt_data input key = do
    fail_if (ltb (length input) (nonce_len + tag_len)) ciphertext_too_short
    let nonce = take nonce_len input
    let ciphertext = drop nonce_len input
    let body = length ciphertext - tag_len
    or_fail (P.unseal key nonce (take body ciphertext) (drop body ciphertext)) cipher_failed

  -- `encrypt_into`: the number of bytes written, and the output buffer after the call. The tag goes
  -- into all that is left behind the plaintext's place, by `copy_from_slice`.
  unfoldable pub encrypt_into : Bytes → Bytes → Bytes → Bytes → Outcome Fault (ℕ × Bytes)
  encrypt_into input output key nonce = do
    let plaintext_len = length input
    fail_if (ltb (length output) (nonce_len + plaintext_len + tag_len)) buffer_too_small
    let data_tag = drop nonce_len output
    let tag_buf = drop plaintext_len data_tag
    sealed ← or_fail (P.seal key nonce input) cipher_failed
    tag ← copy_from_slice (length tag_buf) sealed.1
    ok (nonce_len + plaintext_len + tag_len, nonce ++ (sealed.0 ++ tag))

  -- `decrypt_into`: the length of the plaintext, and the output buffer after the call.
  unfoldable pub decrypt_into : Bytes → Bytes → Bytes → Outcome Fault (ℕ × Bytes)
  decrypt_into input output key = do
    fail_if (ltb (length input) (nonce_len + tag_len)) ciphertext_too_short
    let ciphertext_len = length input - nonce_len - tag_len
    fail_if (ltb (length output) ciphertext_len) buffer_too_small
    let nonce = take nonce_len input
    let tag = drop (nonce_len + ciphertext_len) input
    let ciphertext = take ciphertext_len (drop nonce_len input)
    plain ← or_fail (P.unseal key nonce ciphertext tag) cipher_failed
    ok (ciphertext_len, plain ++ drop ciphertext_len output)

  -- `validate_signature`: the verifying key, as its bytes.
  unfoldable pub validate_signature : Bytes → Bytes → Bytes → Outcome Fault Bytes
  validate_signature public_bytes signature_bytes nonce = do
    fail_if (if length signature_bytes == 64 then false else true) bad_signature_bytes
    fail_if (if P.valid_key public_bytes then false else true) bad_public_key
    fail_if (if P.verify_strict public_bytes nonce signature_bytes then false else true)
        signature_rejected
    ok public_bytes

  -- `generate_ed25519_keypair` draws a private key and checks it on a fixed message.
  unfoldable pub generate_ed25519_keypair : Bytes → Bytes → Outcome Fault (Bytes × Bytes)
  generate_ed25519_keypair private_key message = do
    let public_key = P.public_of private_key
    fail_if (if P.verify public_key message (P.sign private_key message) then false else true)
        signature_rejected
    ok (private_key, public_key)
