-- ===== src/Crypto/Interface.antt =====
-- The third-party primitives, as functions on bytes: `aes_gcm`, `sha2`, `hex`, `ed25519_dalek`,
-- `x25519_dalek` and `rand`.
use rdrive.Base.{ℕ, ◌≡◌, Bool, true, Option, some, Bytes, length}

pub record Primitives : Type 0 where
  -- AES-256-GCM with empty associated data: key, nonce and plaintext to ciphertext and tag.
  pub seal : Bytes → Bytes → Bytes → Option (Bytes × Bytes)
  -- Key, nonce, ciphertext and tag to plaintext.
  pub unseal : Bytes → Bytes → Bytes → Bytes → Option Bytes
  pub sha256 : Bytes → Bytes
  pub sha512 : Bytes → Bytes
  -- `hex::encode` and `hex::decode`
  pub hex : Bytes → Bytes
  pub unhex : Bytes → Option Bytes
  -- Ed25519: the public key of a private key, the signature of a message, and its checks, by public
  -- key, message and signature.
  pub public_of : Bytes → Bytes
  pub sign : Bytes → Bytes → Bytes
  pub verify : Bytes → Bytes → Bytes → Bool
  pub verify_strict : Bytes → Bytes → Bytes → Bool
  -- Whether `VerifyingKey::try_from` accepts the bytes.
  pub valid_key : Bytes → Bool
  -- X25519: the public key of a secret, and the shared secret of a secret and a public key.
  pub dh_public : Bytes → Bytes
  pub diffie_hellman : Bytes → Bytes → Bytes
  -- The n bytes of the random source's i-th draw.
  pub random : ℕ → ℕ → Bytes

-- What the code relies on.
pub record IsLawful (P : Primitives) : Type 0 where
  -- What is sealed opens under the same key and nonce.
  pub unseal-seal :
      (key nonce plain ciphertext tag : Bytes)
      → P.seal key nonce plain ≡ some (ciphertext, tag)
      → P.unseal key nonce ciphertext tag ≡ some plain
  -- A ciphertext is as long as its plaintext, and a tag has 16 bytes.
  pub length-seal :
      (key nonce plain ciphertext tag : Bytes)
      → P.seal key nonce plain ≡ some (ciphertext, tag)
      → (length ciphertext ≡ length plain) × (length tag ≡ 16)
  pub length-unseal :
      (key nonce ciphertext tag plain : Bytes)
      → P.unseal key nonce ciphertext tag ≡ some plain
      → length plain ≡ length ciphertext
  pub length-random : (i n : ℕ) → length (P.random i n) ≡ n
  pub length-sha256 : (s : Bytes) → length (P.sha256 s) ≡ 32
  pub length-sha512 : (s : Bytes) → length (P.sha512 s) ≡ 64
  pub length-sign : (k m : Bytes) → length (P.sign k m) ≡ 64
  pub length-public_of : (k : Bytes) → length (P.public_of k) ≡ 32
  pub length-dh_public : (k : Bytes) → length (P.dh_public k) ≡ 32
  pub verify_strict-sign : (k m : Bytes) → P.verify_strict (P.public_of k) m (P.sign k m) ≡ true
  pub verify-sign : (k m : Bytes) → P.verify (P.public_of k) m (P.sign k m) ≡ true
  pub valid_key-public_of : (k : Bytes) → P.valid_key (P.public_of k) ≡ true
  pub dh_agree :
      (a b : Bytes) → P.diffie_hellman a (P.dh_public b) ≡ P.diffie_hellman b (P.dh_public a)
  pub unhex-hex : (s : Bytes) → P.unhex (P.hex s) ≡ some s
