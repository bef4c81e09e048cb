-- ===== src/Crypto/Tests.antt =====
-- The buffer ciphers at three bytes, in a buffer that fits and in one that is too large.
use rdrive.Base.{◌≡◌, refl, [], ◌∷◌, ◌++◌, Bytes, take, drop, replicate}
use rdrive.Base.Outcome.{ok, panic}
use rdrive.Crypto.{encrypt_into, decrypt_into}
use rdrive.Crypto.Toy.{toy, zero_tag}

abbrev plain : Bytes
plain = 1 ∷ 2 ∷ 3 ∷ []

nonce : Bytes
unfolding replicate
nonce = replicate 12 5

encrypted : encrypt_into toy plain (replicate 31 0) [] nonce ≡ ok (31, nonce ++ (plain ++ zero_tag))
unfolding encrypt_into nonce drop take
encrypted = refl

decrypted :
    decrypt_into toy (nonce ++ (plain ++ zero_tag)) (replicate 4 0) [] ≡ ok (3, 1 ∷ 2 ∷ 3 ∷ 0 ∷ [])
unfolding decrypt_into nonce drop take
decrypted = refl

too_large : encrypt_into toy plain (replicate 32 0) [] nonce ≡ panic
unfolding encrypt_into nonce drop take
too_large = refl
