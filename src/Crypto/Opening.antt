-- ===== src/Crypto/Opening.antt =====
-- What a successful decryption into a buffer leaves there.
use rdrive.Base.{
  ℕ, ◌+◌, ◌-◌, ◌≤◌, ◌≡◌, inl, inr, ◌++◌, arith, Bytes, length, take, drop, length-take, length-drop,
  take-append, Option-cases,
}
use rdrive.Base.Outcome.{ok}
use rdrive.Crypto.Interface.{Primitives, IsLawful}
use rdrive.Crypto.{decrypt_into}

module _ (P : Primitives) (L : IsLawful P) where
  -- The length of the plaintext, all of which stands at the buffer's front.
  pub decrypt_into-eq-ok :
      (input output key : Bytes) {n : ℕ} {out : Bytes}
      → decrypt_into P input output key ≡ ok (n, out)
      → (n + 28 ≡ length input) × (length (take n out) ≡ n)
  unfolding decrypt_into
  decrypt_into-eq-ok input output key {n} {out} h =
      let len = length input - 12 - 16 in
      let nonce = take 12 input in
      let tag = drop (12 + len) input in
      let ciphertext = take len (drop 12 input) in
      elim (Option-cases (P.unseal key nonce ciphertext tag)) [
        | inl e ↦ absurd (ground arith)
        | inr (plain, e) ↦
            let whole : length plain ≡ length ciphertext =
              L.length-unseal key nonce ciphertext tag plain e in
            let enough : 28 ≤ length input = ground arith in
            let hn : n ≡ len = ground arith in
            let ho : out ≡ plain ++ drop len output = ground arith in
            let cut : length plain ≡ len =
              omega (arith, whole, length-take len (drop 12 input), length-drop 12 input) in
            (
              omega (arith, hn, enough),
              rw (hn, ho, take-append len plain (drop len output) cut) cut,
            )
      ]
