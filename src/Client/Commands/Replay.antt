-- ===== src/Client/Commands/Replay.antt =====
-- What a registration is bound to.
use rdrive.Base.{
  ◌≡◌, refl, false, none, ◌++◌, arith, Bytes, length, length-append, take-append, drop-append, ltb,
  ltb_of_le,
}
use rdrive.Base.Outcome.{ok}
use rdrive.Crypto.{Primitives, IsLawful, validate_signature}
use rdrive.Server.{Site, Server}
use rdrive.Server.Auth.{register, registered, admit}
use rdrive.Client.{Profile}
use rdrive.Client.Commands.{auth_packet}

module _ (P : Primitives) (L : IsLawful P) (C : Site) (U : Profile) where
  own_signature_valid :
      (nonce : Bytes)
      → validate_signature P (P.public_of U.signing_key) (P.sign U.signing_key nonce) nonce
        ≡ ok (P.public_of U.signing_key)
  unfolding validate_signature
  own_signature_valid nonce = ground (
    arith,
    L.length-sign U.signing_key nonce,
    L.valid_key-public_of U.signing_key,
    L.verify_strict-sign U.signing_key nonce,
  )

  -- The packet with which a client answered one challenge of 64 bytes passes the check of a registration in any
  -- session and any state of the server, whatever challenge that session has sent: the server goes on to admit the
  -- client's key, which it may still refuse because of its whitelist or its disk.
  pub register-auth_packet :
      (key nonce : Bytes) (s : Server)
      → length nonce ≡ 64
      → register P C key (auth_packet P C U none (P.public_of U.signing_key) nonce) s
        ≡ admit P C key (P.public_of U.signing_key) s
  unfolding register registered auth_packet
  register-auth_packet key nonce s hn =
      let sig = P.sign U.signing_key nonce in
      let pk = P.public_of U.signing_key in
      let hs = L.length-sign U.signing_key nonce in
      let whole : ltb (length (nonce ++ (sig ++ pk))) 64 ≡ false =
        ltb_of_le _ 64 (omega (arith, length-append nonce (sig ++ pk))) in
      let rest : ltb (length (sig ++ pk)) 64 ≡ false =
        ltb_of_le _ 64 (omega (arith, length-append sig pk)) in
      rw
        (
          whole,
          drop-append 64 nonce (sig ++ pk) hn,
          take-append 64 nonce (sig ++ pk) hn,
          rest,
          take-append 64 sig pk hs,
          drop-append 64 sig pk hs,
          own_signature_valid nonce,
        )
        refl
