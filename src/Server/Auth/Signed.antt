-- ===== src/Server/Auth/Signed.antt =====
-- Who may change the spaces.
use rdrive.Base.{◌≡◌, false, arith, Bytes, take, drop}
use rdrive.Crypto.{Primitives, validate_signature}
use rdrive.Server.{Site, Server}
use rdrive.Server.Auth.{register, registered, rotate, rotated}

module _ (P : Primitives) (C : Site) (key : Bytes) where
  -- A registration whose signature does not verify changes nothing on the disk, whatever bytes it consists of.
  pub register-disk :
      (header : Bytes) (s : Server)
      → P.verify_strict (drop 64 (drop 64 header)) (take 64 header) (take 64 (drop 64 header))
        ≡ false
      → (register P C key header s).1.disk ≡ s.disk
  unfolding register registered validate_signature
  register-disk header s bad = ground arith

  -- A rotation that the old key has not signed changes nothing on the disk, whatever bytes it consists of.
  pub rotate-disk :
      (header : Bytes) (s : Server)
      → P.verify_strict
          (take 32 (drop 64 (drop 64 header)))
          (take 64 header)
          (take 64 (drop 64 header))
        ≡ false
      → (rotate P C key header s).1.disk ≡ s.disk
  unfolding rotate rotated validate_signature
  rotate-disk header s bad = ground arith
