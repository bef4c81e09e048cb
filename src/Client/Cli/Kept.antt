-- ===== src/Client/Cli/Kept.antt =====
-- The files that registering a key leaves as they were.
use rdrive.Base.{
  ℕ, ◌≡◌, refl, ◌∙◌, ap, Bool, false, not, ◌&&◌, Option, none, some, [], ◌∷◌, arith, Bytes, codes,
  bytes_eq, length, ◌==◌,
}
use rdrive.Base.Outcome.{Outcome, ok, err, panic, pending}
use rdrive.Fault.{
  Fault, bad_key_file, bad_public_key, handshake_failed, deserialize_failed, refused,
}
use rdrive.Run.{Run, gets, fail, lift}
use rdrive.Run.Keeps.{
  Keeps, Keeps-bind, Keeps-pure, Keeps-or_fail, Keeps-if, Keeps-fail_if, Keeps-panic_if,
}
use rdrive.Crypto.{Primitives, generate_ed25519_keypair}
use rdrive.Wire.{Wire, draw, map_err, renamed}
use rdrive.Wire.Frames.{read_encrypt_data_into, write_encrypt_frame_into}
use rdrive.Disk.{FilePath, path_eq, exists, create_dir_all, write_file, read_file}
use rdrive.Disk.Contents.{file_at, file_at-create_dir_all, file_at-read_file, file_at-write_file}
use rdrive.Header.{Command}
use rdrive.Server.{Site}
use rdrive.Client.{Profile, Client, ServerMap, key_of, on_wire, on_disk, ask}
use rdrive.Client.Handshake.{
  read_or_create, write_map, remember, confirm, known_server, unknown_server, approved_server_key,
  client_handshake,
}
use rdrive.Client.Commands.{request, check_error, check_flag, auth_packet, auth_client, split_flag}
use rdrive.Client.Cli.{
  private_key_path, public_key_path, generate_keypair, read_text, decode_key, existing_keys,
  decode_pair,
}

renamed_state : {S A : Type 0} (e : Fault) (r : Outcome Fault A × S) → (renamed e r).1 ≡ r.1
renamed_state e (ok a, s) = refl
renamed_state e (err f, s) = refl
renamed_state e (panic, s) = refl
renamed_state e (pending, s) = refl

abbrev pub Holds : FilePath → Option Bytes → Client → Type 0
Holds q c s = file_at q s.disk ≡ c

module _ {A : Type 0} (q : FilePath) (c : Option Bytes) where
  Keeps-on_wire : (m : Run Wire A) → Keeps (Holds q c) (on_wire m)
  Keeps-on_wire m = record { at = λ s h. h }

  Keeps-gets : (f : Client → A) → Keeps (Holds q c) (gets f)
  Keeps-gets f = record { at = λ s h. h }

  Keeps-lift : (r : Outcome Fault A) → Keeps (Holds q c) (lift r)
  Keeps-lift r = record { at = λ s h. h }

  Keeps-fail : (e : Fault) → Keeps (Holds q c) (fail {A = A} e)
  Keeps-fail e = record { at = λ s h. h }

module _ (q : FilePath) (c : Option Bytes) where
  Keeps-create_dir_all : (p : FilePath) → Keeps (Holds q c) (on_disk (create_dir_all p))
  Keeps-create_dir_all p = record { at = λ s h. file_at-create_dir_all p q s.disk ∙ h }

  Keeps-read_file : (p : FilePath) → Keeps (Holds q c) (on_disk (read_file p))
  Keeps-read_file p = record { at = λ s h. file_at-read_file p q s.disk ∙ h }

  Keeps-write_file :
      (p : FilePath) (s : Bytes)
      → path_eq p q ≡ false
      → Keeps (Holds q c) (on_disk (write_file p s))
  Keeps-write_file p b e = record { at = λ s h. file_at-write_file p q b s.disk e ∙ h }

  Keeps-ask : Keeps (Holds q c) ask
  Keeps-ask = record { at = λ s h. ground (arith, h) }

ruleset keeps = (
  Keeps-bind, Keeps-pure, Keeps-or_fail, Keeps-if, Keeps-fail_if, Keeps-panic_if, Keeps-on_wire,
  Keeps-gets, Keeps-fail, Keeps-create_dir_all, Keeps-read_file, Keeps-write_file, Keeps-ask,
)

module _ (P : Primitives) (C : Site) (U : Profile) (q : FilePath) (c : Option Bytes) where
  read_text-Keeps : (p : FilePath) → Keeps (Holds q c) (read_text P C U p)
  unfolding read_text
  read_text-Keeps p = search keeps

  decode_key-Keeps : (hex : Bytes) → Keeps (Holds q c) (decode_key P C U hex)
  unfolding decode_key
  decode_key-Keeps hex = search keeps depth 10

  pub existing_keys-Keeps : Keeps (Holds q c) (existing_keys P C U)
  unfolding existing_keys
  existing_keys-Keeps = Keeps-bind _ _ (Keeps-gets q c (λ s. s.disk)) (λ disk.
      Keeps-if (exists (private_key_path P C U) disk && exists (public_key_path P C U) disk) _ _
        (Keeps-bind _ _ (read_text-Keeps (private_key_path P C U)) (λ pri.
          Keeps-bind _ _ (read_text-Keeps (public_key_path P C U))
            (λ pub_. Keeps-pure (some (pri, pub_)))))
        (Keeps-pure none))

  pub decode_pair-Keeps : (files : Bytes × Bytes) → Keeps (Holds q c) (decode_pair P C U files)
  unfolding decode_pair
  decode_pair-Keeps (pri, pub_) = search (keeps, decode_key-Keeps) depth 16

  pub generate_keypair-Keeps : Keeps (Holds q c) (generate_keypair P C U)
  unfolding generate_keypair
  generate_keypair-Keeps =
      Keeps-bind _ _ (Keeps-on_wire q c (draw P 32))
        (λ k. Keeps-lift q c (generate_ed25519_keypair P k (codes "ed25519 key gen-test")))

module _ (P : Primitives) (C : Site) (U : Profile) (q : FilePath) (c : Option Bytes)
    (apart : path_eq U.server_map_path q ≡ false) where
  write_map-Keeps : (m : ServerMap) → Keeps (Holds q c) (write_map P C U m)
  unfolding write_map
  write_map-Keeps m = search keeps

  remember-Keeps : (key : Bytes) (m : ServerMap) → Keeps (Holds q c) (remember P C U key m)
  unfolding remember
  remember-Keeps key m = Keeps-bind _ _ (write_map-Keeps _) (λ _. Keeps-pure _)

  read_or_create-Keeps : Keeps (Holds q c) (read_or_create P C U)
  unfolding read_or_create
  read_or_create-Keeps = search keeps depth 16

  confirm-Keeps : Keeps (Holds q c) (confirm P C U)
  unfolding confirm
  confirm-Keeps = search keeps depth 16

  known_server-Keeps :
      (key existing : Bytes) (m : ServerMap) → Keeps (Holds q c) (known_server P C U key m existing)
  unfolding known_server
  known_server-Keeps key existing m =
      Keeps-if (not (bytes_eq existing (P.hex key))) _ _
        (Keeps-bind _ _ confirm-Keeps (λ _.
          Keeps-bind _ _ (remember-Keeps (P.hex (P.sha256 (P.hex key))) m) (λ _. Keeps-pure key)))
        (Keeps-bind _ _ (Keeps-or_fail (P.unhex existing) bad_key_file) (λ k.
          Keeps-bind _ _
            (Keeps-bind _ _ (Keeps-fail_if (not (length k == 32)) bad_key_file)
              (λ _. Keeps-fail_if (not (P.valid_key k)) bad_public_key))
            (λ _. Keeps-pure k)))

  unknown_server-Keeps :
      (key : Bytes) (m : ServerMap) → Keeps (Holds q c) (unknown_server P C U key m)
  unfolding unknown_server
  unknown_server-Keeps key m = search (keeps, confirm-Keeps, remember-Keeps) depth 16

  decided-Keeps :
      (key : Bytes) (m : ServerMap) (o : Option Bytes)
      → Keeps (Holds q c) (elim o [
        | some existing ↦ known_server P C U key m existing
        | none ↦ unknown_server P C U key m
      ])
  decided-Keeps key m none = unknown_server-Keeps key m
  decided-Keeps key m (some existing) = known_server-Keeps key existing m

  approved_server_key-Keeps :
      (trust : Bool) (key : Bytes) → Keeps (Holds q c) (approved_server_key P C U trust key)
  unfolding approved_server_key
  approved_server_key-Keeps trust key = Keeps-bind _ _ read_or_create-Keeps (λ stored.
      Keeps-bind _ _ (Keeps-fail_if (not (P.valid_key key)) bad_public_key) (λ _.
        Keeps-bind _ _ (Keeps-if trust _ _ (remember-Keeps (P.hex key) stored) (Keeps-pure stored))
          (λ m. decided-Keeps key m (key_of U.server_ip m))))

  client_handshake-Keeps : (trust : Bool) → Keeps (Holds q c) (client_handshake P C U trust)
  unfolding client_handshake
  client_handshake-Keeps trust = search (keeps, approved_server_key-Keeps) depth 30 fits 4000

  map_err-Keeps :
      {A : Type 0} (e : Fault) (m : Run Client A)
      → Keeps (Holds q c) m
      → Keeps (Holds q c) (map_err e m)
  map_err-Keeps e m k = record {
    at = λ s h. ap (λ t. file_at q t.disk) (renamed_state e (m s)) ∙ k.at s h;
  }

  request-Keeps : (key : Bytes) (command : Command) → Keeps (Holds q c) (request P C U key command)
  unfolding request
  request-Keeps key command = search keeps depth 16

  check_error-Keeps :
      (flag : ℕ) (payload : Bytes) → Keeps (Holds q c) (check_error P C U flag payload)
  unfolding check_error
  check_error-Keeps flag payload =
      Keeps-if (flag == 3) _ _
        (Keeps-bind _ _ (Keeps-or_fail (C.error_header.deserialize payload) deserialize_failed)
          (λ _. Keeps-fail q c refused))
        (Keeps-if (flag == 2) _ _
          (Keeps-bind _ _ (Keeps-or_fail (C.warn_header.deserialize payload) deserialize_failed)
            (λ _. Keeps-pure tt))
          (Keeps-pure tt))

  check_flag-Keeps :
      (flag : ℕ) (payload : Bytes) → Keeps (Holds q c) (check_flag P C U flag payload)
  unfolding check_flag
  check_flag-Keeps flag payload =
      Keeps-bind _ _ (check_error-Keeps flag payload) (λ _. Keeps-fail_if _ _)

  split_flag-Keeps : (rsp : Bytes) → Keeps (Holds q c) (split_flag P C U rsp (check_flag P C U))
  split_flag-Keeps [] = record { at = λ s h. h }
  split_flag-Keeps (flag ∷ payload) = check_flag-Keeps flag payload

  pub auth_client-Keeps :
      (public_key : Bytes) (old : Option Bytes)
      → Keeps (Holds q c) (auth_client P C U public_key old)
  unfolding auth_client
  auth_client-Keeps public_key old =
      Keeps-bind _ _ (map_err-Keeps handshake_failed _ (client_handshake-Keeps false)) (λ key.
        Keeps-bind _ _ (request-Keeps key _) (λ nonce.
          Keeps-bind _ _ (Keeps-panic_if (not (length nonce == 64))) (λ _.
            Keeps-bind _ _
              (Keeps-on_wire q c
                (write_encrypt_frame_into P key (auth_packet P C U old public_key nonce)))
              (λ _.
                Keeps-bind _ _ (Keeps-on_wire q c (read_encrypt_data_into P key))
                  (λ rsp. split_flag-Keeps rsp)))))
