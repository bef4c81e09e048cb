-- ===== src/Client/Cli.antt =====
-- src/bin/client.rs, `main` behind its arguments' parser. What the user types at a prompt, the new file id
-- and the time of day are arguments. Printing is left out.
pub mod Main
pub mod Choice
pub mod Kept
pub mod Prepared
pub mod Rotation
pub mod Saved
pub mod Tests
use rdrive.Base.{
  ℕ, zero, suc, ◌-◌, Bool, true, not, ◌&&◌, Option, none, some, List, [], ◌∷◌, ◌++◌, Bytes,
  bytes_eq, codes, is_empty, length, leb, ◌==◌, if◌then◌else◌,
}
use rdrive.Base.Text.{trim, parse_usize}
use rdrive.Fault.{disk_failed, bad_key_file, bad_public_key, bad_input, exited, no_keys, not_in_map}
use rdrive.Run.{Run, ◌>>=◌, ◌>>◌, pure, gets, fail, panics, fail_if, or_fail, lift}
use rdrive.Crypto.{Primitives, generate_ed25519_keypair}
use rdrive.Wire.{draw}
use rdrive.Disk.{FilePath, exists, create_dir_all, read_file, write_file}
use rdrive.Catalog.{Catalog, Table, FileHistory, get}
use rdrive.Server.{Site}
use rdrive.Client.{Profile, Client, on_wire, on_disk}
use rdrive.Client.Commands.{auth_client}

-- `address` and `port`: the connection to them is the client's wire.
pub record Remote : Type 0 where
  pub address : Bytes
  pub port : ℕ

-- src/args.rs, `ClientCommands`
pub data ClientCommand : Type 0 where
  key : (remote : Remote) (auth : Bool) (rot : Bool) → ClientCommand
  perf : (remote : Remote) (n : ℕ) (sample : ℕ) → ClientCommand
  push :
      (file : FilePath) (remote : Remote) (protocol : Bytes) (file_key : Option Bytes)
      → ClientCommand
  pull :
      (dir : Option FilePath) (remote : Remote) (protocol : Bytes) (file_id : Option Bytes)
      (file_key : Option Bytes)
      → ClientCommand
  backup : (file_id : Bytes) (file_key : Option Bytes) (remote : Remote) → ClientCommand
  status : (remote : Remote) (protocol : Bytes) → ClientCommand
  ls : ClientCommand
  serve : (file : FilePath) (remote : Remote) → ClientCommand
  listen : (dir : Option FilePath) (code : Bytes) (remote : Remote) → ClientCommand

-- What the user types at the prompts, a new `Uuid`, `Local::now()`, and the current directory.
pub record Session : Type 0 where
  pub typed_key : Bytes
  pub typed_id : Bytes
  pub typed_choice : Bytes
  pub new_id : Bytes
  pub timestamp : Bytes
  pub current_dir : FilePath

-- `tracked[n]`, if it is there.
abbrev pub nth : ℕ → List Bytes → Option Bytes
nth n [] = none
nth zero (x ∷ xs) = some x
nth (suc n) (x ∷ xs) = nth n xs

module _ (P : Primitives) (C : Site) (U : Profile) where
  abbrev pub private_key_path : FilePath
  private_key_path = U.user_key_dir ++ (codes "private_ed25519.key" ∷ [])

  abbrev pub public_key_path : FilePath
  public_key_path = U.user_key_dir ++ (codes "public_ed25519.key" ∷ [])

  abbrev pub catalog_path : FilePath
  catalog_path = U.user_key_dir ++ (codes "catalog.map" ∷ [])

  -- `generate_ed25519_keypair()`
  unfoldable pub generate_keypair : Run Client (Bytes × Bytes)
  generate_keypair = do
    private_key ← on_wire (draw P 32)
    lift (generate_ed25519_keypair P private_key (codes "ed25519 key gen-test"))

  unfoldable pub read_text : FilePath → Run Client Bytes
  read_text path = do found ← on_disk (read_file path); or_fail found disk_failed

  -- `decode(hex.trim())?.try_into()`
  unfoldable pub decode_key : Bytes → Run Client Bytes
  decode_key hex = do
    bytes ← or_fail (P.unhex (trim hex)) bad_key_file
    fail_if (not (length bytes == 32)) bad_key_file
    pure bytes

  unfoldable pub existing_keys : Run Client (Option (Bytes × Bytes))
  existing_keys = do
    disk ← gets (λ s. s.disk)
    if exists private_key_path disk && exists public_key_path disk
        then (do
          pri ← read_text private_key_path
          pub_ ← read_text public_key_path
          pure (some (pri, pub_)))
        else pure none

  -- Both keys of a pair of files: the private key, and the public key where it is one.
  unfoldable pub decode_pair : Bytes × Bytes → Run Client (Bytes × Bytes)
  decode_pair (pri_hex, pub_hex) = do
    private_key ← decode_key pri_hex
    public_key ← decode_key pub_hex
    fail_if (not (P.valid_key public_key)) bad_public_key
    pure (private_key, public_key)

  unfoldable pub save_keys : Bytes × Bytes → Run Client (Unit {0})
  save_keys (private_key, public_key) = do
    made ← on_disk (create_dir_all U.user_key_dir)
    fail_if (not made) disk_failed
    written ← on_disk (write_file private_key_path (P.hex private_key))
    fail_if (not written) disk_failed
    written' ← on_disk (write_file public_key_path (P.hex public_key))
    fail_if (not written') disk_failed

  -- The user with this private key.
  abbrev pub with_key : Bytes → Profile
  with_key private_key = record U { signing_key = private_key }

  -- `Key { rot: true }`
  unfoldable pub rotate_keys : Run Client (Unit {0})
  rotate_keys = do
    existing ← existing_keys
    files ← or_fail existing no_keys
    old ← decode_pair files
    new ← generate_keypair
    auth_client P C (with_key old.0) new.1 (some old.1)
    save_keys new

  -- The keys that are there, or new ones.
  unfoldable pub own_keys : Option (Bytes × Bytes) → Run Client (Bytes × Bytes)
  own_keys (some files) = decode_pair files
  own_keys none = do new ← generate_keypair; save_keys new; pure new

  unfoldable pub key_command : Bool → Bool → Run Client (Unit {0})
  key_command auth rot = if rot then rotate_keys else (do
    existing ← existing_keys
    own ← own_keys existing
    if auth then auth_client P C (with_key own.0) own.1 none else pure tt)

  unfoldable pub load_signing_key : Run Client Bytes
  load_signing_key = do hex ← read_text private_key_path; decode_key hex

  -- A prompt whose answer may not be empty.
  unfoldable pub prompt : Bytes → Run Client Bytes
  prompt typed = if is_empty (trim typed) then fail exited else pure (trim typed)

  -- The ids under one name are listed with their histories.
  unfoldable pub list_ids : Table FileHistory → List Bytes → Run Client (Unit {0})
  list_ids file_map [] = pure tt
  list_ids file_map (uuid ∷ ids) = do
    _ ← or_fail (get uuid file_map) not_in_map
    list_ids file_map ids

  -- The id that a file is pushed under.
  unfoldable pub choose_id : Session → Catalog → Bytes → Run Client Bytes
  choose_id u catalog name = elim (get name catalog.file_index) [
    | none ↦ pure u.new_id
    | some tracked ↦ (do
      list_ids catalog.file_map tracked
      n ← or_fail (parse_usize (trim u.typed_choice)) bad_input
      if n == 0
          then pure u.new_id
          else (if leb n (length tracked)
              then elim (nth (n - 1) tracked) [ some id ↦ pure id | none ↦ panics ]
              else fail exited))
  ]

  -- The keys of a user who pushes: one of the two files is there.
  unfoldable pub require_keys : Run Client (Unit {0})
  require_keys = do
    disk ← gets (λ s. s.disk)
    fail_if (not (exists private_key_path disk) && not (exists public_key_path disk)) exited

  -- The same where a user pulls or asks for the status: `!private.exists() && public.exists()`.
  unfoldable pub refuse_half : Run Client (Unit {0})
  refuse_half = do
    disk ← gets (λ s. s.disk)
    fail_if (not (exists private_key_path disk) && exists public_key_path disk) exited

  -- `match protocol.as_str()`; `v2` is `todo!()`.
  unfoldable pub by_protocol : Bytes → Run Client (Unit {0}) → Run Client (Unit {0})
  by_protocol protocol v1 =
      if bytes_eq protocol (codes "v1")
      then v1
      else (if bytes_eq protocol (codes "v2") then panics else fail exited)

  unfoldable pub given : Option Bytes → Bytes → Run Client Bytes
  given (some s) typed = pure s
  given none typed = prompt typed
