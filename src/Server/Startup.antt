-- ===== src/Server/Startup.antt =====
-- The start of the server: `Serve` of src/bin/server.rs with its key files, `serve_tcp` of src/service.rs up to
-- the accept loop, and the server's keys of src/lib.rs. Where the program exits, the step fails.
pub mod Keys
pub mod Tests
use rdrive.Base.{
  ℕ, not, ◌&&◌, Option, none, some, [], ◌∷◌, ◌++◌, Bytes, bytes_eq, codes, length, ◌==◌,
  if◌then◌else◌,
}
use rdrive.Base.Text.{trim}
use rdrive.Fault.{disk_failed, exited}
use rdrive.Run.{Run, ◌>>=◌, ◌>>◌, pure, gets, fail, fail_if, or_fail, lift}
use rdrive.Crypto.{Primitives, generate_ed25519_keypair}
use rdrive.Wire.{draw}
use rdrive.Disk.{FilePath, exists, create_dir_all, read_file, write_file}
use rdrive.Server.{Site, Server, on_wire, on_disk}

-- src/args.rs, `ServerCommands`
pub data ServerCommand : Type 0 where
  serve : (port : ℕ) (protocol : Bytes) → ServerCommand
  rotate : ServerCommand

-- The key files are in a directory of their own.
module _ (P : Primitives) (C : Site) (key_path : FilePath) where
  abbrev pub pri_key_path : FilePath
  pri_key_path = key_path ++ (codes "private_ed25519.key" ∷ [])

  abbrev pub pub_key_path : FilePath
  pub_key_path = key_path ++ (codes "public_ed25519.key" ∷ [])

  -- `println!` of the fingerprint reads the public key's file.
  unfoldable pub show_fingerprint : Run Server (Unit {0})
  show_fingerprint = do
    found ← on_disk (read_file pub_key_path)
    _ ← or_fail found disk_failed
    pure tt

  unfoldable pub new_keys : Run Server (Unit {0})
  new_keys = do
    private_key ← on_wire (draw P 32)
    keys ← lift (generate_ed25519_keypair P private_key (codes "ed25519 key gen-test"))
    made ← on_disk (create_dir_all key_path)
    fail_if (not made) disk_failed
    written ← on_disk (write_file pri_key_path (trim (P.hex keys.0)))
    fail_if (not written) disk_failed
    written' ← on_disk (write_file pub_key_path (trim (P.hex keys.1)))
    fail_if (not written') disk_failed
    show_fingerprint

  -- The server's keys, made anew unless both files are there.
  unfoldable pub ensure_keys : Run Server (Unit {0})
  ensure_keys = do
    disk ← gets (λ s. s.disk)
    if exists pri_key_path disk && exists pub_key_path disk then show_fingerprint else new_keys

  -- The common part of the two keys that the server looks up.
  unfoldable pub load_key : FilePath → Run Server Bytes
  load_key path = do
    found ← on_disk (read_file path)
    key_hex ← or_fail found exited
    bytes ← or_fail (P.unhex (trim key_hex)) exited
    fail_if (not (length bytes == 32)) exited
    pure bytes

  abbrev pub server_pub_key_bytes : Run Server Bytes
  server_pub_key_bytes = load_key pub_key_path

  abbrev pub server_pri_key_bytes : Run Server Bytes
  server_pri_key_bytes = load_key pri_key_path

  module _ (start_tcp_server : ℕ → Run Server (Unit {0})) where
    unfoldable pub serve_tcp : ℕ → Run Server (Unit {0})
    serve_tcp port = do
      made ← on_disk (create_dir_all C.storage_dir)
      fail_if (not made) disk_failed
      made' ← on_disk (create_dir_all C.authorized_client_dir)
      fail_if (not made') disk_failed
      start_tcp_server port

    -- `main`; without a command it prints a banner.
    unfoldable pub run_server : Option ServerCommand → Run Server (Unit {0})
    run_server none = pure tt
    run_server (some rotate) = fail exited
    run_server (some (serve port protocol)) =
        if bytes_eq protocol (codes "v1")
        then (ensure_keys >> serve_tcp port)
        else (if bytes_eq protocol (codes "v2") then serve_tcp port else fail exited)
