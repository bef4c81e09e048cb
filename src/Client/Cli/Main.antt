-- ===== src/Client/Cli/Main.antt =====
-- The commands of src/bin/client.rs, and `main`.
use rdrive.Base.{not, Option, none, some, Bytes, if◌then◌else◌}
use rdrive.Fault.{disk_failed, bad_path, exited}
use rdrive.Run.{Run, ◌>>=◌, ◌>>◌, pure, gets, panics, fail_if, or_fail}
use rdrive.Crypto.{Primitives}
use rdrive.Disk.{FilePath, exists}
use rdrive.Header.{Codec}
use rdrive.Catalog.{Catalog, read_or_create, update_on_push, update_on_pull}
use rdrive.Server.{Site}
use rdrive.Client.{Profile, Client, on_disk}
use rdrive.Client.Commands.{file_name, upload_client, download_client, get_server_status}
use rdrive.Client.Perf.Dialing.{Conditions, client_echo_perf}
use rdrive.Client.Cli.{
  ClientCommand, key, perf, push, pull, backup, status, ls, serve, listen, Session, catalog_path,
  with_key, key_command, load_signing_key, prompt, choose_id, require_keys, refuse_half,
  by_protocol, given,
}

module _ (P : Primitives) (C : Site) (U : Profile) (J : Codec Catalog) (u : Session) where
  unfoldable pub open_catalog : Run Client Catalog
  open_catalog = do
    found ← on_disk (read_or_create J (catalog_path P C U) U.user_key_dir)
    or_fail found disk_failed

  unfoldable pub push_command : FilePath → Bytes → Option Bytes → Run Client (Unit {0})
  push_command file protocol file_key = do
    require_keys P C U
    signing_key ← load_signing_key P C U
    disk ← gets (λ s. s.disk)
    fail_if (not (exists file disk)) exited
    secret ← given P C U file_key u.typed_key
    name ← or_fail (file_name P C U file) bad_path
    catalog ← open_catalog
    file_id ← choose_id P C U u catalog name
    by_protocol P C U protocol
        (upload_client P C (with_key P C U signing_key) file secret file_id >>= λ _. pure tt)
    saved ← on_disk (λ d.
        let (done, _, d') =
          update_on_push J (catalog_path P C U) u.timestamp name file_id (catalog, d) in
        (done, d'))
    fail_if (not saved) disk_failed

  -- `if catalog_path.exists()`
  unfoldable pub note_pull : Bytes → Run Client (Unit {0})
  note_pull file_id = do
    disk ← gets (λ s. s.disk)
    if not (exists (catalog_path P C U) disk) then pure tt else (do
      catalog ← open_catalog
      saved ← on_disk (λ d.
          let (done, _, d') =
            update_on_pull J (catalog_path P C U) u.timestamp file_id (catalog, d) in
          (done, d'))
      fail_if (not saved) disk_failed)

  -- Both the id and the key are given, or both are asked for.
  unfoldable pub wanted : Option Bytes → Option Bytes → Run Client (Bytes × Bytes)
  wanted (some id) (some secret) = pure (id, secret)
  wanted _ _ = do id ← prompt P C U u.typed_id; secret ← prompt P C U u.typed_key; pure (id, secret)

  unfoldable pub pull_command :
      FilePath → Bytes → Option Bytes → Option Bytes → Run Client (Unit {0})
  pull_command dir protocol file_id file_key = do
    refuse_half P C U
    signing_key ← load_signing_key P C U
    file ← wanted file_id file_key
    by_protocol P C U protocol (do
      _ ← download_client P C (with_key P C U signing_key) dir file.0 file.1
      note_pull file.0)

  unfoldable pub status_command : Bytes → Run Client (Unit {0})
  status_command protocol = do
    refuse_half P C U
    signing_key ← load_signing_key P C U
    by_protocol P C U protocol (get_server_status P C (with_key P C U signing_key) >>= λ _. pure tt)

  -- The sample's duration shows in how the lists of the conditions end; the number of workers is not used.
  unfoldable pub perf_command : Conditions → Run Client (Unit {0})
  perf_command conditions = do
    require_keys P C U
    signing_key ← load_signing_key P C U
    client_echo_perf P C (with_key P C U signing_key) conditions >>= λ _. pure tt

  -- `main`
  unfoldable pub run_command : Conditions → ClientCommand → Run Client (Unit {0})
  run_command conditions (key _ auth rot) = key_command P C U auth rot
  run_command conditions (perf _ n sample) = perf_command conditions
  run_command conditions (push file _ protocol file_key) = push_command file protocol file_key
  run_command conditions (pull dir _ protocol file_id file_key) =
      pull_command (elim dir [ none ↦ u.current_dir | some d ↦ d ]) protocol file_id file_key
  run_command conditions (backup _ _ _) = panics
  run_command conditions (status _ protocol) = status_command protocol
  run_command conditions ls = open_catalog >>= λ _. pure tt
  run_command conditions (serve _ _) = panics
  run_command conditions (listen _ _ _) = panics
