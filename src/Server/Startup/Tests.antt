-- ===== src/Server/Startup/Tests.antt =====
-- A first start.
use rdrive.Base.{◌≡◌, refl, [], Bytes, take, replicate}
use rdrive.Base.Outcome.{ok}
use rdrive.Base.Text.{trim, trim_start}
use rdrive.Crypto.{generate_ed25519_keypair}
use rdrive.Crypto.Toy.{toy, toy-IsLawful, fit}
use rdrive.Disk.{parent, node_at, put, make_dirs, create_dir_all, write_file, read_file}
use rdrive.Server.{Server}
use rdrive.Server.Startup.{
  show_fingerprint, new_keys, ensure_keys, server_pub_key_bytes, server_pri_key_bytes,
}
use rdrive.Server.Startup.Keys.{ensure_keys-load_key}
use rdrive.Server.Toy.{site, wire_of, server_of}

started : Server
unfolding ensure_keys new_keys show_fingerprint generate_ed25519_keypair node_at put make_dirs
    create_dir_all write_file parent read_file trim trim_start fit take replicate
started = (ensure_keys toy site [] (server_of (wire_of []))).1

ensure_keys-load_key_example :
    (pri : Bytes) × (server_pri_key_bytes toy site [] started ≡ (ok pri, started))
    × (server_pub_key_bytes toy site [] started ≡ (ok (toy.public_of pri), started))
    × (ensure_keys toy site [] started ≡ (ok tt, started))
unfolding started
ensure_keys-load_key_example =
    ensure_keys-load_key toy toy-IsLawful site [] (server_of (wire_of [])) started refl (refl, refl)
      refl refl
