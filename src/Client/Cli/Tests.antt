-- ===== src/Client/Cli/Tests.antt =====
-- A push under a known name, and a rotation at a small server.
use rdrive.Base.{
  ◌≡◌, refl, ◌⊎◌, some, true, [], ◌∷◌, ◌++◌, arith, Bytes, codes, take, drop, replicate,
}
use rdrive.Base.Outcome.{ok}
use rdrive.Base.Text.{trim, trim_start}
use rdrive.Crypto.{encrypt_into, decrypt_into, generate_ed25519_keypair}
use rdrive.Crypto.Toy.{toy, toy-IsLawful, fit, zero_tag, mix}
use rdrive.Wire.{Wire, read_exact, write_all, grown}
use rdrive.Wire.Frames.{
  framed, read_frame_length, read_raw_data_into, write_raw_frame_into, read_encrypt_data_into,
  write_encrypt_frame_into,
}
use rdrive.Disk.{parent, file, node_at, put, make_dirs, create_dir_all, write_file, read_file}
use rdrive.Disk.Contents.{file_at}
use rdrive.Catalog.{Catalog, get}
use rdrive.Catalog.Laws.{IsConsistent}
use rdrive.Server.{Site}
use rdrive.Server.Toy.{site, wire_of}
use rdrive.Server.Handshake.{server_hello, session_key, transcript}
use rdrive.Client.{Client, key_of, insert_key}
use rdrive.Client.Handshake.{
  approved_server_key, client_handshake, read_or_create, unknown_server, confirm, remember,
  write_map,
}
use rdrive.Client.Handshake.Agreement.{server_hello_to}
use rdrive.Client.Commands.{auth_client, request, check_flag, check_error, auth_packet}
use rdrive.Client.Toy.{user, keyed, server_wire}
use rdrive.Client.Cli.{
  Session, choose_id, private_key_path, public_key_path, generate_keypair, read_text, decode_key,
  existing_keys, decode_pair, save_keys, with_key, rotate_keys,
}
use rdrive.Client.Cli.Choice.{picked, choose_id-picked}
use rdrive.Client.Cli.Prepared.{IsPrepared}
use rdrive.Client.Cli.Rotation.{Synced, rotate_keys-Synced}
use rdrive.Client.Cli.Saved.{AreSaved, rotate_keys-AreSaved}

abbrev typing : Session
typing = record {
  typed_key = [];
  typed_id = [];
  typed_choice = codes " 1\n";
  new_id = codes "new";
  timestamp = [];
  current_dir = [];
}

abbrev pushed_once : Catalog
pushed_once = record {
  file_map = (codes "id", record { name = codes "n"; last_push = []; last_pull = [] }) ∷ [];
  file_index = (codes "n", codes "id" ∷ []) ∷ [];
}

consistent : IsConsistent pushed_once
unfolding get
consistent name ids e = ground (arith, e)

-- A client with keys of its own.
holder : Client
unfolding replicate
holder = record {
  wire = wire_of [];
  disk = record {
    nodes =
        (private_key_path toy site user, file (replicate 32 b'a'))
        ∷ (public_key_path toy site user, file (replicate 32 b'b'))
        ∷ [];
    fates = [];
  };
  answers = true ∷ [];
}

choose_id-picked_example :
    choose_id toy site user typing pushed_once (codes "n") holder
    ≡ (picked typing (get (codes "n") pushed_once.file_index), holder)
choose_id-picked_example =
    choose_id-picked toy site user typing pushed_once (codes "n") holder consistent

abbrev rotating_site : Site
rotating_site = record keyed {
  server_hello = record {
    serialize = λ h. some (6 ∷ []);
    deserialize = λ s. some (
        server_hello_to toy toy-IsLawful keyed user server_wire
          (record (wire_of []) { draws = 1 }));
  };
}

-- The server's hello, its challenge, the nonce and the reply.
replying : Client
unfolding holder replicate
replying = record holder {
  wire = wire_of (
      framed (6 ∷ [])
      ++ (framed (replicate 64 9)
          ++ (framed (replicate 12 0 ++ (replicate 64 8 ++ zero_tag))
              ++ framed (replicate 12 0 ++ (1 ∷ zero_tag)))));
}

rotated : Client
unfolding replying rotate_keys existing_keys node_at read_text read_file decode_pair decode_key trim
    trim_start generate_keypair generate_ed25519_keypair fit auth_client client_handshake
    write_raw_frame_into write_all read_raw_data_into read_frame_length drop approved_server_key
    replicate take holder save_keys auth_packet check_error check_flag request confirm
    read_or_create remember unknown_server write_map insert_key key_of mix decrypt_into encrypt_into
    create_dir_all make_dirs put write_file server_hello session_key transcript
    read_encrypt_data_into write_encrypt_frame_into grown read_exact
rotated = (rotate_keys toy rotating_site user replying).1

rotate_keys-AreSaved_example :
    (old : Bytes × Bytes) × (new : Bytes × Bytes) × (s₁ : Client) × (s₂ : Client) × IsPrepared toy
      rotating_site user old new replying s₁
    × (auth_client toy rotating_site (with_key toy rotating_site user old.0) new.1 (some old.1) s₁
        ≡ (ok tt, s₂))
    × AreSaved toy rotating_site user new rotated.disk
unfolding rotated rdrive.Wire.Frames.read_body parent
rotate_keys-AreSaved_example = rotate_keys-AreSaved toy rotating_site user replying rotated refl

rotate_keys-Synced_example :
    (file_at
        (private_key_path toy rotating_site user)
        (rotate_keys toy rotating_site user replying).1.disk
      ≡ file_at (private_key_path toy rotating_site user) replying.disk)
    ⊎ Synced toy rotating_site user replying
rotate_keys-Synced_example =
    rotate_keys-Synced toy rotating_site user (private_key_path toy rotating_site user)
      (file_at (private_key_path toy rotating_site user) replying.disk) refl replying refl
