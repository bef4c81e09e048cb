-- ===== src/Server/Startup/Keys.antt =====
-- The pair of keys that a server starts with.
use rdrive.Base.{
  ◌≡◌, refl, sym, ◌∙◌, ap, true, false, not, ◌+◌, ◌&&◌, some, [], ◌∷◌, arith, Bytes, codes, length,
  ◌==◌,
}
use rdrive.Base.Text.{trim}
use rdrive.Base.Outcome.{ok}
use rdrive.Fault.{disk_failed}
use rdrive.Run.{◌>>=◌, ◌>>◌, pure, fail_if}
use rdrive.Crypto.{Primitives, IsLawful, generate_ed25519_keypair}
use rdrive.Disk.{FilePath, path_eq, exists, create_dir_all, read_file, write_file}
use rdrive.Disk.Laws.{path_eq-append}
use rdrive.Disk.Contents.{
  exists-of_file, file_at, file_at-read_file, file_at-write_file, file_at-write_file_done,
  read_file-of_file,
}
use rdrive.Server.{Site, Server, on_disk}
use rdrive.Server.Steps.{or_fail_step, disk_step}
use rdrive.Server.Startup.{
  pri_key_path, pub_key_path, show_fingerprint, new_keys, ensure_keys, load_key,
  server_pub_key_bytes, server_pri_key_bytes,
}

module _ (P : Primitives) (L : IsLawful P) (C : Site) (key_path : FilePath) where
  -- A key of 32 bytes whose file is there is loaded.
  load_key-of_file :
      (path : FilePath) (key : Bytes) (s : Server)
      → s.disk.fates ≡ []
      → file_at path s.disk ≡ some (P.hex key)
      → trim (P.hex key) ≡ P.hex key
      → length key ≡ 32
      → load_key P C key_path path s ≡ (ok key, s)
  unfolding load_key
  load_key-of_file path key s quiet there tight size =
      let long : (length key == 32) ≡ true = ground arith in
      rw (read_file-of_file path (P.hex key) s.disk quiet there, tight, L.unhex-hex key, long) refl

  paths_differ : path_eq (pub_key_path P C key_path) (pri_key_path P C key_path) ≡ false
  paths_differ =
      path_eq-append key_path (codes "public_ed25519.key" ∷ []) (codes "private_ed25519.key" ∷ [])

  show_fingerprint-file_at :
      (q : FilePath) (s s' : Server)
      → show_fingerprint P C key_path s ≡ (ok tt, s')
      → file_at q s'.disk ≡ file_at q s.disk
  unfolding show_fingerprint
  show_fingerprint-file_at q s s' run =
      let pub_path = pub_key_path P C key_path in
      let (_, _, last) =
        or_fail_step (read_file pub_path s.disk).0 disk_failed (λ _. pure tt)
          (record s { disk = (read_file pub_path s.disk).1 }) s' tt run in
      ap (λ r. file_at q r.1.disk) (sym last) ∙ file_at-read_file pub_path q s.disk

  -- A start with both files leaves them, and everything else, as they are.
  ensure_keys_again :
      (a b : Bytes) (s : Server)
      → s.disk.fates ≡ []
      → file_at (pri_key_path P C key_path) s.disk ≡ some a
      → file_at (pub_key_path P C key_path) s.disk ≡ some b
      → ensure_keys P C key_path s ≡ (ok tt, s)
  unfolding ensure_keys show_fingerprint
  ensure_keys_again a b s quiet pri_there pub_there =
      rw
        (
          exists-of_file (pri_key_path P C key_path) a s.disk pri_there,
          exists-of_file (pub_key_path P C key_path) b s.disk pub_there,
          read_file-of_file (pub_key_path P C key_path) b s.disk quiet pub_there,
        )
        refl

  -- Where the server had not both key files, both keys that it loads after a start whose later reads do not fail
  -- belong together, and another start changes nothing, if hexadecimal text has no white space.
  pub ensure_keys-load_key :
      (s s' : Server)
      → (exists (pri_key_path P C key_path) s.disk && exists (pub_key_path P C key_path) s.disk)
        ≡ false
      → (trim (P.hex (P.random s.wire.draws 32)) ≡ P.hex (P.random s.wire.draws 32))
        × (trim (P.hex (P.public_of (P.random s.wire.draws 32)))
            ≡ P.hex (P.public_of (P.random s.wire.draws 32)))
      → ensure_keys P C key_path s ≡ (ok tt, s')
      → s'.disk.fates ≡ []
      → (pri : Bytes) × (server_pri_key_bytes P C key_path s' ≡ (ok pri, s'))
        × (server_pub_key_bytes P C key_path s' ≡ (ok (P.public_of pri), s'))
        × (ensure_keys P C key_path s' ≡ (ok tt, s'))
  unfolding ensure_keys new_keys generate_ed25519_keypair
  ensure_keys-load_key s s' missing (tight, tight') run quiet =
      let pri = P.random s.wire.draws 32 in
      let pri_path = pri_key_path P C key_path in
      let pub_path = pub_key_path P C key_path in
      let drawn = record s { wire = record s.wire { draws = s.wire.draws + 1 } } in
      let show = show_fingerprint P C key_path in
      let second = on_disk (write_file pub_path (trim (P.hex (P.public_of pri)))) >>= λ w.
      fail_if (not w) disk_failed >> show in
      let first = on_disk (write_file pri_path (trim (P.hex pri))) >>= λ w.
      fail_if (not w) disk_failed >> second in
      let run₁ : (on_disk (create_dir_all key_path) >>= λ made.
      fail_if (not made) disk_failed >> first)
            drawn
          ≡ (ok tt, s') =
        (rw (missing, L.verify-sign pri (codes "ed25519 key gen-test")) at run) in
      let (s₁, _, _, run₂) = disk_step (create_dir_all key_path) first drawn s' tt run₁ in
      let (s₂, _, wrote, run₃) =
        disk_step (write_file pri_path (trim (P.hex pri))) second s₁ s' tt run₂ in
      let (s₃, _, wrote', run₄) =
        disk_step (write_file pub_path (trim (P.hex (P.public_of pri)))) show s₂ s' tt run₃ in
      let shown : (q : FilePath) → file_at q s'.disk ≡ file_at q s₃.disk =
        λ q. show_fingerprint-file_at q s₃ s' run₄ in
      let pri_there : file_at pri_path s'.disk ≡ some (P.hex pri) =
        shown pri_path
        ∙ (ap (λ r. file_at pri_path r.1) (sym wrote')
            ∙ file_at-write_file pub_path pri_path (trim (P.hex (P.public_of pri))) s₂.disk
                paths_differ)
        ∙ file_at-write_file_done pri_path (trim (P.hex pri)) s₁.disk s₂.disk wrote
        ∙ ap some tight in
      let pub_there : file_at pub_path s'.disk ≡ some (P.hex (P.public_of pri)) =
        shown pub_path
        ∙ file_at-write_file_done pub_path (trim (P.hex (P.public_of pri))) s₂.disk s₃.disk wrote'
        ∙ ap some tight' in
      (
        pri,
        load_key-of_file pri_path pri s' quiet pri_there tight (L.length-random s.wire.draws 32),
        load_key-of_file pub_path (P.public_of pri) s' quiet pub_there tight'
            (L.length-public_of pri),
        ensure_keys_again (P.hex pri) (P.hex (P.public_of pri)) s' quiet pri_there pub_there,
      )
