-- ===== src/Server/Connection/Isolation.antt =====
-- Whose files a command can change.
use rdrive.Base.{
  ℕ, ◌≡◌, ◌≢◌, refl, ◌∙◌, inl, inr, append_assoc, Bool-cases, eq_of_bytes_eq, false, Option, none,
  some, [], ◌∷◌, ◌++◌, arith, Bytes, String, bytes_eq, codes,
}
use rdrive.Base.Outcome.{Outcome, ok, err, panic, pending}
use rdrive.Run.{Run}
use rdrive.Run.Keeps.{Keeps, Keeps-bind, Keeps-if, Keeps-fail_if, Keeps-or_fail}
use rdrive.Crypto.{Primitives}
use rdrive.Disk.{FilePath, path_eq}
use rdrive.Disk.Laws.{path_eq-append}
use rdrive.Disk.Contents.{file_at}
use rdrive.RateLimit.{IpAddr}
use rdrive.Header.{
  Command, echo, auth, upload, download, status, Invalid, validate_upload, validate_download,
}
use rdrive.Server.{Site, Server}
use rdrive.Server.Reply.{send_status}
use rdrive.Server.Echo.{handle_echo_perf}
use rdrive.Server.Files.{user_dir_path, file_path, meta_path}
use rdrive.Server.Files.Isolation.{
  Holds, Keeps-gets, Keeps-reading, Keeps-on_wire, refuse-Keeps, handle_upload-Keeps,
  handle_download-Keeps,
}
use rdrive.Server.Connection.{dispatch, serve, allowed, validated}

module _ (P : Primitives) (C : Site) (key client_key : Bytes) where
  -- A path that a command does not write.
  abbrev pub IsUnwritten : FilePath → Command → Type 0
  IsUnwritten q (upload h) =
      (path_eq (file_path P C key client_key h.file_key h.file_id) q ≡ false)
      × (path_eq (meta_path P C key client_key h.file_key h.file_id) q ≡ false)
  IsUnwritten q (auth flags) = ⊥
  IsUnwritten q c = Unit {0}

  validated-Keeps :
      (q : FilePath) (c : Option Bytes) (what : String) (r : Outcome Invalid (Unit {0}))
      (m : Run Server (Unit {0}))
      → Keeps (Holds q c) m
      → Keeps (Holds q c) (validated P C key what r m)
  validated-Keeps q c what (ok _) m k = k
  validated-Keeps q c what (err e) m k = record { at = λ s h. h }
  validated-Keeps q c what panic m k = record { at = λ s h. h }
  validated-Keeps q c what pending m k = record { at = λ s h. h }

  dispatch-Keeps :
      (q : FilePath) (c : Option Bytes) (fuel : ℕ) (command : Command)
      → IsUnwritten q command
      → Keeps (Holds q c) (dispatch P C fuel key client_key command)
  unfolding dispatch send_status
  dispatch-Keeps q c fuel echo h =
      Keeps-if C.enable_echo _ _ (Keeps-on_wire q c (handle_echo_perf P C key fuel))
        (refuse-Keeps P C key client_key q c 403 "ECHO command is disabled on this server")
  dispatch-Keeps q c fuel (auth flags) h = absurd h
  dispatch-Keeps q c fuel (upload u) (h, h') =
      validated-Keeps q c "Invalid upload header: " (validate_upload C.max_file_size u) _
        (handle_upload-Keeps P C key client_key q c u h h')
  dispatch-Keeps q c fuel (download d) h =
      validated-Keeps q c "Invalid download header: " (validate_download d) _
        (handle_download-Keeps P C key client_key q c d)
  dispatch-Keeps q c fuel status h =
      search (Keeps-bind, Keeps-reading, Keeps-gets, Keeps-fail_if, Keeps-or_fail, Keeps-on_wire)
        depth 20

  allowed-Keeps :
      (q : FilePath) (c : Option Bytes) (ip : Option IpAddr) (command : Command)
      → Keeps (Holds q c) (allowed P C ip command)
  unfolding allowed
  allowed-Keeps q c none command = record { at = λ s h. h }
  allowed-Keeps q c (some ip) command = record { at = λ s h. h }

  -- However a command other than `auth` ends, it changes no file but the two that its upload names.
  pub serve_unwritten :
      (q : FilePath) (fuel : ℕ) (ip : Option IpAddr) (c : Command) (s : Server)
      → IsUnwritten q c
      → file_at q (serve P C fuel ip key client_key c s).1.disk ≡ file_at q s.disk
  unfolding serve
  serve_unwritten q fuel ip c s h =
      let k : Keeps (Holds q (file_at q s.disk)) (serve P C fuel ip key client_key c) =
        Keeps-bind _ _ (allowed-Keeps q (file_at q s.disk) ip c) (λ fine.
          Keeps-if fine _ _ (dispatch-Keeps q (file_at q s.disk) fuel c h) (
            refuse-Keeps P C key client_key q (file_at q s.disk) 429
              "Rate limit exceeded, try again later")) in
      k.at s refl

  foreign_path :
      (owner file_key file_key' name name' : Bytes)
      → bytes_eq (P.hex (P.sha512 client_key)) (P.hex (P.sha512 owner)) ≡ false
      → path_eq
          (user_dir_path P C key client_key file_key ++ (name ∷ []))
          (user_dir_path P C key owner file_key' ++ (name' ∷ []))
        ≡ false
  foreign_path owner file_key file_key' name name' h =
      let mine : FilePath = P.hex (P.sha512 client_key) ∷ P.hex (P.sha256 file_key) ∷ [] in
      let theirs : FilePath = P.hex (P.sha512 owner) ∷ P.hex (P.sha256 file_key') ∷ [] in
      rw
        (
          append_assoc C.storage_path mine (name ∷ []),
          append_assoc C.storage_path theirs (name' ∷ []),
        )
        (path_eq-append C.storage_path (mine ++ (name ∷ [])) (theirs ++ (name' ∷ []))
          ∙ ground (arith, h))

  foreign-IsUnwritten :
      (owner file_key name : Bytes) (c : Command)
      → ((flags : ℕ) → c ≢ auth flags)
      → bytes_eq (P.hex (P.sha512 client_key)) (P.hex (P.sha512 owner)) ≡ false
      → IsUnwritten (user_dir_path P C key owner file_key ++ (name ∷ [])) c
  foreign-IsUnwritten owner file_key name echo no_auth h = tt
  foreign-IsUnwritten owner file_key name (auth flags) no_auth h = no_auth flags refl
  foreign-IsUnwritten owner file_key name (upload u) no_auth h = (
    foreign_path owner u.file_key file_key (P.hex (P.sha256 u.file_id) ++ codes ".file") name h,
    foreign_path owner u.file_key file_key (P.hex (P.sha256 u.file_id) ++ codes ".meta") name h,
  )
  foreign-IsUnwritten owner file_key name (download d) no_auth h = tt
  foreign-IsUnwritten owner file_key name status no_auth h = tt

  -- However a command other than `auth` ends, it leaves every file of another client as it was, content and
  -- metadata, where the two clients' keys have different hashes.
  pub serve_isolated :
      (owner file_key file_id : Bytes) (fuel : ℕ) (ip : Option IpAddr) (c : Command) (s : Server)
      → ((flags : ℕ) → c ≢ auth flags)
      → P.hex (P.sha512 client_key) ≢ P.hex (P.sha512 owner)
      → (file_at
            (file_path P C key owner file_key file_id)
            (serve P C fuel ip key client_key c s).1.disk
          ≡ file_at (file_path P C key owner file_key file_id) s.disk)
        × (file_at
              (meta_path P C key owner file_key file_id)
              (serve P C fuel ip key client_key c s).1.disk
            ≡ file_at (meta_path P C key owner file_key file_id) s.disk)
  serve_isolated owner file_key file_id fuel ip c s no_auth differ =
      let h : bytes_eq (P.hex (P.sha512 client_key)) (P.hex (P.sha512 owner)) ≡ false =
        elim (Bool-cases (bytes_eq (P.hex (P.sha512 client_key)) (P.hex (P.sha512 owner)))) [
          | inl same ↦ absurd (differ (eq_of_bytes_eq _ _ same))
          | inr other ↦ other
        ] in
      (
        serve_unwritten (file_path P C key owner file_key file_id) fuel ip c s (
            foreign-IsUnwritten owner file_key (P.hex (P.sha256 file_id) ++ codes ".file") c no_auth
              h),
        serve_unwritten (meta_path P C key owner file_key file_id) fuel ip c s (
            foreign-IsUnwritten owner file_key (P.hex (P.sha256 file_id) ++ codes ".meta") c no_auth
              h),
      )
