-- ===== src/Client/Cli/Saved.antt =====
-- The key files after a rotation that succeeds.
use rdrive.Base.{
  ◌≡◌, refl, sym, ◌∙◌, ap, inl, inr, Bool, true, false, not, some, [], ◌∷◌, arith, Bytes, codes,
  Bool-cases,
}
use rdrive.Base.Outcome.{ok}
use rdrive.Fault.{disk_failed, no_keys}
use rdrive.Run.{Run, ◌>>=◌, ◌>>◌, fail_if, or_fail}
use rdrive.Run.Laws.{>>=-eq-ok}
use rdrive.Crypto.{Primitives}
use rdrive.Disk.{Disk, path_eq, create_dir_all, write_file}
use rdrive.Disk.Laws.{path_eq-append}
use rdrive.Disk.Contents.{file_at, file_at-write_file, file_at-write_file_done}
use rdrive.Server.{Site}
use rdrive.Client.{Profile, Client, on_disk}
use rdrive.Client.Commands.{auth_client}
use rdrive.Client.Cli.Prepared.{IsPrepared, prepared}
use rdrive.Client.Cli.{
  private_key_path, public_key_path, generate_keypair, existing_keys, decode_pair, save_keys,
  with_key, rotate_keys,
}

-- A step on the disk that is checked.
disk_step :
    {B : Type 0} (op : Disk → Bool × Disk) (k : Run Client B) (s s' : Client) (b : B)
    → (on_disk op >>= λ done. fail_if (not done) disk_failed >> k) s ≡ (ok b, s')
    → (s₁ : Client) × (op s.disk ≡ (true, s₁.disk)) × (k s₁ ≡ (ok b, s'))
disk_step op k s s' b h =
    let (done, s₁, e, k₁) =
      >>=-eq-ok (on_disk op) (λ done. fail_if (not done) disk_failed >> k) s h in
    elim (Bool-cases done) [
      | inl yes_done ↦ (
        s₁,
        ap (λ r. (elim r.0 [ ok x ↦ x | _ ↦ false ], r.1.disk)) e ∙ rw yes_done refl,
        rw yes_done at k₁,
      )
      | inr no_done ↦ absurd (ground (arith, (rw no_done at k₁)))
    ]

last_step :
    (op : Disk → Bool × Disk) (s s' : Client)
    → (on_disk op >>= λ done. fail_if (not done) disk_failed) s ≡ (ok tt, s')
    → op s.disk ≡ (true, s'.disk)
last_step op s s' h = elim (Bool-cases (op s.disk).0) [
  | inl granted ↦
      let moved : (op s.disk).1 ≡ s'.disk = ap (λ r. r.1.disk) (rw granted at h) in
      ground (arith, granted, moved)
  | inr denied ↦ absurd (ground (arith, (rw denied at h)))
]

module _ (P : Primitives) (C : Site) (U : Profile) where
  -- Both key files hold a pair.
  abbrev pub AreSaved : Bytes × Bytes → Disk → Type 0
  AreSaved keys d =
      (file_at (private_key_path P C U) d ≡ some (P.hex keys.0))
      × (file_at (public_key_path P C U) d ≡ some (P.hex keys.1))

  paths_differ : path_eq (public_key_path P C U) (private_key_path P C U) ≡ false
  paths_differ =
      path_eq-append U.user_key_dir (codes "public_ed25519.key" ∷ [])
        (codes "private_ed25519.key" ∷ [])

  save_keys-AreSaved :
      (keys : Bytes × Bytes) (s s' : Client)
      → save_keys P C U keys s ≡ (ok tt, s')
      → AreSaved keys s'.disk
  unfolding save_keys
  save_keys-AreSaved (pri, pub_) s s' run =
      let pri_path = private_key_path P C U in
      let pub_path = public_key_path P C U in
      let last = on_disk (write_file pub_path (P.hex pub_)) >>= λ w. fail_if (not w) disk_failed in
      let (s₁, _, run₁) =
        disk_step (create_dir_all U.user_key_dir)
          (on_disk (write_file pri_path (P.hex pri)) >>= λ w. fail_if (not w) disk_failed >> last) s
          s' tt run in
      let (s₂, wrote, run₂) = disk_step (write_file pri_path (P.hex pri)) last s₁ s' tt run₁ in
      let wrote' = last_step (write_file pub_path (P.hex pub_)) s₂ s' run₂ in
      let kept : file_at pri_path s'.disk ≡ file_at pri_path s₂.disk =
        ap (λ r. file_at pri_path r.1) (sym wrote')
        ∙ file_at-write_file pub_path pri_path (P.hex pub_) s₂.disk paths_differ in
      (
        kept ∙ file_at-write_file_done pri_path (P.hex pri) s₁.disk s₂.disk wrote,
        file_at-write_file_done pub_path (P.hex pub_) s₂.disk s'.disk wrote',
      )

  -- A rotation that succeeds leaves both key files with a new pair, whose private key is the next draw, and on the
  -- connection that it started with the server has confirmed the new public key under the old pair, which the files
  -- held when it started.
  pub rotate_keys-AreSaved :
      (s s' : Client)
      → rotate_keys P C U s ≡ (ok tt, s')
      → (old : Bytes × Bytes) × (new : Bytes × Bytes) × (s₁ : Client) × (s₂ : Client) × IsPrepared P
          C U old new s s₁
        × (auth_client P C (with_key P C U old.0) new.1 (some old.1) s₁ ≡ (ok tt, s₂))
        × AreSaved new s'.disk
  unfolding rotate_keys
  rotate_keys-AreSaved s s' run =
      let save_last = λ (old new : Bytes × Bytes).
        auth_client P C (with_key P C U old.0) new.1 (some old.1) >> save_keys P C U new in
      let renew = λ (old : Bytes × Bytes). generate_keypair P C U >>= save_last old in
      let from_files = λ (files : Bytes × Bytes). decode_pair P C U files >>= renew in
      let (existing, t₁, e₁, run₁) =
        >>=-eq-ok (existing_keys P C U) (λ existing. or_fail existing no_keys >>= from_files) s
          run in
      let (files, t₂, e₂, run₂) = >>=-eq-ok (or_fail existing no_keys) from_files t₁ run₁ in
      let (old, t₃, e₃, run₃) = >>=-eq-ok (decode_pair P C U files) renew t₂ run₂ in
      let (new, t₄, made, run₄) = >>=-eq-ok (generate_keypair P C U) (save_last old) t₃ run₃ in
      let (_, t₅, synced, run₅) =
        >>=-eq-ok (auth_client P C (with_key P C U old.0) new.1 (some old.1))
          (λ _. save_keys P C U new) t₄ run₄ in
      (
        old,
        new,
        t₄,
        t₅,
        prepared P C U existing files old new s t₁ t₂ t₃ t₄ e₁ e₂ e₃ made,
        synced,
        save_keys-AreSaved new t₅ s' run₅,
      )
