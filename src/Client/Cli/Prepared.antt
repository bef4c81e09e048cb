-- ===== src/Client/Cli/Prepared.antt =====
-- A rotation up to the point where it asks the server.
use rdrive.Base.{
  ◌+◌, not, ◌&&◌, ◌≡◌, refl, sym, ◌∙◌, ap, inl, inr, Option, none, some, arith, Bytes, codes,
  Bool-cases, Option-cases,
}
use rdrive.Base.Text.{trim}
use rdrive.Base.Outcome.{ok}
use rdrive.Fault.{no_keys, bad_public_key}
use rdrive.Run.{Run, ◌>>=◌, ◌>>◌, pure, fail_if, or_fail}
use rdrive.Run.Laws.{>>=-eq-ok}
use rdrive.Crypto.{Primitives, generate_ed25519_keypair}
use rdrive.Disk.{Disk, FilePath, exists, read_file}
use rdrive.Disk.Contents.{file_at, file_at-read_file, read_file-eq-some}
use rdrive.Wire.{Wire}
use rdrive.Server.{Site}
use rdrive.Client.{Profile, Client}
use rdrive.Client.Cli.{
  private_key_path, public_key_path, read_text, decode_key, generate_keypair, existing_keys,
  decode_pair,
}

-- The same files, and the same connection.
abbrev IsLike : Client → Client → Type 0
IsLike s t = (t.wire ≡ s.wire) × ((q : FilePath) → file_at q t.disk ≡ file_at q s.disk)

module _ (P : Primitives) (C : Site) (U : Profile) where
  -- The two key files hold a pair as hexadecimal text.
  abbrev pub AreHeld : Bytes × Bytes → Disk → Type 0
  AreHeld keys d =
      (pri_hex : Bytes) × (pub_hex : Bytes) × (file_at (private_key_path P C U) d ≡ some pri_hex)
      × (file_at (public_key_path P C U) d ≡ some pub_hex)
      × (P.unhex (trim pri_hex) ≡ some keys.0)
      × (P.unhex (trim pub_hex) ≡ some keys.1)

  -- The old pair stands in the files, the new one was drawn, and neither the files nor the connection have changed.
  abbrev pub IsPrepared : Bytes × Bytes → Bytes × Bytes → Client → Client → Type 0
  IsPrepared old new s t =
      AreHeld old s.disk
      × (new.0 ≡ P.random s.wire.draws 32)
      × (new.1 ≡ P.public_of new.0)
      × (t.wire ≡ record s.wire { draws = s.wire.draws + 1 })
      × ((q : FilePath) → file_at q t.disk ≡ file_at q s.disk)

  read_text-eq-ok :
      (p : FilePath) (s t : Client) (a : Bytes)
      → read_text P C U p s ≡ (ok a, t)
      → (file_at p s.disk ≡ some a) × IsLike s t
  unfolding read_text
  read_text-eq-ok p s t a h = elim (Option-cases (read_file p s.disk).0) [
    | inl e ↦ absurd (ground (arith, e, h))
    | inr (c, e) ↦
        let same : c ≡ a = ground (arith, e, h) in
        let end : record s { disk = (read_file p s.disk).1 } ≡ t = ap (λ r. r.1) (rw e at h) in
        (
          read_file-eq-some p s.disk c e ∙ ap some same,
          (
            ap (λ x. x.wire) (sym end),
            λ q. ap (λ x. file_at q x.disk) (sym end) ∙ file_at-read_file p q s.disk,
          ),
        )
  ]

  decode_key-eq-ok :
      (hex k : Bytes) (s t : Client)
      → decode_key P C U hex s ≡ (ok k, t)
      → (P.unhex (trim hex) ≡ some k) × (t ≡ s)
  unfolding decode_key
  decode_key-eq-ok hex k s t h = elim (Option-cases (P.unhex (trim hex))) [
    | inl e ↦ absurd (ground (arith, e, h))
    | inr (c, e) ↦ ground (arith, e, h)
  ]

  existing_keys-eq-ok :
      (files : Bytes × Bytes) (s t : Client)
      → existing_keys P C U s ≡ (ok (some files), t)
      → (file_at (private_key_path P C U) s.disk ≡ some files.0)
        × (file_at (public_key_path P C U) s.disk ≡ some files.1)
        × IsLike s t
  unfolding existing_keys
  existing_keys-eq-ok files s t h =
      elim (Bool-cases
        (exists (private_key_path P C U) s.disk && exists (public_key_path P C U) s.disk)) [
          | inr e ↦ absurd (ground (arith, (rw e at h)))
          | inl e ↦
              let both = λ (pri : Bytes).
                read_text P C U (public_key_path P C U) >>= λ pub_. pure (some (pri, pub_)) in
              let (pri, s₁, e₁, h₁) =
                >>=-eq-ok (read_text P C U (private_key_path P C U)) both s (rw e at h) in
              let (pub_, s₂, e₂, h₂) =
                >>=-eq-ok (read_text P C U (public_key_path P C U)) (λ p. pure (some (pri, p))) s₁
                  h₁ in
              let (a, (w, k)) = read_text-eq-ok (private_key_path P C U) s s₁ pri e₁ in
              let (b, (w', k')) = read_text-eq-ok (public_key_path P C U) s₁ s₂ pub_ e₂ in
              let end : s₂ ≡ t = ap (λ r. r.1) h₂ in
              let same : ◌≡◌ {A = Option (Bytes × Bytes)} (some (pri, pub_)) (some files) =
                ground (arith, h₂) in
              let first : pri ≡ files.0 = ground (arith, same) in
              let second : pub_ ≡ files.1 = ground (arith, same) in
              (
                a ∙ ap some first,
                sym (k (public_key_path P C U)) ∙ b ∙ ap some second,
                (
                  ap (λ x. x.wire) (sym end) ∙ w' ∙ w,
                  λ q. ap (λ x. file_at q x.disk) (sym end) ∙ k' q ∙ k q,
                ),
              )
        ]

  decode_pair-eq-ok :
      (files keys : Bytes × Bytes) (s t : Client)
      → decode_pair P C U files s ≡ (ok keys, t)
      → (P.unhex (trim files.0) ≡ some keys.0) × (P.unhex (trim files.1) ≡ some keys.1) × (t ≡ s)
  unfolding decode_pair
  decode_pair-eq-ok (pri_hex, pub_hex) keys s t h =
      let last : Bytes → Bytes → Run Client (Bytes × Bytes) =
        λ pri pub_. fail_if (not (P.valid_key pub_)) bad_public_key >> pure (pri, pub_) in
      let (pri, s₁, e₁, h₁) =
        >>=-eq-ok (decode_key P C U pri_hex) (λ pri. decode_key P C U pub_hex >>= last pri) s h in
      let (pub_, s₂, e₂, h₂) = >>=-eq-ok (decode_key P C U pub_hex) (last pri) s₁ h₁ in
      let (a, w) = decode_key-eq-ok pri_hex pri s s₁ e₁ in
      let (b, w') = decode_key-eq-ok pub_hex pub_ s₁ s₂ e₂ in
      elim (Bool-cases (P.valid_key pub_)) [
        | inr bad ↦ absurd (ground (arith, bad, h₂))
        | inl good ↦
            let end : last pri pub_ s₂ ≡ (ok (pri, pub_), s₂) = rw good refl in
            let all = sym end ∙ h₂ in
            let state : s₂ ≡ t = ap (λ r. r.1) all in
            let same : ◌≡◌ {A = Option (Bytes × Bytes)} (some (pri, pub_)) (some keys) =
              ap (λ r. elim r.0 [ ok x ↦ some x | _ ↦ none ]) all in
            let first : pri ≡ keys.0 = ground (arith, same) in
            let second : pub_ ≡ keys.1 = ground (arith, same) in
            (a ∙ ap some first, b ∙ ap some second, sym state ∙ w' ∙ w)
      ]

  generate_keypair-eq-ok :
      (new : Bytes × Bytes) (s t : Client)
      → generate_keypair P C U s ≡ (ok new, t)
      → (new.0 ≡ P.random s.wire.draws 32)
        × (new.1 ≡ P.public_of new.0)
        × (t ≡ record s { wire = record s.wire { draws = s.wire.draws + 1 } })
  unfolding generate_keypair generate_ed25519_keypair
  generate_keypair-eq-ok new s t h =
      let pri = P.random s.wire.draws 32 in
      let message = codes "ed25519 key gen-test" in
      elim (Bool-cases (P.verify (P.public_of pri) message (P.sign pri message))) [
        | inr bad ↦ absurd (ground (arith, (rw bad at h)))
        | inl good ↦
            let h' = rw good at h in
            let same : ◌≡◌ {A = Option (Bytes × Bytes)} (some (pri, P.public_of pri)) (some new) =
              ap (λ r. elim r.0 [ ok x ↦ some x | _ ↦ none ]) h' in
            let first : pri ≡ new.0 = ground (arith, same) in
            let second : P.public_of pri ≡ new.1 = ground (arith, same) in
            (sym first, sym second ∙ ap P.public_of first, sym (ap (λ r. r.1) h'))
      ]

  -- The steps of a rotation before it asks the server.
  pub prepared :
      (existing : Option (Bytes × Bytes)) (files old new : Bytes × Bytes) (s t₁ t₂ t₃ t₄ : Client)
      → existing_keys P C U s ≡ (ok existing, t₁)
      → or_fail existing no_keys t₁ ≡ (ok files, t₂)
      → decode_pair P C U files t₂ ≡ (ok old, t₃)
      → generate_keypair P C U t₃ ≡ (ok new, t₄)
      → IsPrepared old new s t₄
  prepared none files old new s t₁ t₂ t₃ t₄ e₁ e₂ e₃ e₄ = absurd (ground (arith, e₂))
  prepared (some found) files old new s t₁ t₂ t₃ t₄ e₁ e₂ e₃ e₄ =
      let same : found ≡ files = ap (λ r. elim r.0 [ ok x ↦ x | _ ↦ found ]) e₂ in
      let kept : t₁ ≡ t₂ = ap (λ r. r.1) e₂ in
      let (a, b, (wire, held)) = existing_keys-eq-ok found s t₁ e₁ in
      let (c, d, still) = decode_pair-eq-ok files old t₂ t₃ e₃ in
      let (drawn, pair, last) = generate_keypair-eq-ok new t₃ t₄ e₄ in
      let back : t₃ ≡ t₁ = still ∙ sym kept in
      let wire₃ : t₃.wire ≡ s.wire = ap (λ x. x.wire) back ∙ wire in
      (
        (files.0, files.1, a ∙ ap (λ f. some f.0) same, b ∙ ap (λ f. some f.1) same, c, d),
        drawn ∙ ap (λ x. P.random x.draws 32) wire₃,
        pair,
        ap (λ x. x.wire) last ∙ ap (λ (x : Wire). record x { draws = x.draws + 1 }) wire₃,
        λ q. ap (λ x. file_at q x.disk) last ∙ ap (λ x. file_at q x.disk) back ∙ held q,
      )
