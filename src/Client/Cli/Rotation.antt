-- ===== src/Client/Cli/Rotation.antt =====
-- What a rotation does to the client's files.
use rdrive.Base.{◌≡◌, refl, ◌∙◌, ap, ◌⊎◌, inl, inr, false, Option, some, Bytes}
use rdrive.Base.Outcome.{Outcome, ok, err, panic, pending}
use rdrive.Fault.{Fault, no_keys}
use rdrive.Run.{Run, after, or_fail, ◌>>=◌}
use rdrive.Run.Laws.{Run-cases}
use rdrive.Run.Keeps.{Keeps, Keeps-or_fail}
use rdrive.Crypto.{Primitives}
use rdrive.Disk.{FilePath, path_eq}
use rdrive.Disk.Contents.{file_at}
use rdrive.Server.{Site}
use rdrive.Client.{Profile, Client}
use rdrive.Client.Commands.{auth_client}
use rdrive.Client.Cli.Kept.{
  Holds, auth_client-Keeps, existing_keys-Keeps, decode_pair-Keeps, generate_keypair-Keeps,
}
use rdrive.Client.Cli.Prepared.{IsPrepared, prepared}
use rdrive.Client.Cli.{with_key, rotate_keys, existing_keys, decode_pair, generate_keypair}

-- A rotation from this state was confirmed: on its connection, for a new pair that it drew, under the old pair that
-- the key files held, and before any file but the map of servers was changed.
abbrev pub Synced : Primitives → Site → Profile → Client → Type 0
Synced P C U s =
    (old : Bytes × Bytes) × (new : Bytes × Bytes) × (s₁ : Client) × (s₂ : Client) × IsPrepared P C U
      old new s s₁
    × (auth_client P C (with_key P C U old.0) new.1 (some old.1) s₁ ≡ (ok tt, s₂))

kept :
    {A B : Type 0} (q : FilePath) (c : Option Bytes) (f : A → Run Client B)
    (r r' : Outcome Fault A × Client)
    → r ≡ r'
    → Holds q c r.1
    → (after f r').1 ≡ r'.1
    → Holds q c (after f r).1
kept q c f r r' e h same = rw e (ap (λ t. file_at q t.disk) same ∙ (rw e at h))

-- A file that the first step keeps stays, or the rest of the block comes in; there the first step has succeeded.
until :
    {A B : Type 0} {W : Type 0} (q : FilePath) (c : Option Bytes) (m : Run Client A)
    (f : A → Run Client B) (s : Client)
    → Keeps (Holds q c) m
    → ((a : A) (t : Client) → m s ≡ (ok a, t) → Holds q c t → Holds q c (f a t).1 ⊎ W)
    → Holds q c s
    → Holds q c ((m >>= f) s).1 ⊎ W
until q c m f s km kf h = elim (Run-cases (m s)) [
  | inl (a, t, e) ↦
      let there : Holds q c t = rw e at (km.at s h) in
      elim (kf a t e there) [
        | inl stays ↦ inl (ap (λ r. file_at q (after f r).1.disk) e ∙ stays)
        | inr w ↦ inr w
      ]
  | inr (inl (x, t, e)) ↦ inl (kept q c f (m s) (err x, t) e (km.at s h) refl)
  | inr (inr (inl (t, e))) ↦ inl (kept q c f (m s) (panic, t) e (km.at s h) refl)
  | inr (inr (inr (t, e))) ↦ inl (kept q c f (m s) (pending, t) e (km.at s h) refl)
]

module _ (P : Primitives) (C : Site) (U : Profile) (q : FilePath) (c : Option Bytes)
    (apart : path_eq U.server_map_path q ≡ false) where
  -- A rotation, however it ends, leaves every file but the map of servers as it was, unless the server has confirmed
  -- the drawn pair under the old one that the files held.
  pub rotate_keys-Synced :
      (s : Client)
      → file_at q s.disk ≡ c
      → (file_at q (rotate_keys P C U s).1.disk ≡ c) ⊎ Synced P C U s
  unfolding rotate_keys
  rotate_keys-Synced s h =
      until q c (existing_keys P C U) _ s (existing_keys-Keeps P C U q c)
        (λ existing t₁ e₁ h₁.
          until q c (or_fail existing no_keys) _ t₁ (Keeps-or_fail existing no_keys)
            (λ files t₂ e₂ h₂.
              until q c (decode_pair P C U files) _ t₂ (decode_pair-Keeps P C U q c files)
                (λ old t₃ e₃ h₃.
                  until q c (generate_keypair P C U) _ t₃ (generate_keypair-Keeps P C U q c)
                    (λ new t₄ e₄ h₄.
                      until q c (auth_client P C (with_key P C U old.0) new.1 (some old.1)) _ t₄
                        (auth_client-Keeps P C (with_key P C U old.0) q c apart new.1 (some old.1))
                        (λ _ t₅ e₅ h₅. inr (
                          old,
                          new,
                          t₄,
                          t₅,
                          prepared P C U existing files old new s t₁ t₂ t₃ t₄ e₁ e₂ e₃ e₄,
                          e₅,
                        ))
                        h₄)
                    h₃)
                h₂)
            h₁)
        h
