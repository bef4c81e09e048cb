-- ===== src/Client/Handshake/Changed.antt =====
-- What the client stores when it comes to trust a changed key.
use rdrive.Base.{
  ◌≡◌, refl, sym, ap, ◌∙◌, true, false, not, Option, none, some, arith, Bytes, bytes_eq, Bool-cases,
  inl, inr,
}
use rdrive.Base.Outcome.{ok}
use rdrive.Fault.{disk_failed, serialize_failed}
use rdrive.Run.{Run, ◌>>=◌, pure, fail_if, or_fail}
use rdrive.Run.Laws.{>>=-eq-ok}
use rdrive.Crypto.{Primitives}
use rdrive.Disk.{Disk, file, node_at, write_file}
use rdrive.Disk.Laws.{node_at-put_same, write_file-eq-true}
use rdrive.Server.{Site}
use rdrive.Client.{ServerMap, insert_key, Profile, Client, on_disk}
use rdrive.Client.Handshake.{write_map, remember, confirm, known_server}

serialized :
    (o : Option Bytes) (k : Bytes → Run Client (Unit {0})) (s s' : Client)
    → (or_fail o serialize_failed >>= k) s ≡ (ok tt, s')
    → (json : Bytes) × (o ≡ some json) × (k json s ≡ (ok tt, s'))
serialized none k s s' h = absurd (ground arith)
serialized (some json) k s s' h = (json, refl, h)

module _ (P : Primitives) (C : Site) (U : Profile) where
  -- The file of the map holds these entries.
  abbrev pub IsSaved : ServerMap → Disk → Type 0
  IsSaved m d =
      (json : Bytes) × (U.server_map.serialize m ≡ some json)
      × (node_at U.server_map_path d.nodes ≡ some (file json))

  write_map-IsSaved :
      (m : ServerMap) (s s' : Client) → write_map P C U m s ≡ (ok tt, s') → IsSaved m s'.disk
  unfolding write_map
  write_map-IsSaved m s s' h =
      let put_json = λ (json : Bytes). on_disk (write_file U.server_map_path json) >>= λ written.
      fail_if (not written) disk_failed in
      let (json, e, h₁) = serialized (U.server_map.serialize m) put_json s s' h in
      let (done, s₁, wrote, h₂) =
        >>=-eq-ok (on_disk (write_file U.server_map_path json))
          (λ written. fail_if (not written) disk_failed) s h₁ in
      elim (Bool-cases done) [
        | inl yes_done ↦
            let d : write_file U.server_map_path json s.disk ≡ (true, s₁.disk) =
              ap (λ r. (elim r.0 [ ok x ↦ x | _ ↦ false ], r.1.disk)) wrote ∙ rw yes_done refl in
            let same : s'.disk ≡ s₁.disk = ap (λ r. r.1.disk) (sym (rw yes_done at h₂)) in
            (
              json,
              e,
              rw (same, write_file-eq-true U.server_map_path json s.disk s₁.disk d)
                  (node_at-put_same U.server_map_path (file json) s.disk.nodes),
            )
        | inr no_done ↦ absurd (ground (arith, (rw no_done at h₂)))
      ]

  -- Once the user trusts a key other than the stored one, the client goes on with the new key, and what its file
  -- then holds for the server is not that key in hexadecimal but the hash of it.
  pub known_server-IsSaved :
      (server_key existing key : Bytes) (m : ServerMap) (s s' : Client)
      → bytes_eq existing (P.hex server_key) ≡ false
      → known_server P C U server_key m existing s ≡ (ok key, s')
      → (key ≡ server_key)
        × IsSaved (insert_key U.server_ip (P.hex (P.sha256 (P.hex server_key))) m) s'.disk
  unfolding known_server remember
  known_server-IsSaved server_key existing key m s s' changed h =
      let fp = P.hex (P.sha256 (P.hex server_key)) in
      let new = insert_key U.server_ip fp m in
      let (_, s₁, _, h₁) =
        >>=-eq-ok (confirm P C U) (λ _. remember P C U fp m >>= λ _. pure server_key) s
          (rw changed at h) in
      let (_, s₂, r, h₂) = >>=-eq-ok (remember P C U fp m) (λ _. pure server_key) s₁ h₁ in
      let (_, s₃, w, h₃) = >>=-eq-ok (write_map P C U new) (λ _. pure new) s₁ r in
      let at_end : s'.disk ≡ s₃.disk = ap (λ x. x.1.disk) (sym h₂) ∙ ap (λ x. x.1.disk) (sym h₃) in
      (ground (arith, h₂), rw at_end (write_map-IsSaved new s₁ s₃ w))
