-- ===== src/Server/Connection/History.antt =====
-- A stored file across the commands of many connections, one after the other.
use rdrive.Base.{ℕ, ◌≡◌, refl, ◌∙◌, sym, true, false, Option, some, arith, Bytes, codes, length}
use mathlib.Core.Path.{subst}
use rdrive.Base.Outcome.{ok}
use rdrive.Crypto.{Primitives, IsLawful}
use rdrive.Wire.{Wire}
use rdrive.RateLimit.{IpAddr}
use rdrive.Header.{
  IsFaithful, Command, echo, auth, upload, download, status, UploadHeader, DownloadHeader,
}
use rdrive.Server.{Site, Server, MetadataFile}
use rdrive.Server.Files.{receive_upload, find_file}
use rdrive.Server.Files.Slots.{
  Slot, slot_eq, slot_of, slot_path, stored, insert, slot_eq_refl, stored_same, other_slot_path,
}
use rdrive.Server.Files.Stored.{metadata_of}
use rdrive.Server.Files.Refinement.{receive_upload_refines}
use rdrive.Server.Files.Retrieval.{IsSent, find_file_refines}
use rdrive.Server.Connection.{serve}
use rdrive.Server.Connection.Isolation.{IsUnwritten, serve_unwritten}

-- A command that is neither `auth` nor an upload to this slot.
abbrev pub Spares : Primitives → Bytes → Slot → Command → Type 0
Spares P client_key a (upload h) = slot_eq (slot_of P client_key h.file_key h.file_id) a ≡ false
Spares P client_key a (auth flags) = ⊥
Spares P client_key a c = Unit {0}

module _ (P : Primitives) (C : Site) where
  spared-IsUnwritten :
      (key client_key suffix : Bytes) (a : Slot) (c : Command)
      → length (codes ".meta") ≡ length suffix
      → Spares P client_key a c
      → IsUnwritten P C key client_key (slot_path C a suffix) c
  spared-IsUnwritten key client_key suffix a echo n h = tt
  spared-IsUnwritten key client_key suffix a (auth flags) n h = h
  spared-IsUnwritten key client_key suffix a (upload u) n h =
      let own = slot_of P client_key u.file_key u.file_id in
      (
        other_slot_path C own a (codes ".file") suffix n h,
        other_slot_path C own a (codes ".meta") suffix n h,
      )
  spared-IsUnwritten key client_key suffix a (download d) n h = tt
  spared-IsUnwritten key client_key suffix a status n h = tt

  -- Commands served one after the other, each by whichever client, over whichever connection and however it ends,
  -- that spare a slot.
  pub data Serves (a : Slot) (s : Server) : Server → Type 0 where
    start : Serves a s s
    connect : {t : Server} (w : Wire) → Serves a s t → Serves a s (record t { wire = w })
    next :
        {t : Server} (key client_key : Bytes) (fuel : ℕ) (ip : Option IpAddr) (c : Command)
        → Serves a s t
        → Spares P client_key a c
        → Serves a s (serve P C fuel ip key client_key c t).1

  pub Serves-stored :
      (a : Slot) {s t : Server} → Serves a s t → stored C t.disk a ≡ stored C s.disk a
  Serves-stored a start = refl
  Serves-stored a (connect {t} w before) = Serves-stored a before
  Serves-stored a (next {t} key client_key fuel ip c before h) =
      let kept = λ (suffix : Bytes) (n : length (codes ".meta") ≡ length suffix).
        serve_unwritten P C key client_key (slot_path C a suffix) fuel ip c t
          (spared-IsUnwritten key client_key suffix a c n h) in
      stored_same C t.disk (serve P C fuel ip key client_key c t).1.disk a
        (kept (codes ".meta") refl) (kept (codes ".file") refl)
      ∙ Serves-stored a before

module _ (P : Primitives) (L : IsLawful P) (C : Site) where
  -- After an upload that succeeds, and any commands of any clients that are neither `auth` nor an upload to the
  -- same place, a download of the file that succeeds reports the announced size and sends a content of the size and hash that the upload
  -- announced, in chunks, as the last thing that it writes. The metadata's encoding is read back as it was written.
  upload_then_download :
      (key key' client_key : Bytes) (h : UploadHeader) (d : DownloadHeader) (s s' t t' : Server)
      (n : ℕ)
      → IsFaithful C.metadata
      → (d.file_key ≡ h.file_key) × (d.file_id ≡ h.file_id)
      → receive_upload P C key client_key h s ≡ (ok true, s')
      → Serves P C (slot_of P client_key h.file_key h.file_id) s' t
      → find_file P C key' client_key d t ≡ (ok (some n), t')
      → (content : Bytes) × (length content ≡ h.file_size)
        × (P.hex (P.sha256 content) ≡ h.file_hash)
        × (n ≡ h.file_size)
        × IsSent P C key' client_key content t'.wire
  unfolding insert
  upload_then_download key key' client_key h d s s' t t' n faithful (same_key, same_id) up between
        down =
      let own = slot_of P client_key h.file_key h.file_id in
      let (content, size, hash, now) =
        receive_upload_refines P L C key client_key h s s' faithful up in
      let (m, content', there, size', sent, _) =
        find_file_refines P C key' client_key d t t' n down in
      let there' : stored C t.disk own ≡ some (m, content') = (rw (same_key, same_id) at there) in
      let kept : stored C t.disk own ≡ some (metadata_of P C key client_key h, content) =
        Serves-stored P C own between ∙ now own ∙ (rw (slot_eq_refl own)) in
      let both : ◌≡◌ {A = Option (MetadataFile × Bytes)} (some (m, content'))
          (some (metadata_of P C key client_key h, content)) =
        sym there' ∙ kept in
      let same_content : content' ≡ content = ground (arith, both) in
      (
        content,
        size,
        hash,
        ground (arith, both, size'),
        subst (λ b. IsSent P C key' client_key b t'.wire) same_content sent,
      )
