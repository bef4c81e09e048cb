-- ===== src/Server/Files/Retrieval.antt =====
-- Downloads against the storage as its clients see it.
use rdrive.Base.{
  sym, ℕ, ◌+◌, ◌≡◌, refl, ◌∙◌, ap, inl, inr, Option, none, some, ◌∷◌, arith, Bytes, codes, String,
  length, replicate, Bool-cases, Option-cases,
}
use rdrive.Base.Outcome.{ok}
use rdrive.Fault.{disk_failed, serialize_failed}
use rdrive.Run.{after, ◌>>=◌, ◌>>◌, pure, or_fail}
use rdrive.Crypto.{Primitives, overhead}
use rdrive.Wire.{Wire, shutdown}
use rdrive.Disk.{Disk, FilePath, exists, read_file}
use rdrive.Disk.Contents.{file_at, file_at-read_file, read_file-eq-some}
use rdrive.Header.{DownloadHeader, DownloadResponse}
use rdrive.Transfer.{read_chunk_size, send_chunks}
use rdrive.Server.{Site, Server, MetadataFile, on_wire, on_disk, reading}
use rdrive.Server.Steps.{or_fail_step, wire_step, panic_step}
use rdrive.Server.Reply.{send_frame, send_failed, refuse}
use rdrive.Server.Files.{
  user_dir_path, file_path, meta_path, slice_panics, chunks_of, decoded, send_file, find_file,
}
use rdrive.Server.Files.Isolation.{find_file-Keeps}
use rdrive.Server.Files.Slots.{Slot, slot_of, slot_path, stored, stored_same}

module _ (P : Primitives) (C : Site) (key client_key : Bytes) where
  not_refused :
      (code : ℕ) (why : String) (s s' : Server) (n : ℕ)
      → (refuse P key C code why >> pure none) s ≡ (ok (some n), s')
      → ⊥
  not_refused code why s s' n run =
      let (_, _, _, _, last) =
        wire_step (send_failed P key C (record { code = code; message = codes why }))
          (λ _. pure none) s s' (some n) run in
      ground (arith, last)

  -- What was written last are the chunks of a file.
  abbrev pub IsSent : Bytes → Wire → Type 0
  IsSent content w =
      (w₁ : Wire) × (w₂ : Wire) × (send_chunks P key (replicate (read_chunk_size + overhead) 0)
          (chunks_of (length content) read_chunk_size content) w₁
        ≡ (ok tt, w₂))
      × (w.output ≡ w₂.output)

  abbrev pub response_of : MetadataFile → ℕ → DownloadResponse
  response_of m network_time = record {
    file_name = m.filename;
    file_size = m.file_size;
    file_hash = m.file_hash;
    network_time = network_time;
  }

  -- What was written is the response to a download and behind it, as the last thing, the chunks of a file.
  abbrev pub IsServed : MetadataFile → Bytes → Wire → Wire → Type 0
  IsServed m content w w' =
      (header : Bytes) × (w₁ : Wire) × (w₂ : Wire) × (C.download_response.serialize
          (response_of m (C.elapsed w.draws))
        ≡ some header)
      × (send_frame P key (1 ∷ header) w ≡ (ok tt, w₁))
      × (send_chunks P key (replicate (read_chunk_size + overhead) 0)
            (chunks_of (length content) read_chunk_size content) w₁
          ≡ (ok tt, w₂))
      × (w'.output ≡ w₂.output)

  IsServed-IsSent :
      (m : MetadataFile) (content : Bytes) (w w' : Wire)
      → IsServed m content w w'
      → IsSent content w'
  IsServed-IsSent m content w w' (_, w₁, w₂, _, _, sent, same) = (w₁, w₂, sent, same)

  shutdown_writes_nothing : (w w' : Wire) → shutdown w ≡ (ok tt, w') → w'.output ≡ w.output
  shutdown_writes_nothing w w' h = ground arith

  send_file_reads :
      (h : DownloadHeader) (m : MetadataFile) (s s' : Server) (n : ℕ)
      → send_file P C key client_key h m s ≡ (ok (some n), s')
      → (n ≡ m.file_size)
        × ((content : Bytes) × (file_at (file_path P C key client_key h.file_key h.file_id) s.disk
              ≡ some content)
            × IsServed m content s.wire s'.wire)
  unfolding send_file
  send_file_reads h m s s' n run =
      let fp = file_path P C key client_key h.file_key h.file_id in
      let sending = λ (content : Bytes).
        on_wire (
          send_chunks P key (replicate (read_chunk_size + overhead) 0)
            (chunks_of (length content) read_chunk_size content))
        >>= λ _. (on_wire shutdown >>= λ _. pure (some m.file_size)) in
      let opening = on_disk (read_file fp) >>= λ opened. (or_fail opened disk_failed >>= sending) in
      let time = C.elapsed s.wire.draws in
      let response = C.download_response.serialize (response_of m time) in
      let (_, run₁) =
        panic_step (slice_panics m.file_hash)
          (reading C.elapsed >>= λ time.
            or_fail (C.download_response.serialize (response_of m time)) serialize_failed
            >>= λ header. (on_wire (send_frame P key (1 ∷ header)) >>= λ _. opening))
          s s' (some n) run in
      let (header, encoded, run₂) =
        or_fail_step response serialize_failed
          (λ header. on_wire (send_frame P key (1 ∷ header)) >>= λ _. opening) s s' (some n) run₁ in
      let (_, s₁, kept, replied, run₃) =
        wire_step (send_frame P key (1 ∷ header)) (λ _. opening) s s' (some n) run₂ in
      let s₂ = record s₁ { disk = (read_file fp s₁.disk).1 } in
      let (content, read, run₄) =
        or_fail_step (read_file fp s₁.disk).0 disk_failed sending s₂ s' (some n) run₃ in
      let (_, s₃, _, sent, run₅) =
        wire_step
          (send_chunks P key (replicate (read_chunk_size + overhead) 0)
            (chunks_of (length content) read_chunk_size content))
          (λ _. (on_wire shutdown >>= λ _. pure (some m.file_size))) s₂ s' (some n) run₄ in
      let (_, s₄, _, shut, last) =
        wire_step shutdown (λ _. pure (some m.file_size)) s₃ s' (some n) run₅ in
      (
        ground (arith, last),
        (
          content,
          ap (file_at fp) (sym kept) ∙ read_file-eq-some fp s₁.disk content read,
          (
            header,
            s₁.wire,
            s₃.wire,
            encoded,
            replied,
            sent,
            ap (λ r. r.1.wire.output) (sym last) ∙ shutdown_writes_nothing s₃.wire s₄.wire shut,
          ),
        ),
      )

  -- The metadata that was read, and the content.
  stored_of_files :
      (h : DownloadHeader) (m : MetadataFile) (content : Bytes) (d : Disk)
      → decoded P C key client_key
          (read_file (meta_path P C key client_key h.file_key h.file_id) d).0
        ≡ some m
      → file_at
          (file_path P C key client_key h.file_key h.file_id)
          (read_file (meta_path P C key client_key h.file_key h.file_id) d).1
        ≡ some content
      → stored C d (slot_of P client_key h.file_key h.file_id) ≡ some (m, content)
  unfolding stored
  stored_of_files h m content d e there =
      let mp = meta_path P C key client_key h.file_key h.file_id in
      let fp = file_path P C key client_key h.file_key h.file_id in
      let c : file_at fp d ≡ some content = sym (file_at-read_file mp fp d) ∙ there in
      elim (Option-cases (read_file mp d).0) [
        | inl nothing ↦ absurd (ground (arith, e, nothing))
        | inr (b, found) ↦
            let meta : file_at mp d ≡ some b = read_file-eq-some mp d b found in
            let m_of : C.metadata.deserialize b ≡ some m = (rw found at e) in rw (c, meta, m_of)
      ]

module _ (P : Primitives) (C : Site) (key client_key : Bytes) where
  metadata_found :
      (h : DownloadHeader) (o : Option MetadataFile) (s s' : Server) (n : ℕ)
      → after {A = Option MetadataFile} {B = Option ℕ}
          (λ o. elim o [
            | none ↦ (refuse P key C 500 "Failed to read metadata" >> pure none)
            | some m ↦ send_file P C key client_key h m
          ])
          (ok o, s)
        ≡ (ok (some n), s')
      → (m : MetadataFile) × (o ≡ some m) × (send_file P C key client_key h m s ≡ (ok (some n), s'))
  metadata_found h none s s' n run =
      absurd (not_refused P C key client_key 500 "Failed to read metadata" s s' n run)
  metadata_found h (some m) s s' n run = (m, refl, run)

  -- A download that succeeds finds its place of the storage filled, and writes the response that the metadata
  -- there gives and the chunks of the content there.
  pub find_file_reads :
      (h : DownloadHeader) (s s' : Server) (n : ℕ)
      → find_file P C key client_key h s ≡ (ok (some n), s')
      → (m : MetadataFile) × (content : Bytes) × (stored C s.disk
            (slot_of P client_key h.file_key h.file_id)
          ≡ some (m, content))
        × (n ≡ m.file_size)
        × IsServed P C key client_key m content s.wire s'.wire
  unfolding find_file
  find_file_reads h s s' n run =
      let mp = meta_path P C key client_key h.file_key h.file_id in
      let s₁ = record s { disk = (read_file mp s.disk).1 } in
      elim (Bool-cases (exists (user_dir_path P C key client_key h.file_key) s.disk)) [
        | inr missing ↦
            absurd (not_refused P C key client_key 404 "File not found" s s' n (rw missing at run))
        | inl there ↦ elim (Bool-cases (exists mp s.disk)) [
          | inr missing ↦ absurd (
              not_refused P C key client_key 404 "Metadata File not found" s s' n
                (rw (there, missing) at run))
          | inl there' ↦
              let (m, e, run₁) =
                metadata_found h (decoded P C key client_key (read_file mp s.disk).0) s₁ s' n
                  (rw (there, there') at run) in
              let (size, (content, c, sent)) =
                send_file_reads P C key client_key h m s₁ s' n run₁ in
              (m, content, stored_of_files P C key client_key h m content s.disk e c, size, sent)
        ]
      ]

  -- A download that succeeds finds its place of the storage filled, reports the size that the metadata there says,
  -- has written the chunks of the content there last, and leaves the storage as it was.
  pub find_file_refines :
      (h : DownloadHeader) (s s' : Server) (n : ℕ)
      → find_file P C key client_key h s ≡ (ok (some n), s')
      → (m : MetadataFile) × (content : Bytes) × (stored C s.disk
            (slot_of P client_key h.file_key h.file_id)
          ≡ some (m, content))
        × (n ≡ m.file_size)
        × IsSent P C key client_key content s'.wire
        × ((a : Slot) → stored C s'.disk a ≡ stored C s.disk a)
  find_file_refines h s s' n run =
      let (m, content, there, size, served) = find_file_reads h s s' n run in
      let kept : (q : FilePath) → file_at q s'.disk ≡ file_at q s.disk = λ q.
        ap (λ r. file_at q r.1.disk) (sym run)
        ∙ (find_file-Keeps P C key client_key q (file_at q s.disk) h).at s refl in
      (
        m,
        content,
        there,
        size,
        IsServed-IsSent P C key client_key m content s.wire s'.wire served,
        λ a.
            stored_same C s.disk s'.disk a (kept (slot_path C a (codes ".meta")))
              (kept (slot_path C a (codes ".file"))),
      )
