-- ===== src/Server/Files/Served.antt =====
-- A stored file is served.
use rdrive.Base.{
  ℕ, ◌+◌, ◌^◌, ◌%◌, ◌<◌, ◌≡◌, refl, ◌∙◌, ap, inl, inr, true, false, Option, none, some, [], ◌∷◌,
  arith, Bytes, codes, length, replicate, length-replicate, Option-cases,
}
use rdrive.Base.Outcome.{ok}
use rdrive.Fault.{write_timeout}
use rdrive.Run.{Run, ◌>>◌, pure}
use rdrive.Run.Laws.{>>=-ok}
use rdrive.Crypto.{Primitives, IsLawful, overhead}
use rdrive.Wire.{elapsed}
use rdrive.Wire.Delivered.{Seals, write_encrypt_frame_delivered}
use rdrive.Disk.{Disk, exists, read_file}
use rdrive.Disk.Contents.{file_at, exists-of_file, read_file-of_file}
use rdrive.Header.{DownloadHeader}
use rdrive.Transfer.{read_chunk_size}
use rdrive.Transfer.Delivered.{send_chunks_delivered}
use rdrive.Server.{Site, Server, MetadataFile, on_disk}
use rdrive.Server.Reply.{send_frame, refuse}
use rdrive.Server.Files.{
  user_dir_path, file_path, meta_path, slice_panics, chunks_of, decoded, send_file, find_file,
}
use rdrive.Server.Files.Chunks.{chunks_of-AllOfLength}
use rdrive.Server.Files.Retrieval.{response_of}
use rdrive.Server.Files.Slots.{Slot, slot_of, slot_path, stored}

module _ (C : Site) (d : Disk) (a : Slot) (m : MetadataFile) (content : Bytes) where
  -- The two files of a slot that is filled.
  stored-eq-some :
      stored C d a ≡ some (m, content)
      → (b : Bytes) × (file_at (slot_path C a (codes ".meta")) d ≡ some b)
        × (C.metadata.deserialize b ≡ some m)
        × (file_at (slot_path C a (codes ".file")) d ≡ some content)
  unfolding stored
  stored-eq-some h = elim (Option-cases (file_at (slot_path C a (codes ".meta")) d)) [
    | inl e ↦ absurd (ground (arith, h, e))
    | inr (b, e) ↦ elim (Option-cases (C.metadata.deserialize b)) [
      | inl e' ↦ absurd (ground (arith, h, e, e'))
      | inr (m', e') ↦ elim (Option-cases (file_at (slot_path C a (codes ".file")) d)) [
        | inl e'' ↦ absurd (ground (arith, h, e, e', e''))
        | inr (c, e'') ↦ (b, e, ground (arith, h, e, e', e''), ground (arith, h, e, e', e''))
      ]
    ]
  ]

module _ (P : Primitives) (L : IsLawful P) (seals : Seals P) (C : Site)
    (key client_key : Bytes) where
  send_file_delivered :
      (h : DownloadHeader) (m : MetadataFile) (content header : Bytes) (s : Server)
      → (s.wire.fates ≡ []) × (s.disk.fates ≡ [])
      → slice_panics m.file_hash ≡ false
      → C.download_response.serialize (response_of P C key client_key m (C.elapsed s.wire.draws))
        ≡ some header
      → length header + 1 < 2 ^ 32
      → file_at (file_path P C key client_key h.file_key h.file_id) s.disk ≡ some content
      → length content % read_chunk_size ≡ 0
      → (s' : Server) × (send_file P C key client_key h m s ≡ (ok (some m.file_size), s'))
  unfolding send_file send_frame
  send_file_delivered h m content header s (quiet, quiet') hash encoded small there whole =
      let (w₁, wrote, still) =
        write_encrypt_frame_delivered P L seals key (1 ∷ header) s.wire quiet
          (omega (arith, small)) in
      let replied = ap (elapsed write_timeout) wrote in
      let read =
        read_file-of_file (file_path P C key client_key h.file_key h.file_id) content s.disk quiet'
          there in
      let (w₂, sent, _) =
        send_chunks_delivered P L seals key (chunks_of (length content) read_chunk_size content)
          read_chunk_size (replicate (read_chunk_size + overhead) 0) w₁ still (omega arith)
          (length-replicate (read_chunk_size + overhead) 0)
          (chunks_of-AllOfLength (length content) content whole) in
      (record s { wire = record w₂ { shut = true } }, rw (hash, encoded, replied, read, sent) refl)

  -- A download of a file that is stored, whose length is a multiple of the chunk size and whose response can be
  -- encoded, succeeds on a wire that delivers and a disk that grants everything.
  pub find_file-stored :
      (h : DownloadHeader) (m : MetadataFile) (content header : Bytes) (s : Server)
      → (s.wire.fates ≡ []) × (s.disk.fates ≡ [])
      → exists (user_dir_path P C key client_key h.file_key) s.disk ≡ true
      → stored C s.disk (slot_of P client_key h.file_key h.file_id) ≡ some (m, content)
      → slice_panics m.file_hash ≡ false
      → C.download_response.serialize (response_of P C key client_key m (C.elapsed s.wire.draws))
        ≡ some header
      → length header + 1 < 2 ^ 32
      → length content % read_chunk_size ≡ 0
      → (s' : Server) × (find_file P C key client_key h s ≡ (ok (some m.file_size), s'))
  unfolding find_file
  find_file-stored h m content header s (quiet, quiet') home there hash encoded small whole =
      let own = slot_of P client_key h.file_key h.file_id in
      let mp = meta_path P C key client_key h.file_key h.file_id in
      let (b, meta_there, readable, file_there) = stored-eq-some C s.disk own m content there in
      let meta = exists-of_file mp b s.disk meta_there in
      let read = read_file-of_file mp b s.disk quiet' meta_there in
      let answer = λ (o : Option MetadataFile). elim o as (λ _. Run Server (Option ℕ)) [
        | none ↦ (refuse P key C 500 "Failed to read metadata" >> pure none)
        | some m ↦ send_file P C key client_key h m
      ] in
      let (s', sent) =
        send_file_delivered h m content header s (quiet, quiet') hash encoded small file_there
          whole in
      (
        s',
        rw (home, meta)
            (>>=-ok (on_disk (read_file mp)) (λ o. answer (decoded P C key client_key o))
                (ap (λ r. (ok r.0, record s { disk = r.1 })) read)
              ∙ ap (λ o. answer o s) readable
              ∙ sent),
      )
