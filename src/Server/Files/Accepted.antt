-- ===== src/Server/Files/Accepted.antt =====
-- An upload that is as it is announced is accepted.
use rdrive.Base.{
  sym, ℕ, ◌+◌, ◌^◌, ◌<◌, ◌≡◌, refl, ◌∙◌, ap, true, false, some, [], ◌∷◌, ◌++◌, arith, Bytes,
  bytes_eq, bytes_eq_refl, length, replicate, codes,
}
use rdrive.Base.Outcome.{ok}
use rdrive.Fault.{write_timeout}
use rdrive.Crypto.{Primitives, IsLawful}
use rdrive.Wire.{Wire, elapsed}
use rdrive.Wire.Delivered.{Seals, write_encrypt_frame_delivered}
use rdrive.Disk.{Disk, file, put, path_eq, is_dir, is_dir_path, create_dir_all}
use rdrive.Disk.Laws.{node_at-put_other, path_eq-append, bytes_eq-append}
use rdrive.Disk.Contents.{is_dir-put_file, create_dir_all_fates}
use rdrive.Disk.Parents.{path_eq_child, is_dir_path-put, create_dir_all_made, write_file_in}
use rdrive.Header.{UploadHeader}
use rdrive.Transfer.{read_chunk_size, receive_chunks}
use rdrive.Server.{Site, Server}
use rdrive.Server.Reply.{send_frame, send_last, send_success}
use rdrive.Server.Reply.Input.{send_frame_input}
use rdrive.Server.Files.{
  user_dir_path, file_path, meta_path, slice_panics, save_upload, store_upload, receive_upload,
}
use rdrive.Server.Files.Stored.{metadata_of}

module _ (P : Primitives) (L : IsLawful P) (seals : Seals P) (C : Site)
    (key client_key : Bytes) where
  -- What an upload needs besides its content: its metadata and both responses can be encoded.
  abbrev pub IsEncodable : UploadHeader → Type 0
  IsEncodable h =
      ((m : Bytes) × (C.metadata.serialize (metadata_of P C key client_key h) ≡ some m))
      × ((time : ℕ)
          → (b : Bytes) × (C.upload_response.serialize
                (record { file_id = h.file_id; file_hash = h.file_hash; network_time = time })
              ≡ some b)
            × (length b + 1 < 2 ^ 32))

  file_path-ne-meta_path :
      (h : UploadHeader)
      → path_eq
          (file_path P C key client_key h.file_key h.file_id)
          (meta_path P C key client_key h.file_key h.file_id)
        ≡ false
  file_path-ne-meta_path h =
      path_eq-append (user_dir_path P C key client_key h.file_key)
        ((P.hex (P.sha256 h.file_id) ++ codes ".file") ∷ [])
        ((P.hex (P.sha256 h.file_id) ++ codes ".meta") ∷ [])
      ∙ ground (arith, bytes_eq-append (P.hex (P.sha256 h.file_id)) (codes ".file") (codes ".meta"))

  save_upload_delivered :
      (h : UploadHeader) (time : ℕ) (s : Server)
      → (s.wire.fates ≡ []) × (s.disk.fates ≡ [])
      → IsEncodable h
      → is_dir_path (user_dir_path P C key client_key h.file_key) s.disk.nodes ≡ true
      → is_dir (meta_path P C key client_key h.file_key h.file_id) s.disk ≡ false
      → (s' : Server) × (save_upload P C key client_key h time s ≡ (ok true, s'))
  unfolding save_upload send_success send_last send_frame
  save_upload_delivered h time s (quiet, quiet') ((m, encoded), response) home free =
      let mp = meta_path P C key client_key h.file_key h.file_id in
      let (b, encoded', small) = response time in
      let saved =
        write_file_in (user_dir_path P C key client_key h.file_key) _ m s.disk quiet' home free in
      let (w₁, wrote, _) =
        write_encrypt_frame_delivered P L seals key (1 ∷ b) s.wire quiet (omega (arith, small)) in
      let replied = ap (elapsed write_timeout) wrote in
      (
        record s {
          wire = record w₁ { shut = true };
          disk = record s.disk { nodes = put mp (file m) s.disk.nodes };
        },
        rw (encoded, saved, encoded', replied) refl,
      )

  store_upload_delivered :
      (h : UploadHeader) (time : ℕ) (content : Bytes) (s : Server)
      → (s.wire.fates ≡ []) × (s.disk.fates ≡ [])
      → IsEncodable h
      → h.file_hash ≡ P.hex (P.sha256 content)
      → is_dir_path (user_dir_path P C key client_key h.file_key) s.disk.nodes ≡ true
      → is_dir (file_path P C key client_key h.file_key h.file_id) s.disk ≡ false
      → is_dir (meta_path P C key client_key h.file_key h.file_id) s.disk ≡ false
      → (s' : Server) × (store_upload P C key client_key h time content s ≡ (ok true, s'))
  unfolding store_upload
  store_upload_delivered h time content s (quiet, quiet') encodable hash home free free' =
      let udp = user_dir_path P C key client_key h.file_key in
      let fp = file_path P C key client_key h.file_key h.file_id in
      let mp = meta_path P C key client_key h.file_key h.file_id in
      let d = record s.disk { nodes = put fp (file content) s.disk.nodes } in
      let written = write_file_in udp _ content s.disk quiet' home free in
      let same : bytes_eq (P.hex (P.sha256 content)) h.file_hash ≡ true =
        rw hash (bytes_eq_refl (P.hex (P.sha256 content))) in
      let still_free : is_dir mp d ≡ false =
        rw (node_at-put_other fp mp (file content) s.disk.nodes (file_path-ne-meta_path h)) free' in
      let (s', saved) =
        save_upload_delivered h time (record s { disk = d }) (quiet, quiet') encodable
          (is_dir_path-put fp udp content s.disk.nodes (path_eq_child udp _) ∙ home) still_free in
      (s', rw (written, same) saved)

  -- An upload that can be received, as it is announced, is accepted.
  pub receive_upload-accepted :
      (h : UploadHeader) (content : Bytes) (d : Disk) (s : Server)
      → (s.wire.fates ≡ []) × (s.disk.fates ≡ [])
      → IsEncodable h
      → (slice_panics h.file_hash ≡ false) × (h.file_hash ≡ P.hex (P.sha256 content))
      → create_dir_all (user_dir_path P C key client_key h.file_key) s.disk ≡ (true, d)
      → is_dir (file_path P C key client_key h.file_key h.file_id) d ≡ false
      → is_dir (meta_path P C key client_key h.file_key h.file_id) d ≡ false
      → ((w : Wire)
          → w.input ≡ s.wire.input
          → w.fates ≡ []
          → (w' : Wire) × (receive_chunks P key h.file_size read_chunk_size h.file_size 0
                (replicate read_chunk_size 0)
                []
                w
              ≡ (ok content, w'))
            × (w'.fates ≡ []))
      → (s' : Server) × (receive_upload P C key client_key h s ≡ (ok true, s'))
  unfolding receive_upload send_frame
  receive_upload-accepted h content d s (quiet, quiet') encodable (long, hash) made free free'
        take_in =
      let fp = file_path P C key client_key h.file_key h.file_id in
      let mp = meta_path P C key client_key h.file_key h.file_id in
      let (w₁, wrote, still) =
        write_encrypt_frame_delivered P L seals key (1 ∷ []) s.wire quiet (omega arith) in
      let replied = ap (elapsed write_timeout) wrote in
      let unread : w₁.input ≡ s.wire.input =
        ap (λ r. r.1.input) (sym replied) ∙ send_frame_input P key (1 ∷ []) s.wire in
      let quiet_d =
        create_dir_all_fates (user_dir_path P C key client_key h.file_key) s.disk d true made
          quiet' in
      let d₁ = record d { nodes = put fp (file []) d.nodes } in
      let udp = user_dir_path P C key client_key h.file_key in
      let home = create_dir_all_made udp s.disk d made in
      let created = write_file_in udp _ [] d quiet_d home free in
      let still_free : is_dir mp d₁ ≡ false =
        rw (node_at-put_other fp mp (file []) d.nodes (file_path-ne-meta_path h)) free' in
      let (w₂, took, still₂) = take_in w₁ unread still in
      let (s', stored) =
        store_upload_delivered h (C.elapsed w₁.draws) content (record s { wire = w₂; disk = d₁ })
          (still₂, quiet_d) encodable hash
          (is_dir_path-put fp udp [] d.nodes (path_eq_child udp _) ∙ home) (is_dir-put_file fp [] d)
          still_free in
      (s', rw (made, long, replied, created, took) stored)
