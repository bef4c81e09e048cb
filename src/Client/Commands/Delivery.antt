-- ===== src/Client/Commands/Delivery.antt =====
-- What the client makes of a download that the server has sent.
use rdrive.Base.{
  sym, ℕ, ◌+◌, ◌*◌, ◌≤◌, ◌≡◌, refl, ◌∙◌, ap, true, false, Option, some, [], ◌∷◌, ◌++◌, arith, Bytes,
  bytes_eq, bytes_eq_refl, length, drop, replicate, length-replicate, append_assoc, drop-append,
}
use rdrive.Base.Outcome.{ok}
use rdrive.Run.{◌>>=◌}
use rdrive.Run.Laws.{>>=-ok}
use rdrive.Crypto.{Primitives, IsLawful, overhead}
use rdrive.Wire.{Wire}
use rdrive.Wire.Frames.{max_frame_length, framed, read_encrypt_data_into, write_encrypt_frame_into}
use rdrive.Wire.Limits.{sent}
use rdrive.Wire.RoundTrip.{write_encrypt_frame-Opens, read_encrypt_data-Opens}
use rdrive.Disk.{FilePath, is_dir, is_dir_path, put, file, write_file}
use rdrive.Disk.Laws.{node_at-put_same}
use rdrive.Disk.Contents.{file_at, is_dir-put_file}
use rdrive.Disk.Parents.{path_eq_child, is_dir_path-put, write_file_in}
use rdrive.Disk.Join.{is_plain, path_join_plain}
use rdrive.Header.{IsFaithful, DownloadHeader, DownloadResponse}
use rdrive.Transfer.{read_chunk_size, send_chunks, receive_chunks}
use rdrive.Transfer.Stream.{concat, send_chunks-Streams}
use rdrive.Transfer.Exchange.{receive-send_chunks, send_chunks_full}
use rdrive.Server.{Site, Server, MetadataFile}
use rdrive.Server.Reply.{send_frame}
use rdrive.Server.Reply.Read.{timely}
use rdrive.Fault.{write_timeout}
use mathlib.Core.Path.{subst}
use rdrive.Server.Files.{chunks_of, find_file}
use rdrive.Server.Files.Slots.{slot_of, stored}
use rdrive.Server.Files.Retrieval.{response_of, IsServed, find_file_reads}
use rdrive.Server.Files.Chunks.{concat-chunks_of}
use rdrive.Client.{Profile, Client, on_wire}
use rdrive.Client.Commands.{check_flag, check_error, receive_download}

-- The chunks of a content that was sent with success are received as that content.
pub receive-sent_content :
    (P : Primitives) (L : IsLawful P) (key content rest : Bytes) (w w' r : Wire)
    → send_chunks P key
        (replicate (read_chunk_size + overhead) 0)
        (chunks_of (length content) read_chunk_size content)
        w
      ≡ (ok tt, w')
    → r.input ≡ drop (length w.output) w'.output ++ rest
    → receive_chunks P key
        (length content)
        read_chunk_size
        (length content)
        0
        (replicate read_chunk_size 0)
        []
        r
      ≡ (ok content, record r { input = rest })
receive-sent_content P L key content rest w w' r sent e =
    let chunks = chunks_of (length content) read_chunk_size content in
    let whole : concat chunks ≡ content =
      concat-chunks_of (length content) read_chunk_size content (omega arith) (omega arith) in
    let full =
      send_chunks_full P L key chunks read_chunk_size (replicate (read_chunk_size + overhead) 0) w
        w' (length-replicate (read_chunk_size + overhead) 0) sent in
    let size : length content ≡ length chunks * read_chunk_size = sym (ap length whole) ∙ full in
    ap
      (λ n.
        receive_chunks P key (length content) read_chunk_size n 0 (replicate read_chunk_size 0) []
          r)
      size
    ∙ receive-send_chunks P L key chunks read_chunk_size (length content)
        (replicate (read_chunk_size + overhead) 0) (replicate read_chunk_size 0) rest w w' r
        (omega arith) (length-replicate (read_chunk_size + overhead) 0)
        (length-replicate read_chunk_size 0) (omega (arith, size)) sent e
    ∙ ap (λ c. (ok c, record r { input = rest })) whole

module _ (P : Primitives) (L : IsLawful P) (C : Site) (U : Profile) where
  receive_download_lem :
      (output : FilePath) (key header content rest : Bytes) (response : DownloadResponse)
      (c : Client) (w₁ w₂ : Wire)
      → C.download_response.deserialize header ≡ some response
      → response.file_size ≡ length content
      → response.file_hash ≡ P.hex (P.sha256 content)
      → send_chunks P key
          (replicate (read_chunk_size + overhead) 0)
          (chunks_of (length content) read_chunk_size content)
          w₁
        ≡ (ok tt, w₂)
      → c.wire.input ≡ drop (length w₁.output) w₂.output ++ rest
      → c.disk.fates ≡ []
      → (is_plain response.file_name ≡ true) × (is_dir_path output c.disk.nodes ≡ true)
      → is_dir (output ++ (response.file_name ∷ [])) c.disk ≡ false
      → (c' : Client) × (receive_download P C U output key (1 ∷ header) c
          ≡ (ok (output ++ (response.file_name ∷ [])), c'))
        × (file_at (output ++ (response.file_name ∷ [])) c'.disk ≡ some content)
        × (c'.wire.input ≡ rest)
  unfolding receive_download check_flag check_error drop
  receive_download_lem output key header content rest response c w₁ w₂ decoded size hash sent e
        quiet (plain, home) free =
      let joined = path_join_plain c.disk.nodes output response.file_name plain in
      let path = output ++ (response.file_name ∷ []) in
      let d₁ = record c.disk { nodes = put path (file []) c.disk.nodes } in
      let d₂ = record d₁ { nodes = put path (file content) d₁.nodes } in
      let created : write_file path [] c.disk ≡ (true, d₁) =
        write_file_in output response.file_name [] c.disk quiet home free in
      let written : write_file path content d₁ ≡ (true, d₂) =
        write_file_in output response.file_name content d₁ quiet
          (is_dir_path-put path output [] c.disk.nodes (path_eq_child output response.file_name)
            ∙ home)
          (is_dir-put_file path [] c.disk) in
      let received : receive_chunks P key response.file_size read_chunk_size response.file_size 0
            (replicate read_chunk_size 0) [] c.wire
          ≡ (ok content, record c.wire { input = rest }) =
        rw size (receive-sent_content P L key content rest w₁ w₂ c.wire sent e) in
      let same_hash : bytes_eq (P.hex (P.sha256 content)) response.file_hash ≡ true =
        rw hash (bytes_eq_refl (P.hex (P.sha256 content))) in
      (
        record c { wire = record c.wire { input = rest; shut = true }; disk = d₂ },
        rw (decoded, joined, created, received, written, same_hash) refl,
        rw (node_at-put_same path (file content) d₁.nodes) refl,
        refl,
      )

  -- The wire behind a frame and the chunks of a content.
  receive_served :
      (key content rest : Bytes) (m : MetadataFile) (client_key : Bytes) (w w' : Wire)
      (output : FilePath) (c : Client)
      → IsFaithful C.download_response
      → ((r : DownloadResponse) (b : Bytes)
          → C.download_response.serialize r ≡ some b
          → length b + 29 ≤ max_frame_length)
      → (m.file_size ≡ length content) × (m.file_hash ≡ P.hex (P.sha256 content))
      → IsServed P C key client_key m content w w'
      → c.wire.input ≡ sent P L key w w' ++ rest
      → c.disk.fates ≡ []
      → (is_plain m.filename ≡ true) × (is_dir_path output c.disk.nodes ≡ true)
      → is_dir (output ++ (m.filename ∷ [])) c.disk ≡ false
      → (c' : Client) × ((on_wire (read_encrypt_data_into P key)
              >>= receive_download P C U output key)
            c
          ≡ (ok (output ++ (m.filename ∷ [])), c'))
        × (file_at (output ++ (m.filename ∷ [])) c'.disk ≡ some content)
        × (c'.wire.input ≡ rest)
  unfolding send_frame
  receive_served key content rest m client_key w w' output c faithful small (size, hash)
        (header, w₁, w₂, encoded, replied, chunks_sent, out) e quiet place free =
      let chunks = chunks_of (length content) read_chunk_size content in
      let wrote = timely write_timeout (write_encrypt_frame_into P key (1 ∷ header)) w w₁ replied in
      let (body, o, out₁) = write_encrypt_frame-Opens P L key (1 ∷ header) w w₁ wrote in
      let (stream, out₂, _) =
        send_chunks-Streams P L key chunks (replicate (read_chunk_size + overhead) 0) w₁ w₂
          chunks_sent in
      let all_out : w'.output ≡ w.output ++ (framed body ++ stream) =
        out ∙ out₂ ∙ rw out₁ (append_assoc w.output (framed body) stream) in
      let input : c.wire.input ≡ framed body ++ (stream ++ rest) =
        e
        ∙ rw (all_out, drop-append (length w.output) w.output (framed body ++ stream) refl)
            (append_assoc (framed body) stream rest) in
      let (r, read, left) =
        read_encrypt_data-Opens P L key (1 ∷ header) body (stream ++ rest) c.wire o
          (omega (arith, small _ header encoded)) input in
      let next : r.input ≡ drop (length w₁.output) w₂.output ++ rest =
        left ∙ rw (out₂, drop-append (length w₁.output) w₁.output stream refl) refl in
      let (c', ran, stands, rest_left) =
        receive_download_lem output key header content rest
          (response_of P C key client_key m (C.elapsed w.draws)) (record c { wire = r }) w₁ w₂
          (faithful _ header encoded) size hash chunks_sent next quiet place free in
      (
        c',
        >>=-ok (on_wire (read_encrypt_data_into P key)) (receive_download P C U output key)
              (ap (λ r. (r.0, record c { wire = r.1 })) read)
            ∙ ran,
        stands,
        rest_left,
      )

  -- A download that the server has served from a place of its storage whose metadata is right about the content is
  -- written by the client under the name there, and is that content. The client reads exactly what the server has
  -- written, its disk grants every write, the output directory stands, the name is one
  -- component and no directory stands under it, and the response's encoding is
  -- read back as it was written and fits a frame with its flag.
  pub receive_download-find_file :
      (key client_key content rest : Bytes) (h : DownloadHeader) (m : MetadataFile) (s s' : Server)
      (n : ℕ) (output : FilePath) (c : Client)
      → IsFaithful C.download_response
      → ((r : DownloadResponse) (b : Bytes)
          → C.download_response.serialize r ≡ some b
          → length b + 29 ≤ max_frame_length)
      → stored C s.disk (slot_of P client_key h.file_key h.file_id) ≡ some (m, content)
      → (m.file_size ≡ length content) × (m.file_hash ≡ P.hex (P.sha256 content))
      → find_file P C key client_key h s ≡ (ok (some n), s')
      → c.wire.input ≡ sent P L key s.wire s'.wire ++ rest
      → c.disk.fates ≡ []
      → (is_plain m.filename ≡ true) × (is_dir_path output c.disk.nodes ≡ true)
      → is_dir (output ++ (m.filename ∷ [])) c.disk ≡ false
      → (c' : Client) × ((on_wire (read_encrypt_data_into P key)
              >>= receive_download P C U output key)
            c
          ≡ (ok (output ++ (m.filename ∷ [])), c'))
        × (file_at (output ++ (m.filename ∷ [])) c'.disk ≡ some content)
        × (c'.wire.input ≡ rest)
  receive_download-find_file key client_key content rest h m s s' n output c faithful small there
        (size, hash) run e quiet place free =
      let (m', content', there', _, served) = find_file_reads P C key client_key h s s' n run in
      let both : ◌≡◌ {A = Option (MetadataFile × Bytes)} (some (m', content')) (some (m, content)) =
        sym there' ∙ there in
      let same_m : m' ≡ m = ground (arith, both) in
      let same_content : content' ≡ content = ground (arith, both) in
      let served' : IsServed P C key client_key m content s.wire s'.wire =
        subst (λ x. IsServed P C key client_key x content s.wire s'.wire) same_m
          (subst (λ x. IsServed P C key client_key m' x s.wire s'.wire) same_content served) in
      receive_served key content rest m client_key s.wire s'.wire output c faithful small
        (size, hash) served' e quiet place free
