-- ===== src/FileHash/Whole.antt =====
-- The hash that is read piece by piece is the hash of the whole.
use rdrive.Base.{
  ◌≡◌, refl, ◌∙◌, some, List, [], ◌∷◌, ◌++◌, arith, Bytes, length, append-nil, append_assoc,
}
use rdrive.Crypto.{Primitives}
use rdrive.Disk.{Disk, FilePath}
use rdrive.Disk.Contents.{file_at, read_file-of_file}
use rdrive.Transfer.{read_chunk_size}
use rdrive.Transfer.Stream.{concat}
use rdrive.Server.Files.{chunks_of}
use rdrive.Server.Files.Chunks.{concat-chunks_of}
use rdrive.FileHash.{hash_reads, file_hasher}

module _ (P : Primitives) where
  hash_reads-concat :
      (hasher : Bytes) (reads : List Bytes)
      → hash_reads P hasher reads ≡ P.hex (P.sha256 (hasher ++ concat reads))
  unfolding hash_reads
  hash_reads-concat hasher [] = rw (append-nil hasher) refl
  hash_reads-concat hasher (c ∷ cs) =
      hash_reads-concat (hasher ++ c) cs ∙ rw (append_assoc hasher c (concat cs)) refl

  -- The hash of a file that is there, on a disk that grants every read.
  pub file_hasher-of_file :
      (path : FilePath) (content : Bytes) (d : Disk)
      → d.fates ≡ []
      → file_at path d ≡ some content
      → file_hasher P path d ≡ (some (P.hex (P.sha256 content)), d)
  unfolding file_hasher
  file_hasher-of_file path content d quiet there =
      rw (read_file-of_file path content d quiet there) (
        rw
          (
            hash_reads-concat [] (chunks_of (length content) read_chunk_size content),
            concat-chunks_of (length content) read_chunk_size content (omega arith) (omega arith),
          )
          refl)
