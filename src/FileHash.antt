-- ===== src/FileHash.antt =====
-- src/lib.rs, `file_hasher`: the hash of a file that is read piece by piece. A hasher is what it has absorbed.
pub mod Whole
use rdrive.Base.{Option, none, some, List, [], ◌∷◌, ◌++◌, Bytes, length}
use rdrive.Crypto.{Primitives}
use rdrive.Disk.{Disk, FilePath, read_file}
use rdrive.Transfer.{read_chunk_size}
use rdrive.Server.Files.{chunks_of}

module _ (P : Primitives) where
  -- The loop over the reads, and `hex::encode(hasher.finalize())`.
  unfoldable pub hash_reads : Bytes → List Bytes → Bytes
  hash_reads hasher [] = P.hex (P.sha256 hasher)
  hash_reads hasher (bytes_read ∷ rest) = hash_reads (hasher ++ bytes_read) rest

  abbrev hashed : Option Bytes → Option Bytes
  hashed none = none
  hashed (some content) = some (hash_reads [] (chunks_of (length content) read_chunk_size content))

  -- None where the file cannot be opened or read.
  unfoldable pub file_hasher : FilePath → Disk → Option Bytes × Disk
  file_hasher path d = let (found, d') = read_file path d in (hashed found, d')
