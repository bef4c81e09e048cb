-- ===== src/Server/Files/Chunks.antt =====
-- The reads of a file return all of it.
use rdrive.Base.{
  ℕ, ◌%◌, length-take, zero, suc, ◌<◌, ◌≤◌, ◌≡◌, refl, [], ◌∷◌, arith, Bytes, length, drop,
  take-append-drop, length-drop,
}
use rdrive.Transfer.{read_chunk_size}
use rdrive.Transfer.Delivered.{AllOfLength}
use rdrive.Transfer.Stream.{concat}
use rdrive.Server.Files.{chunks_of}

pub concat-chunks_of :
    (fuel size : ℕ) (s : Bytes) → 0 < size → length s ≤ fuel → concat (chunks_of fuel size s) ≡ s
unfolding chunks_of
concat-chunks_of zero size [] pos h = refl
concat-chunks_of zero size (x ∷ s) pos h = absurd (omega arith)
concat-chunks_of (suc fuel) size [] pos h = refl
concat-chunks_of (suc fuel) size (x ∷ s) pos h =
    rw
      (concat-chunks_of fuel size (drop size (x ∷ s)) pos (omega (arith, length-drop size (x ∷ s))))
      (take-append-drop size (x ∷ s))

-- Where the chunks fill the content, each is whole.
pub chunks_of-AllOfLength :
    (fuel : ℕ) (s : Bytes)
    → length s % read_chunk_size ≡ 0
    → AllOfLength read_chunk_size (chunks_of fuel read_chunk_size s)
unfolding chunks_of
chunks_of-AllOfLength zero s h = tt
chunks_of-AllOfLength (suc fuel) [] h = tt
chunks_of-AllOfLength (suc fuel) (x ∷ s) h = (
  omega (arith, length-take read_chunk_size (x ∷ s)),
  chunks_of-AllOfLength fuel (drop read_chunk_size (x ∷ s))
      (omega (arith, length-drop read_chunk_size (x ∷ s))),
)
