-- ===== src/Dummy.antt =====
-- src/bin/dummy.rs: a file of random bytes, which threads fill through one mapping of it, each its own slice. A
-- slice is taken without a check of its bounds. What a thread draws is a parameter, by the thread's number and
-- the place in its slice.
pub mod Filled
pub mod Tests
use rdrive.Base.{
  ℕ, zero, suc, ◌+◌, ◌-◌, ◌*◌, ◌/◌, ◌%◌, ◌^◌, min, Bool, ◌&&◌, Option, none, some, List, [], ◌∷◌,
  Bytes, length, ltb, leb, if◌then◌else◌,
}
use rdrive.Base.Text.{parse_usize}

abbrev pub chunk_size : ℕ
chunk_size = 128 * 1024 * 1024

pub data Request : Type 0 where
  usage : Request
  bad_size : Request
  generate : (size_bytes : ℕ) (path : Bytes) → Request

-- `(size_mb * 1024 * 1024) as u64`, which wraps around in a release build.
unfoldable pub size_bytes : ℕ → ℕ
size_bytes size_mb = (size_mb * 1024 * 1024) % 2 ^ 64

abbrev sized : Option ℕ → Bytes → Request
sized none path = bad_size
sized (some size_mb) path = generate (size_bytes size_mb) path

-- The arguments, behind the program's name.
unfoldable pub read_args : List Bytes → Request
read_args (_ ∷ size_mb ∷ path ∷ _) = sized (parse_usize size_mb) path
read_args _ = usage

-- `size_bytes.div_ceil(CHUNK_SIZE)`
unfoldable pub num_chunks : ℕ → ℕ
num_chunks size = (size + chunk_size - 1) / chunk_size

pub record Slice : Type 0 where
  pub start : ℕ
  pub slice_len : ℕ

-- The slice of the i-th thread, in a mapping of this length. The difference wraps around where it is negative; a
-- mapping is shorter than 2^63 bytes, so no sum does.
unfoldable pub slice_of : ℕ → ℕ → Slice
slice_of len i =
    let start = i * chunk_size in
    let end_of_slice = min (start + chunk_size) len in
    record { start = start; slice_len = (end_of_slice + 2 ^ 64 - start) % 2 ^ 64 }

-- The bytes of the mapping by their places, those behind its end included.
abbrev pub Memory : Type 0
Memory = ℕ → ℕ

module _ (random : ℕ → ℕ → ℕ) (len : ℕ) where
  -- `rand::rng().fill_bytes(slice)` in the i-th thread.
  unfoldable pub fill_bytes : ℕ → Memory → Memory
  fill_bytes i memory x =
      let slice = slice_of len i in
      if leb slice.start x && ltb x (slice.start + slice.slice_len)
      then random i (x - slice.start)
      else memory x

  -- The threads, in the order in which they fill their slices.
  unfoldable pub run_threads : List ℕ → Memory → Memory
  run_threads [] memory = memory
  run_threads (i ∷ order) memory = run_threads order (fill_bytes i memory)
