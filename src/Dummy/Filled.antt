-- ===== src/Dummy/Filled.antt =====
-- What the file holds when all threads are done.
use rdrive.Base.{
  ℕ, ◌+◌, ◌-◌, ◌*◌, ◌/◌, ◌%◌, ◌^◌, ◌<◌, ◌≤◌, ◌≡◌, refl, ◌∙◌, inl, inr, ◌⊎◌, true, ◌&&◌, List, [],
  ◌∷◌, arith, ltb, leb, Bool-cases, if◌then◌else◌,
}
use rdrive.Dummy.{chunk_size, num_chunks, slice_of, Memory, fill_bytes, run_threads}

abbrev pub Has : ℕ → List ℕ → Type 0
Has i [] = ⊥
Has i (j ∷ order) = (j ≡ i) ⊎ Has i order

abbrev pub AllBelow : ℕ → List ℕ → Type 0
AllBelow n [] = Unit {0}
AllBelow n (j ∷ order) = (j < n) × AllBelow n order

-- An order in which every thread has its turn, and no other.
abbrev pub IsSchedule : ℕ → List ℕ → Type 0
IsSchedule n order = AllBelow n order × ((i : ℕ) → i < n → Has i order)

module _ (random : ℕ → ℕ → ℕ) (len : ℕ) (mapped : len < 2 ^ 63) where
  -- A thread writes the places of its own slice, all within the file.
  fill_bytes_lem :
      (i x : ℕ) (memory : Memory)
      → i < num_chunks len
      → fill_bytes random len i memory x ≡ (
          if ltb x len && leb (i * chunk_size) x && ltb x (i * chunk_size + chunk_size)
          then random i (x - i * chunk_size)
          else memory x)
  unfolding fill_bytes slice_of num_chunks
  fill_bytes_lem i x memory h = ground arith

  untouched :
      (order : List ℕ) (x : ℕ) (memory : Memory)
      → AllBelow (num_chunks len) order
      → len ≤ x
      → run_threads random len order memory x ≡ memory x
  unfolding run_threads
  untouched [] x memory h out = refl
  untouched (i ∷ order) x memory (below, h) out =
      untouched order x (fill_bytes random len i memory) h out
      ∙ ground (arith, fill_bytes_lem i x memory below)

  -- What stands in a place once its thread is done.
  abbrev IsDone : ℕ → Memory → Type 0
  IsDone x memory = memory x ≡ random (x / chunk_size) (x % chunk_size)

  own_place :
      (i x : ℕ) (memory : Memory)
      → i < num_chunks len
      → x < len
      → x / chunk_size ≡ i
      → IsDone x (fill_bytes random len i memory)
  own_place i x memory below inside e =
      let offset : x - i * chunk_size ≡ x % chunk_size = omega (arith, e) in
      let here : (ltb x len && leb (i * chunk_size) x && ltb x (i * chunk_size + chunk_size))
          ≡ true =
        ground (arith, e) in
      fill_bytes_lem i x memory below ∙ rw (here, offset, e) refl

  -- A thread keeps what stands there, or it is the one whose place it is.
  fill_bytes-IsDone :
      (i x : ℕ) (memory : Memory)
      → i < num_chunks len
      → x < len
      → IsDone x memory
      → IsDone x (fill_bytes random len i memory)
  fill_bytes-IsDone i x memory below inside done =
      elim (Bool-cases
        (ltb x len && leb (i * chunk_size) x && ltb x (i * chunk_size + chunk_size))) [
          | inl here ↦ own_place i x memory below inside (ground arith)
          | inr other ↦ fill_bytes_lem i x memory below ∙ rw other done
        ]

  stays-IsDone :
      (order : List ℕ) (x : ℕ) (memory : Memory)
      → AllBelow (num_chunks len) order
      → x < len
      → IsDone x memory
      → IsDone x (run_threads random len order memory)
  unfolding run_threads
  stays-IsDone [] x memory h inside done = done
  stays-IsDone (i ∷ order) x memory (below, h) inside done =
      stays-IsDone order x (fill_bytes random len i memory) h inside
        (fill_bytes-IsDone i x memory below inside done)

  gets-IsDone :
      (order : List ℕ) (x : ℕ) (memory : Memory)
      → AllBelow (num_chunks len) order
      → x < len
      → Has (x / chunk_size) order
      → IsDone x (run_threads random len order memory)
  unfolding run_threads
  gets-IsDone [] x memory h inside has = absurd has
  gets-IsDone (i ∷ order) x memory (below, h) inside (inl e) =
      stays-IsDone order x (fill_bytes random len i memory) h inside
        (own_place i x memory below inside (omega (arith, e)))
  gets-IsDone (i ∷ order) x memory (below, h) inside (inr has) =
      gets-IsDone order x (fill_bytes random len i memory) h inside has

  -- In whatever order the threads of a mapping of less than 2^63 bytes have their turns, every place of the file
  -- ends with what the thread of its chunk drew for it, and no place behind the file's end is written.
  pub run_threads_lem :
      (order : List ℕ) (memory : Memory) (x : ℕ)
      → IsSchedule (num_chunks len) order
      → run_threads random len order memory x
        ≡ (if ltb x len then random (x / chunk_size) (x % chunk_size) else memory x)
  unfolding num_chunks
  run_threads_lem order memory x (below, all) = elim (Bool-cases (ltb x len)) [
    | inl e ↦
        let inside : x < len = ground arith in
        rw e
          (gets-IsDone order x memory below inside (all (x / chunk_size) (omega (arith, inside))))
    | inr e ↦ rw e (untouched order x memory below (ground arith))
  ]
