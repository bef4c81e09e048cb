-- ===== src/Dummy/Tests.antt =====
-- A file of one chunk and five bytes, filled by two threads, the second one first.
use rdrive.Base.{ℕ, ◌+◌, ◌*◌, ◌<◌, ◌≡◌, refl, codes, List, [], ◌∷◌, arith, inl, inr, zero, suc}
use rdrive.Base.Text.{parse_usize, digits}
use rdrive.Dummy.{chunk_size, num_chunks, usage, generate, read_args, size_bytes, run_threads}
use rdrive.Dummy.Filled.{Has, IsSchedule, run_threads_lem}

two_megabytes :
    read_args (codes "dummy" ∷ codes "2" ∷ codes "out" ∷ []) ≡ generate 2097152 (codes "out")
unfolding read_args parse_usize digits size_bytes
two_megabytes = refl

no_path : read_args (codes "dummy" ∷ codes "2" ∷ []) ≡ usage
unfolding read_args
no_path = refl

abbrev numbered : ℕ → ℕ → ℕ
numbered i n = i * 10 + n

abbrev second_first : List ℕ
second_first = 1 ∷ 0 ∷ []

both_run : (i : ℕ) → i < 2 → Has i second_first
both_run zero h = inr (inl refl)
both_run (suc zero) h = inl refl
both_run (suc (suc i)) h = absurd (omega arith)

second_first-IsSchedule : IsSchedule (num_chunks (chunk_size + 5)) second_first
unfolding num_chunks
second_first-IsSchedule = (omega arith, both_run)

run_threads_lem_example :
    run_threads numbered (chunk_size + 5) second_first (λ x. 0) (chunk_size + 3) ≡ 13
run_threads_lem_example =
    run_threads_lem numbered (chunk_size + 5) (omega arith) second_first (λ x. 0) (chunk_size + 3)
      second_first-IsSchedule
