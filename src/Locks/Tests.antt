-- ===== src/Locks/Tests.antt =====
-- One file and its locks.
use rdrive.Base.{◌≡◌, refl, codes, true, false, [], ◌∷◌, inl}
use rdrive.Locks.{FileId, Locks, Hands, hold_file_lock, try_write, no_locks, hold, write, Reach}
use rdrive.Locks.Holding.{Course, start, after, IsExclusiveFor, Course-IsExclusiveFor}
use rdrive.Locks.Reuse.{write_beside_read}

abbrev name : FileId
name = codes "f"

abbrev held_state : Locks × Hands
held_state = (record { table = (name, 0) ∷ []; next = 1; held = [] }, (name, 0) ∷ [])

abbrev written_state : Locks × Hands
written_state = (
  record {
    table = (name, 0) ∷ [];
    next = 1;
    held = (record { lock = 0; file = name; exclusive = true }) ∷ [];
  },
  (name, 0) ∷ [],
)

-- A task that writes.
one_writer : Course name written_state
unfolding hold_file_lock try_write
one_writer =
    let first : Course name held_state = after start (hold name refl) (λ x. x) in
    after first (write name 0 (inl (refl, refl)) refl) (λ x. x)

Course-IsExclusiveFor_example : IsExclusiveFor name written_state.0.held
Course-IsExclusiveFor_example = Course-IsExclusiveFor name {t = written_state} one_writer

write_beside_read_example :
    (t : Locks × Hands) × Reach (no_locks, []) t
    × (t.0.held
        ≡ (record { lock = 1; file = name; exclusive = true })
          ∷ (record { lock = 0; file = name; exclusive = false })
          ∷ [])
write_beside_read_example = write_beside_read name
