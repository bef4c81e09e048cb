-- ===== src/Locks/Reuse.antt =====
-- What `release_file_lock` does to the locks of others.
use rdrive.Base.{ℕ, ◌≡◌, refl, true, false, List, [], ◌∷◌, arith, bytes_eq_refl, inl}
use rdrive.Locks.{
  FileId, Guard, Locks, Hands, hold_file_lock, release_file_lock, try_write, try_read, drop_guard,
  no_locks, hold, write, read, unlock, release, Reach, here, then_,
}

abbrev guard : ℕ → FileId → Guard
guard l f = record { lock = l; file = f; exclusive = false }

abbrev locks : List (FileId × ℕ) → ℕ → List Guard → Locks
locks table next held = record { table = table; next = next; held = held }

-- For every file there is a run of the tasks, from no locks at all, to a state in which one task has the
-- right to write the file and another one the right to read it: their guards are of two lock objects.
pub write_beside_read :
    (f : FileId)
    → (t : Locks × Hands) × Reach (no_locks, []) t
      × (t.0.held
          ≡ (record { lock = 1; file = f; exclusive = true })
            ∷ (record { lock = 0; file = f; exclusive = false })
            ∷ [])
unfolding hold_file_lock release_file_lock try_write try_read drop_guard
write_beside_read f =
    let own = bytes_eq_refl f in
    let shared = (f, 0) ∷ [] in
    let hands₂ = (f, 0) ∷ (f, 0) ∷ [] in
    let r₁ : Reach (no_locks, []) (locks shared 1 [], (f, 0) ∷ []) = then_ here (hold f refl) in
    let r₂ : Reach (no_locks, []) (locks shared 1 (guard 0 f ∷ []), (f, 0) ∷ []) =
      then_ r₁ (read f 0 (inl (refl, refl)) refl) in
    let r₃ : Reach (no_locks, []) (locks shared 1 (guard 0 f ∷ []), hands₂) =
      then_ r₂ (hold f (ground (arith, own))) in
    let r₄ : Reach (no_locks, []) (locks shared 1 (guard 0 f ∷ guard 0 f ∷ []), hands₂) =
      then_ r₃ (read f 0 (inl (refl, refl)) refl) in
    let r₅ : Reach (no_locks, []) (locks shared 1 (guard 0 f ∷ []), hands₂) =
      then_ r₄ (unlock f 0 false (inl (refl, refl)) (rw own refl)) in
    let r₆ : Reach (no_locks, []) (locks [] 1 (guard 0 f ∷ []), hands₂) =
      then_ r₅ (release f 0 (inl (refl, refl)) (rw own refl)) in
    let r₇ : Reach (no_locks, []) (locks ((f, 1) ∷ []) 2 (guard 0 f ∷ []), (f, 1) ∷ hands₂) =
      then_ r₆ (hold f refl) in
    (_, then_ r₇ (write f 1 (inl (refl, refl)) refl), refl)
