-- ===== src/Locks.antt =====
-- src/lib.rs, `SHARED_FILE_LOCK` with `hold_file_lock` and `release_file_lock`, and the use that
-- `handle_upload` and `handle_download` of src/protocol_v1.rs make of them.
-- A lock object (`Arc<RwLock<()>>`) is a number, and tokio's lock grants what it documents: any number of readers,
-- or one writer; the guards that are alive stand in a list.
pub mod Exclusion
pub mod Holding
pub mod Reuse
pub mod Tests
use rdrive.Base.{
  ℕ, ◌+◌, ◌≡◌, Bool, true, false, ◌&&◌, Option, none, some, List, [], ◌∷◌, Bytes, bytes_eq, ◌==◌,
  if◌then◌else◌, not, ◌⊎◌,
}

abbrev pub FileId : Type 0
FileId = Bytes

abbrev pub LockId : Type 0
LockId = ℕ

-- A guard of a lock object, for the file that its task works on; `exclusive` guards write.
pub record Guard : Type 0 where
  pub lock : LockId
  pub file : FileId
  pub exclusive : Bool

pub record Locks : Type 0 where
  -- The shared map from file ids to lock objects.
  pub table : List (FileId × LockId)
  -- The number of the next lock object to be made.
  pub next : LockId
  pub held : List Guard

abbrev pub find : FileId → List (FileId × LockId) → Option LockId
find f [] = none
find f ((g, l) ∷ t) = if bytes_eq g f then some l else find f t

abbrev pub erase : FileId → List (FileId × LockId) → List (FileId × LockId)
erase f [] = []
erase f ((g, l) ∷ t) = let rest = erase f t in if bytes_eq g f then rest else (g, l) ∷ rest

-- `map.entry(file_id).or_insert_with(…).clone()`
unfoldable pub hold_file_lock : FileId → Locks → LockId × Locks
hold_file_lock f s = elim (find f s.table) [
  | some l ↦ (l, s)
  | none ↦ (s.next, record s { table = (f, s.next) ∷ s.table; next = s.next + 1 })
]

unfoldable pub release_file_lock : FileId → Locks → Locks
release_file_lock f s = record s { table = erase f s.table }

-- Whether a lock object has a guard, and whether it has an exclusive one.
abbrev pub guarded : LockId → List Guard → Bool
guarded l [] = false
guarded l (g ∷ gs) = if g.lock == l then true else guarded l gs

abbrev pub written : LockId → List Guard → Bool
written l [] = false
written l (g ∷ gs) = if (g.lock == l) && g.exclusive then true else written l gs

-- `try_write` and `try_read`, by the task that works on the file.
unfoldable pub try_write : LockId → FileId → Locks → Option Locks
try_write l f s =
    if guarded l s.held
    then none
    else some (record s { held = (record { lock = l; file = f; exclusive = true }) ∷ s.held })

unfoldable pub try_read : LockId → FileId → Locks → Option Locks
try_read l f s =
    if written l s.held
    then none
    else some (record s { held = (record { lock = l; file = f; exclusive = false }) ∷ s.held })

abbrev same_mode : Bool → Bool → Bool
same_mode true b = b
same_mode false b = not b

-- Dropping a guard: the first that is alike, since alike guards cannot be told apart.
abbrev pub drop_first : LockId → FileId → Bool → List Guard → List Guard
drop_first l f x [] = []
drop_first l f x (g ∷ gs) =
    let rest = drop_first l f x gs in
    if (g.lock == l) && bytes_eq g.file f && same_mode g.exclusive x then gs else g ∷ rest

unfoldable pub drop_guard : LockId → FileId → Bool → Locks → Locks
drop_guard l f x s = record s { held = drop_first l f x s.held }

abbrev pub no_locks : Locks
no_locks = record { table = []; next = 0; held = [] }

-- The lock objects that tasks have taken from the map, each for its file.
abbrev pub Hands : Type 0
Hands = List (FileId × LockId)

abbrev pub InHand : FileId → LockId → Hands → Type 0
InHand f l [] = ⊥
InHand f l ((g, m) ∷ h) = ((g ≡ f) × (m ≡ l)) ⊎ InHand f l h

-- A step of one of the connections' tasks. Between any two steps those of other tasks may stand.
pub data Step : Locks × Hands → Locks × Hands → Type 0 where
  -- `hold_file_lock`
  hold :
      (f : FileId) {l : LockId} {s t : Locks} {h : Hands}
      → hold_file_lock f s ≡ (l, t)
      → Step (s, h) (t, (f, l) ∷ h)
  -- `try_write` of an upload, or `try_read` of a download, on the lock object in hand.
  write :
      (f : FileId) (l : LockId) {s t : Locks} {h : Hands}
      → InHand f l h
      → try_write l f s ≡ some t
      → Step (s, h) (t, h)
  read :
      (f : FileId) (l : LockId) {s t : Locks} {h : Hands}
      → InHand f l h
      → try_read l f s ≡ some t
      → Step (s, h) (t, h)
  -- The guard goes out of scope, on any way out of the handler.
  unlock :
      (f : FileId) (l : LockId) (x : Bool) {s t : Locks} {h : Hands}
      → InHand f l h
      → drop_guard l f x s ≡ t
      → Step (s, h) (t, h)
  -- `release_file_lock`, by a task that has come to the end of its handler.
  release :
      (f : FileId) (l : LockId) {s t : Locks} {h : Hands}
      → InHand f l h
      → release_file_lock f s ≡ t
      → Step (s, h) (t, h)

pub data Reach (s : Locks × Hands) : Locks × Hands → Type 0 where
  here : Reach s s
  then_ : {t u : Locks × Hands} → Reach s t → Step t u → Reach s u
