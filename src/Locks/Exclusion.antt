-- ===== src/Locks/Exclusion.antt =====
-- What a lock object guarantees.
use rdrive.Base.{◌≡◌, refl, Bool, true, false, some, List, [], ◌∷◌, arith}
use mathlib.Core.Path.{subst}
use rdrive.Locks.{
  FileId, LockId, Guard, Locks, Hands, hold_file_lock, release_file_lock, guarded, written,
  try_write, try_read, drop_first, drop_guard, no_locks, Step, hold, write, read, unlock, release,
  Reach, here, then_,
}

-- A guard beside others: on the same lock object, all of them share.
abbrev pub Shares : Guard → List Guard → Type 0
Shares g [] = Unit
Shares g (h ∷ hs) = (g.lock ≡ h.lock → (g.exclusive ≡ false) × (h.exclusive ≡ false)) × Shares g hs

-- No two guards of one lock object of which one is exclusive.
abbrev pub IsExclusive : List Guard → Type 0
IsExclusive [] = Unit
IsExclusive (g ∷ gs) = Shares g gs × IsExclusive gs

Shares-unguarded : (g : Guard) (gs : List Guard) → guarded g.lock gs ≡ false → Shares g gs
Shares-unguarded g [] e = tt
Shares-unguarded g (h ∷ hs) e =
    (λ same. absurd (ground arith), Shares-unguarded g hs (ground arith))

Shares-unwritten :
    (g : Guard) (gs : List Guard) → g.exclusive ≡ false → written g.lock gs ≡ false → Shares g gs
Shares-unwritten g [] x e = tt
Shares-unwritten g (h ∷ hs) x e =
    (λ same. (x, ground arith), Shares-unwritten g hs x (ground arith))

Shares-drop :
    (g : Guard) (l : LockId) (f : FileId) (x : Bool) (gs : List Guard)
    → Shares g gs
    → Shares g (drop_first l f x gs)
Shares-drop g l f x [] s = tt
Shares-drop g l f x (h ∷ hs) (k, s) = ground (arith, Shares-drop g l f x hs s)

IsExclusive-drop :
    (l : LockId) (f : FileId) (x : Bool) (gs : List Guard)
    → IsExclusive gs
    → IsExclusive (drop_first l f x gs)
IsExclusive-drop l f x [] e = tt
IsExclusive-drop l f x (g ∷ gs) (k, e) =
    ground (arith, IsExclusive-drop l f x gs e, Shares-drop g l f x gs k)

held_hold : (f : FileId) (l : LockId) (s t : Locks) → hold_file_lock f s ≡ (l, t) → t.held ≡ s.held
unfolding hold_file_lock
held_hold f l s t e = ground arith

held_release : (f : FileId) (s t : Locks) → release_file_lock f s ≡ t → t.held ≡ s.held
unfolding release_file_lock
held_release f s t e = ground arith

write-IsExclusive :
    (f : FileId) (l : LockId) (s t : Locks)
    → try_write l f s ≡ some t
    → IsExclusive s.held
    → IsExclusive t.held
unfolding try_write
write-IsExclusive f l s t e ex =
    let g : Guard = record { lock = l; file = f; exclusive = true } in
    ground (arith, Shares-unguarded g s.held)

read-IsExclusive :
    (f : FileId) (l : LockId) (s t : Locks)
    → try_read l f s ≡ some t
    → IsExclusive s.held
    → IsExclusive t.held
unfolding try_read
read-IsExclusive f l s t e ex =
    let g : Guard = record { lock = l; file = f; exclusive = false } in
    ground (arith, Shares-unwritten g s.held refl)

drop-IsExclusive :
    (f : FileId) (l : LockId) (x : Bool) (s t : Locks)
    → drop_guard l f x s ≡ t
    → IsExclusive s.held
    → IsExclusive t.held
unfolding drop_guard
drop-IsExclusive f l x s t e ex =
    subst (λ u. IsExclusive u.held) e (IsExclusive-drop l f x s.held ex)

Step-IsExclusive : {s t : Locks × Hands} → Step s t → IsExclusive s.0.held → IsExclusive t.0.held
Step-IsExclusive (hold f {l} {s} {t} e) ex = rw (held_hold f l s t e) ex
Step-IsExclusive (write f l {s} {t} h e) ex = write-IsExclusive f l s t e ex
Step-IsExclusive (read f l {s} {t} h e) ex = read-IsExclusive f l s t e ex
Step-IsExclusive (unlock f l x {s} {t} h e) ex = drop-IsExclusive f l x s t e ex
Step-IsExclusive (release f l {s} {t} h e) ex = rw (held_release f s t e) ex

-- However the steps of the tasks interleave, a lock object never has two guards one of which is exclusive.
pub Reach-IsExclusive : {t : Locks × Hands} → Reach (no_locks, []) t → IsExclusive t.0.held
Reach-IsExclusive here = tt
Reach-IsExclusive (then_ r st) = Step-IsExclusive st (Reach-IsExclusive r)
