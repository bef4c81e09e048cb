-- ===== src/Locks/Holding.antt =====
-- What the map of lock objects guarantees for one file, as long as its entry stays.
use rdrive.Base.{
  ◌≡◌, ◌≢◌, refl, sym, ◌∙◌, ap, Bool, true, false, Option, none, some, List, [], ◌∷◌, arith,
  bytes_eq, bytes_eq_refl, eq_of_bytes_eq, inl, inr, Bool-cases, Option-cases, if◌then◌else◌,
}
use mathlib.Core.Path.{subst}
use rdrive.Locks.{
  FileId, LockId, Guard, Locks, Hands, InHand, find, erase, guarded, written, hold_file_lock,
  release_file_lock, try_write, try_read, drop_first, drop_guard, no_locks, Step, hold, write, read,
  unlock, release, Reach, here, then_,
}
use rdrive.Locks.Exclusion.{IsExclusive, Shares, Reach-IsExclusive}

-- A step that takes the entry of a file from the map.
abbrev pub Releases : FileId → {s t : Locks × Hands} → Step s t → Type 0
Releases f (hold _ _) = ⊥
Releases f (write _ _ _ _) = ⊥
Releases f (read _ _ _ _) = ⊥
Releases f (unlock _ _ _ _ _) = ⊥
Releases f (release g _ _ _) = g ≡ f

-- The states that are reached without such a step; the entries of other files may be taken.
pub data Course (f : FileId) : Locks × Hands → Type 0 where
  start : Course f (no_locks, [])
  after : {t u : Locks × Hands} → Course f t → (st : Step t u) → (Releases f st → ⊥) → Course f u

-- No two guards for a file of which one is exclusive, whatever their lock objects are.
abbrev pub SharesFile : FileId → Guard → List Guard → Type 0
SharesFile f g [] = Unit {0}
SharesFile f g (h ∷ hs) =
    (g.file ≡ f → h.file ≡ f → (g.exclusive ≡ false) × (h.exclusive ≡ false)) × SharesFile f g hs

abbrev pub IsExclusiveFor : FileId → List Guard → Type 0
IsExclusiveFor f [] = Unit {0}
IsExclusiveFor f (g ∷ gs) = SharesFile f g gs × IsExclusiveFor f gs

-- Every lock object that was taken for a file, and every guard for it, is the one of its entry.
abbrev OfEntry : FileId → Option LockId → Hands → Type 0
OfEntry f e [] = Unit {0}
OfEntry f e ((g, l) ∷ h) = (g ≡ f → e ≡ some l) × OfEntry f e h

abbrev AreOfEntry : FileId → Option LockId → List Guard → Type 0
AreOfEntry f e [] = Unit {0}
AreOfEntry f e (g ∷ gs) = (g.file ≡ f → e ≡ some g.lock) × AreOfEntry f e gs

IsKept : FileId → Locks × Hands → Type 0
IsKept f (s, h) = OfEntry f (find f s.table) h × AreOfEntry f (find f s.table) s.held

-- Where there is no entry yet, nothing was taken, so that any entry will do.
hands_fresh : (f : FileId) (e : Option LockId) (h : Hands) → OfEntry f none h → OfEntry f e h
hands_fresh f e [] k = tt
hands_fresh f e ((g, l) ∷ h) (k, ks) =
    (λ same. absurd (ground (arith, (k same))), hands_fresh f e h ks)

held_fresh :
    (f : FileId) (e : Option LockId) (gs : List Guard) → AreOfEntry f none gs → AreOfEntry f e gs
held_fresh f e [] k = tt
held_fresh f e (g ∷ gs) (k, ks) = (λ same. absurd (ground (arith, (k same))), held_fresh f e gs ks)

entry_of_hand :
    (f : FileId) (g : FileId) (l : LockId) (e : Option LockId) (h : Hands)
    → OfEntry f e h
    → InHand g l h
    → g ≡ f
    → e ≡ some l
entry_of_hand f g l e [] k x same = elim x [ ]
entry_of_hand f g l e ((g', m) ∷ h) (k, ks) (inl (a, b)) same = k (a ∙ same) ∙ ap some b
entry_of_hand f g l e ((g', m) ∷ h) (k, ks) (inr more) same = entry_of_hand f g l e h ks more same

held_drop :
    (f : FileId) (e : Option LockId) (l : LockId) (g : FileId) (x : Bool) (gs : List Guard)
    → AreOfEntry f e gs
    → AreOfEntry f e (drop_first l g x gs)
held_drop f e l g x [] k = tt
held_drop f e l g x (h ∷ hs) (k, ks) = ground (arith, held_drop f e l g x hs ks)

find-erase : (f g : FileId) (t : List (FileId × LockId)) → g ≢ f → find f (erase g t) ≡ find f t
find-erase f g [] n = refl
find-erase f g ((j, l) ∷ t) n =
    ground (arith, find-erase f g t n, eq_of_bytes_eq j g, eq_of_bytes_eq j f)

hold-IsKept :
    (f g : FileId) (l : LockId) (s t : Locks) (h : Hands)
    → hold_file_lock g s ≡ (l, t)
    → IsKept f (s, h)
    → IsKept f (t, (g, l) ∷ h)
unfolding hold_file_lock IsKept
hold-IsKept f g l s t h e (hands, held) = elim (Option-cases (find g s.table)) [
  | inr (m, known) ↦
      let lock : m ≡ l = ap (λ r. r.0) (rw (hold_file_lock, known) at e) in
      let same : s ≡ t = ap (λ r. r.1) (rw (hold_file_lock, known) at e) in
      let new : g ≡ f → find f s.table ≡ some l =
        λ q. ap (λ x. find x s.table) (sym q) ∙ known ∙ ap some lock in
      subst (λ x. OfEntry f (find f x.table) ((g, l) ∷ h) × AreOfEntry f (find f x.table) x.held)
        same ((new, hands), held)
  | inl unknown ↦
      let lock : s.next ≡ l = ap (λ r. r.0) (rw (hold_file_lock, unknown) at e) in
      let same = ap (λ r. r.1) (rw (hold_file_lock, unknown) at e) in
      subst (λ x. OfEntry f (find f x.table) ((g, l) ∷ h) × AreOfEntry f (find f x.table) x.held)
        same
        (elim (Bool-cases (bytes_eq g f)) [
          | inl own ↦
              let q : g ≡ f = eq_of_bytes_eq g f own in
              let none_yet : find f s.table ≡ none = ap (λ x. find x s.table) (sym q) ∙ unknown in
              let entry : find f ((g, s.next) ∷ s.table) ≡ some s.next = rw own refl in
              subst (λ z. OfEntry f z ((g, l) ∷ h) × AreOfEntry f z s.held) (sym entry)
                (
                  (
                    λ _. ap some lock,
                    hands_fresh f (some s.next) h (subst (λ z. OfEntry f z h) none_yet hands),
                  ),
                  held_fresh f (some s.next) s.held
                      (subst (λ z. AreOfEntry f z s.held) none_yet held),
                )
          | inr other ↦
              let entry : find f ((g, s.next) ∷ s.table) ≡ find f s.table = rw other refl in
              subst (λ z. OfEntry f z ((g, l) ∷ h) × AreOfEntry f z s.held) (sym entry)
                ((λ q. absurd (ground (arith, other, q, bytes_eq_refl f)), hands), held)
        ])
]

write-IsKept :
    (f g : FileId) (l : LockId) (x : Bool) (e : Option LockId) (gs : List Guard) (h : Hands)
    → InHand g l h
    → OfEntry f e h
    → AreOfEntry f e gs
    → AreOfEntry f e ((record { lock = l; file = g; exclusive = x }) ∷ gs)
write-IsKept f g l x e gs h hand hands held = (entry_of_hand f g l e h hands hand, held)

guard_added : (b : Bool) (s t u : Locks) → (if b then none else some u) ≡ some t → u ≡ t
guard_added true s t u e = absurd (ground (arith, e))
guard_added false s t u e = ap (λ o. elim o [ none ↦ s | some v ↦ v ]) e

-- The steps, by what they do to the entry, the hands and the guards.
Step-IsKept :
    (f : FileId) {s t : Locks × Hands} (st : Step s t)
    → (Releases f st → ⊥)
    → IsKept f s
    → IsKept f t
unfolding IsKept try_write try_read drop_guard release_file_lock
Step-IsKept f (hold g {l} {s} {t} {h} e) spared k = hold-IsKept f g l s t h e k
Step-IsKept f (write g l {s} {t} {h} hand e) spared (hands, held) =
    subst (λ u. IsKept f (u, h))
      (guard_added (guarded l s.held) s t
        (record s { held = (record { lock = l; file = g; exclusive = true }) ∷ s.held }) e)
      (hands, write-IsKept f g l true (find f s.table) s.held h hand hands held)
Step-IsKept f (read g l {s} {t} {h} hand e) spared (hands, held) =
    subst (λ u. IsKept f (u, h))
      (guard_added (written l s.held) s t
        (record s { held = (record { lock = l; file = g; exclusive = false }) ∷ s.held }) e)
      (hands, write-IsKept f g l false (find f s.table) s.held h hand hands held)
Step-IsKept f (unlock g l x {s} {t} {h} hand e) spared (hands, held) =
    subst (λ u. IsKept f (u, h)) e (hands, held_drop f (find f s.table) l g x s.held held)
Step-IsKept f (release g l {s} {t} {h} hand e) spared (hands, held) =
    let entry = find-erase f g s.table spared in
    subst (λ u. IsKept f (u, h)) e
      (subst (λ z. OfEntry f z h × AreOfEntry f z s.held) (sym entry) (hands, held))

Course-IsKept : (f : FileId) {t : Locks × Hands} → Course f t → IsKept f t
unfolding IsKept
Course-IsKept f start = (tt, tt)
Course-IsKept f (after r st spared) = Step-IsKept f st spared (Course-IsKept f r)

reached : (f : FileId) {t : Locks × Hands} → Course f t → Reach (no_locks, []) t
reached f start = here
reached f (after r st spared) = then_ (reached f r) st

some_injective : {l m : LockId} → ◌≡◌ {A = Option LockId} (some l) (some m) → l ≡ m
some_injective {l} {m} e = ground (arith, e)

shares_file :
    (f : FileId) (e : Option LockId) (g : Guard) (gs : List Guard)
    → (g.file ≡ f → e ≡ some g.lock)
    → AreOfEntry f e gs
    → Shares g gs
    → SharesFile f g gs
shares_file f e g [] own k s = tt
shares_file f e g (h ∷ hs) own (k, ks) (both, s) =
    (λ p q. both (some_injective (sym (own p) ∙ k q)), shares_file f e g hs own ks s)

exclusive_for :
    (f : FileId) (e : Option LockId) (gs : List Guard)
    → AreOfEntry f e gs
    → IsExclusive gs
    → IsExclusiveFor f gs
exclusive_for f e [] k x = tt
exclusive_for f e (g ∷ gs) (k, ks) (s, x) = (shares_file f e g gs k ks s, exclusive_for f e gs ks x)

-- As long as no task takes a file's entry from the map, all tasks that work on the file share one lock object:
-- however their steps and those on other files interleave, a guard that writes the file is its only one.
pub Course-IsExclusiveFor :
    (f : FileId) {t : Locks × Hands} → Course f t → IsExclusiveFor f t.0.held
unfolding IsKept
Course-IsExclusiveFor f {t} r =
    exclusive_for f (find f t.0.table) t.0.held (Course-IsKept f r).1
      (Reach-IsExclusive (reached f r))
