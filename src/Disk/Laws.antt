-- ===== src/Disk/Laws.antt =====
-- What a lookup finds after an operation.
use rdrive.Base.{
  ◌≡◌, refl, ap, sym, ◌∙◌, ◌⊎◌, inl, inr, Bool-cases, ◌&&◌, Bool, List, true, false, some, [], ◌∷◌,
  ◌++◌, arith, Bytes, bytes_eq, bytes_eq_refl, eq_of_bytes_eq,
}
use rdrive.Disk.{
  Disk, FilePath, Node, file, Nodes, path_eq, node_at, put, poured, pour, spend, can_create,
  write_file,
}

pub path_eq_refl : (p : FilePath) → path_eq p p ≡ true
path_eq_refl [] = refl
path_eq_refl (x ∷ p) = ground (arith, bytes_eq_refl x, path_eq_refl p)

pub eq_of_path_eq : (p q : FilePath) → path_eq p q ≡ true → p ≡ q
eq_of_path_eq [] [] h = refl
eq_of_path_eq [] (y ∷ q) h = cc
eq_of_path_eq (x ∷ p) [] h = cc
eq_of_path_eq (x ∷ p) (y ∷ q) h = ground (arith, eq_of_bytes_eq x y, eq_of_path_eq p q)

-- Byte strings with a common front differ where the rest does.
pub bytes_eq-append : (x s t : Bytes) → bytes_eq (x ++ s) (x ++ t) ≡ bytes_eq s t
bytes_eq-append [] s t = refl
bytes_eq-append (b ∷ x) s t = ground (arith, bytes_eq-append x s t)

pub path_eq-append : (p q r : FilePath) → path_eq (p ++ q) (p ++ r) ≡ path_eq q r
path_eq-append [] q r = refl
path_eq-append (x ∷ p) q r = ground (arith, bytes_eq_refl x, path_eq-append p q r)

pub node_at-put_same : (p : FilePath) (n : Node) (t : Nodes) → node_at p (put p n t) ≡ some n
unfolding node_at put
node_at-put_same p n [] = ground (arith, path_eq_refl p)
node_at-put_same p n ((q, m) ∷ t) = ground (arith, path_eq_refl p, node_at-put_same p n t)

pub node_at-put_other :
    (p q : FilePath) (n : Node) (t : Nodes)
    → path_eq p q ≡ false
    → node_at q (put p n t) ≡ node_at q t
unfolding node_at put
node_at-put_other p q n [] h = ground arith
node_at-put_other p q n ((r, m) ∷ t) h =
    ground (arith, eq_of_path_eq r p, node_at-put_other p q n t)

-- A write that is not broken off writes all.
pub poured_done :
    (fates : List Bool) (s : Bytes) → (poured fates s).1 ≡ true → (poured fates s).0 ≡ s
poured_done [] s h = refl
poured_done (f ∷ fs) [] h = refl
poured_done (true ∷ fs) (b ∷ s) h = ap (λ t. b ∷ t) (poured_done fs s h)
poured_done (false ∷ fs) (b ∷ s) h = absurd (ground arith)

pour-eq-true :
    (p : FilePath) (s : Bytes) (d d' : Disk)
    → pour p s d ≡ (true, d')
    → d'.nodes ≡ put p (file s) d.nodes
pour-eq-true p s d d' h =
    sym (ap (λ r. r.1.nodes) h)
    ∙ ap (λ x. put p (file x) d.nodes) (poured_done d.fates s (ap (λ r. r.0) h))

pub spend_nodes : (d : Disk) → (spend d).1.nodes ≡ d.nodes
spend_nodes d = ground arith

-- The two ends of a write.
pub write_file-cases :
    (p : FilePath) (s : Bytes) (d : Disk)
    → (write_file p s d ≡ pour p s (spend d).1) ⊎ (write_file p s d ≡ (false, (spend d).1))
unfolding write_file
write_file-cases p s d = elim (Bool-cases ((spend d).0 && can_create p (spend d).1.nodes)) [
  | inl e ↦ inl (rw e refl)
  | inr e ↦ inr (rw e refl)
]

-- A write that was done.
pub write_file-eq-true :
    (p : FilePath) (s : Bytes) (d d' : Disk)
    → write_file p s d ≡ (true, d')
    → d'.nodes ≡ put p (file s) d.nodes
write_file-eq-true p s d d' h = elim (write_file-cases p s d) [
  | inl e ↦ pour-eq-true p s (spend d).1 d' (sym e ∙ h) ∙ ap (put p (file s)) (spend_nodes d)
  | inr e ↦ let no : ◌≡◌ {A = Bool} false true = ap (λ r. r.0) (sym e ∙ h) in absurd (ground arith)
]
