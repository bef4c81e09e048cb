-- ===== src/Disk/Contents.antt =====
-- The files of a disk, and what each operation does to them.
use rdrive.Base.{
  true, ◌≡◌, refl, ◌∙◌, ap, Bool, false, Option, none, some, [], ◌∷◌, ◌++◌, arith, Bytes,
  Option-cases, Bool-cases, inl, inr,
}
use rdrive.Disk.{
  Disk, FilePath, Node, dir, file, Nodes, path_eq, node_at, put, remove, make_dirs, create_dir_all,
  write_file, remove_file, read_file, is_dir, exists, spend, poured, parent, is_dir_path,
}
use rdrive.Disk.Laws.{
  write_file-cases, spend_nodes, node_at-put_same, node_at-put_other, eq_of_path_eq,
  write_file-eq-true,
}

abbrev pub content_of : Option Node → Option Bytes
content_of none = none
content_of (some dir) = none
content_of (some (file s)) = some s

-- The content of the file at a path, if there is one.
abbrev pub file_at : FilePath → Disk → Option Bytes
file_at p d = content_of (node_at p d.nodes)

pub node_at-remove_other :
    (p q : FilePath) (t : Nodes) → path_eq p q ≡ false → node_at q (remove p t) ≡ node_at q t
unfolding node_at remove
node_at-remove_other p q [] h = refl
node_at-remove_other p q ((r, m) ∷ t) h =
    ground (arith, eq_of_path_eq r p, node_at-remove_other p q t)

pub node_at-remove_same : (p : FilePath) (t : Nodes) → node_at p (remove p t) ≡ none
unfolding node_at remove
node_at-remove_same p [] = refl
node_at-remove_same p ((r, m) ∷ t) = ground (arith, node_at-remove_same p t)

new_dir :
    (p q : FilePath) (t : Nodes)
    → node_at p t ≡ none
    → content_of (node_at q (put p dir t)) ≡ content_of (node_at q t)
new_dir p q t e = elim (Bool-cases (path_eq p q)) [
  | inl same ↦ let s : p ≡ q = eq_of_path_eq p q same in rw (← s, node_at-put_same p dir t, e) refl
  | inr other ↦ ap content_of (node_at-put_other p q dir t other)
]

make_dirs_content :
    (above p q : FilePath) (t t' : Nodes)
    → make_dirs above p t ≡ some t'
    → content_of (node_at q t') ≡ content_of (node_at q t)
unfolding make_dirs
make_dirs_content above [] q t t' h = ground arith
make_dirs_content above (x ∷ p) q t t' h =
    let next = above ++ (x ∷ []) in
    elim (Option-cases (node_at next t)) [
      | inl e ↦
          make_dirs_content next p q (put next dir t) t' (ground (arith, h, e)) ∙ new_dir next q t e
      | inr (dir, e) ↦ make_dirs_content next p q t t' (ground (arith, h, e))
      | inr (file c, e) ↦ absurd (ground (arith, h, e))
    ]

-- Every operation keeps the content of the other files, whether it is done or not.
pub file_at-create_dir_all :
    (p q : FilePath) (d : Disk) → file_at q (create_dir_all p d).1 ≡ file_at q d
unfolding create_dir_all
file_at-create_dir_all p q d = elim (Option-cases (make_dirs [] p d.nodes)) [
  | inl e ↦ ground (arith, e)
  | inr (t, e) ↦ ground (arith, e, make_dirs_content [] p q d.nodes t e)
]

pub file_at-read_file : (p q : FilePath) (d : Disk) → file_at q (read_file p d).1 ≡ file_at q d
unfolding read_file
file_at-read_file p q d = ground arith

pub file_at-write_file :
    (p q : FilePath) (content : Bytes) (d : Disk)
    → path_eq p q ≡ false
    → file_at q (write_file p content d).1 ≡ file_at q d
file_at-write_file p q content d h = elim (write_file-cases p content d) [
  | inl e ↦
      ap (λ r. file_at q r.1) e
      ∙ ap content_of
          (node_at-put_other p q (file (poured (spend d).1.fates content).0) (spend d).1.nodes h)
      ∙ ap (λ t. content_of (node_at q t)) (spend_nodes d)
  | inr e ↦ ap (λ r. file_at q r.1) e ∙ ap (λ t. content_of (node_at q t)) (spend_nodes d)
]

pub file_at-remove_file :
    (p q : FilePath) (d : Disk) → path_eq p q ≡ false → file_at q (remove_file p d).1 ≡ file_at q d
unfolding remove_file
file_at-remove_file p q d h = ground (arith, node_at-remove_other p q d.nodes)

-- A read that succeeds returns the content of the file.
pub read_file-eq-some :
    (p : FilePath) (d : Disk) (c : Bytes) → (read_file p d).0 ≡ some c → file_at p d ≡ some c
unfolding read_file
read_file-eq-some p d c h = ground arith

-- Where the system grants everything, it goes on so.
pub create_dir_all_fates :
    (p : FilePath) (d d' : Disk) (b : Bool)
    → create_dir_all p d ≡ (b, d')
    → d.fates ≡ []
    → d'.fates ≡ []
unfolding create_dir_all
create_dir_all_fates p d d' b h e = elim (Option-cases (make_dirs [] p d.nodes)) [
  | inl none_made ↦ ground (arith, h, none_made)
  | inr (t, made) ↦ ground (arith, h, made)
]

pub write_file_fates :
    (p : FilePath) (s : Bytes) (d d' : Disk) (b : Bool)
    → write_file p s d ≡ (b, d')
    → d.fates ≡ []
    → d'.fates ≡ []
unfolding write_file
write_file_fates p s d d' b h e = ground arith

-- A file that is removed is gone.
pub remove_file-gone :
    (p : FilePath) (s : Bytes) (d : Disk)
    → d.fates ≡ []
    → node_at p d.nodes ≡ some (file s)
    → file_at p (remove_file p d).1 ≡ none
unfolding remove_file
remove_file-gone p s d e there = ground (arith, node_at-remove_same p d.nodes)

pub file_at-write_file_done :
    (p : FilePath) (c : Bytes) (d d' : Disk) → write_file p c d ≡ (true, d') → file_at p d' ≡ some c
file_at-write_file_done p c d d' e =
    rw (write_file-eq-true p c d d' e, node_at-put_same p (file c) d.nodes) refl

-- A file that is there is read.
pub read_file-of_file :
    (p : FilePath) (c : Bytes) (d : Disk)
    → d.fates ≡ []
    → file_at p d ≡ some c
    → read_file p d ≡ (some c, d)
unfolding read_file
read_file-of_file p c d quiet there = ground arith

-- A write that the system grants, to a path where no directory stands.
pub write_file_granted :
    (p : FilePath) (c : Bytes) (d : Disk)
    → d.fates ≡ []
    → is_dir_path (parent p) d.nodes ≡ true
    → is_dir_path p d.nodes ≡ false
    → write_file p c d ≡ (true, record d { nodes = put p (file c) d.nodes })
unfolding write_file
write_file_granted p c d quiet home free = rw (quiet, home, free) refl

pub is_dir-put_file :
    (p : FilePath) (c : Bytes) (d : Disk)
    → is_dir p (record d { nodes = put p (file c) d.nodes }) ≡ false
is_dir-put_file p c d = rw (node_at-put_same p (file c) d.nodes) refl

pub exists-of_file :
    (p : FilePath) (c : Bytes) (d : Disk) → file_at p d ≡ some c → exists p d ≡ true
exists-of_file p c d there = elim (Option-cases (node_at p d.nodes)) [
  | inl e ↦ absurd (ground (arith, e, there))
  | inr (n, e) ↦ rw e refl
]
