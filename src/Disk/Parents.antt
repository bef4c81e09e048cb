-- ===== src/Disk/Parents.antt =====
-- The directories that files stand in.
use rdrive.Base.{
  ◌≡◌, refl, sym, ◌∙◌, ap, true, false, inl, inr, some, [], ◌∷◌, ◌++◌, arith, Bytes, Option-cases,
  Bool-cases, append-nil, append_assoc,
}
use rdrive.Disk.{
  Disk, FilePath, dir, file, Nodes, path_eq, node_at, put, parent, is_dir_path, make_dirs,
  create_dir_all, write_file, is_dir,
}
use rdrive.Disk.Contents.{write_file_granted}
use rdrive.Disk.Laws.{node_at-put_same, node_at-put_other, eq_of_path_eq, path_eq-append}

pub parent-append : (p : FilePath) (x : Bytes) → parent (p ++ (x ∷ [])) ≡ p
unfolding parent
parent-append [] x = refl
parent-append (y ∷ []) x = refl
parent-append (y ∷ z ∷ p) x = ap (λ q. y ∷ q) (parent-append (z ∷ p) x)

pub path_eq_child : (p : FilePath) (x : Bytes) → path_eq (p ++ (x ∷ [])) p ≡ false
path_eq_child p x = ap (path_eq (p ++ (x ∷ []))) (sym (append-nil p)) ∙ path_eq-append p (x ∷ []) []

-- A file that is written leaves the directories.
pub is_dir_path-put :
    (p q : FilePath) (c : Bytes) (t : Nodes)
    → path_eq p q ≡ false
    → is_dir_path q (put p (file c) t) ≡ is_dir_path q t
is_dir_path-put p [] c t h = refl
is_dir_path-put p (x ∷ q) c t h = rw (node_at-put_other p (x ∷ q) (file c) t h) refl

put_dir : (p q : FilePath) (t : Nodes) → node_at q t ≡ some dir → node_at q (put p dir t) ≡ some dir
put_dir p q t h = elim (Bool-cases (path_eq p q)) [
  | inl same ↦ rw (← eq_of_path_eq p q same) (node_at-put_same p dir t)
  | inr other ↦ node_at-put_other p q dir t other ∙ h
]

make_dirs_kept :
    (above p q : FilePath) (t t' : Nodes)
    → make_dirs above p t ≡ some t'
    → node_at q t ≡ some dir
    → node_at q t' ≡ some dir
unfolding make_dirs
make_dirs_kept above [] q t t' h k = ground (arith, h, k)
make_dirs_kept above (x ∷ p) q t t' h k =
    let next = above ++ (x ∷ []) in
    elim (Option-cases (node_at next t)) [
      | inl e ↦
          make_dirs_kept next p q (put next dir t) t' (ground (arith, h, e)) (put_dir next q t k)
      | inr (dir, e) ↦ make_dirs_kept next p q t t' (ground (arith, h, e)) k
      | inr (file c, e) ↦ absurd (ground (arith, h, e))
    ]

make_dirs_made :
    (above : FilePath) (x : Bytes) (p : FilePath) (t t' : Nodes)
    → make_dirs above (x ∷ p) t ≡ some t'
    → node_at (above ++ (x ∷ p)) t' ≡ some dir
unfolding make_dirs
make_dirs_made above x [] t t' h =
    let next = above ++ (x ∷ []) in
    elim (Option-cases (node_at next t)) [
      | inl e ↦
          let same : put next dir t ≡ t' = ground (arith, h, e) in
          rw (← same) (node_at-put_same next dir t)
      | inr (dir, e) ↦ ground (arith, h, e)
      | inr (file c, e) ↦ absurd (ground (arith, h, e))
    ]
make_dirs_made above x (y ∷ p) t t' h =
    let next = above ++ (x ∷ []) in
    let whole = ap (λ q. node_at q t') (append_assoc above (x ∷ []) (y ∷ p)) in
    elim (Option-cases (node_at next t)) [
      | inl e ↦ sym whole ∙ make_dirs_made next y p (put next dir t) t' (ground (arith, h, e))
      | inr (dir, e) ↦ sym whole ∙ make_dirs_made next y p t t' (ground (arith, h, e))
      | inr (file c, e) ↦ absurd (ground (arith, h, e))
    ]

pub create_dir_all_made :
    (p : FilePath) (d d' : Disk) → create_dir_all p d ≡ (true, d') → is_dir_path p d'.nodes ≡ true
unfolding create_dir_all
create_dir_all_made [] d d' h = refl
create_dir_all_made (x ∷ p) d d' h = elim (Option-cases (make_dirs [] (x ∷ p) d.nodes)) [
  | inl e ↦ absurd (ground (arith, h, e))
  | inr (t, e) ↦ ground (arith, h, e, make_dirs_made [] x p d.nodes t e)
]

is_dir_path_child :
    (p : FilePath) (x : Bytes) (d : Disk)
    → is_dir_path (p ++ (x ∷ [])) d.nodes ≡ is_dir (p ++ (x ∷ [])) d
is_dir_path_child [] x d = refl
is_dir_path_child (y ∷ p) x d = refl

-- A write to a new or an old file of a directory that stands.
pub write_file_in :
    (p : FilePath) (x c : Bytes) (d : Disk)
    → d.fates ≡ []
    → is_dir_path p d.nodes ≡ true
    → is_dir (p ++ (x ∷ [])) d ≡ false
    → write_file (p ++ (x ∷ [])) c d
      ≡ (true, record d { nodes = put (p ++ (x ∷ [])) (file c) d.nodes })
write_file_in p x c d quiet home free =
    write_file_granted (p ++ (x ∷ [])) c d quiet
      (ap (λ q. is_dir_path q d.nodes) (parent-append p x) ∙ home) (is_dir_path_child p x d ∙ free)
