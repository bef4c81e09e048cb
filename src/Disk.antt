-- ===== src/Disk.antt =====
-- The file system as `tokio::fs` and `std::path` of src/protocol_v1.rs and src/lib.rs use it: a table of
-- directories and files by their paths. Each operation that can fail besides takes its fate from a list, a write one
-- more for each byte;
-- where that is used up, the system does what is asked.
pub mod Laws
pub mod Contents
pub mod Parents
pub mod Join
use rdrive.Base.{
  ℕ, ◌+◌, Bool, true, false, not, ◌&&◌, ◌||◌, Option, none, some, List, [], ◌∷◌, ◌++◌, Bytes,
  bytes_eq, is_empty, if◌then◌else◌,
}

-- A path by its components.
abbrev pub FilePath : Type 0
FilePath = List Bytes

pub data Node : Type 0 where
  dir : Node
  file : Bytes → Node

abbrev pub Nodes : Type 0
Nodes = List (FilePath × Node)

pub record Disk : Type 0 where
  pub nodes : Nodes
  pub fates : List Bool

abbrev pub path_eq : FilePath → FilePath → Bool
path_eq [] [] = true
path_eq (x ∷ p) (y ∷ q) = bytes_eq x y && path_eq p q
path_eq _ _ = false

unfoldable pub node_at : FilePath → Nodes → Option Node
node_at p [] = none
node_at p ((q, n) ∷ t) = if path_eq q p then some n else node_at p t

unfoldable pub put : FilePath → Node → Nodes → Nodes
put p n [] = (p, n) ∷ []
put p n ((q, m) ∷ t) = if path_eq q p then (p, n) ∷ t else (q, m) ∷ put p n t

unfoldable pub remove : FilePath → Nodes → Nodes
remove p [] = []
remove p ((q, m) ∷ t) = let rest = remove p t in if path_eq q p then rest else (q, m) ∷ rest

abbrev pub is_dir_node : Option Node → Bool
is_dir_node (some dir) = true
is_dir_node _ = false

abbrev pub is_some : {A : Type 0} → Option A → Bool
is_some (some a) = true
is_some none = false

-- `path.exists()`, `path.is_dir()`
abbrev pub exists : FilePath → Disk → Bool
exists p d = is_some (node_at p d.nodes)

abbrev pub is_dir : FilePath → Disk → Bool
is_dir p d = is_dir_node (node_at p d.nodes)

-- Whether the system lets the next operation through.
abbrev pub spend : Disk → Bool × Disk
spend d = elim d.fates [ [] ↦ (true, d) | b ∷ bs ↦ (b, record d { fates = bs }) ]

-- An operation on the table, or none where it cannot be done: whether it was done.
abbrev pub commit : Option Nodes → Disk → Bool × Disk
commit none d = (false, d)
commit (some t) d = (true, record d { nodes = t })

abbrev pub attempt : (Nodes → Option Nodes) → Disk → Bool × Disk
attempt f d = let (granted, d') = spend d in if granted then commit (f d'.nodes) d' else (false, d')

-- The directories from a path on, one by one.
unfoldable pub make_dirs : FilePath → FilePath → Nodes → Option Nodes
make_dirs above [] t = some t
make_dirs above (x ∷ p) t =
    let here = above ++ (x ∷ []) in
    elim (node_at here t) [
      | none ↦ make_dirs here p (put here dir t)
      | some n ↦ elim n [ dir ↦ make_dirs here p t | file s ↦ none ]
    ]

unfoldable pub create_dir_all : FilePath → Disk → Bool × Disk
create_dir_all p = attempt (make_dirs [] p)

-- The directory that a path stands in; a path of one component stands in the current one.
unfoldable pub parent : FilePath → FilePath
parent [] = []
parent (x ∷ []) = []
parent (x ∷ y ∷ p) = x ∷ parent (y ∷ p)

abbrev pub is_dir_path : FilePath → Nodes → Bool
is_dir_path [] t = true
is_dir_path (x ∷ p) t = is_dir_node (node_at (x ∷ p) t)

-- Whether a file can be created or truncated there: its directory stands, and it is no directory itself.
abbrev pub can_create : FilePath → Nodes → Bool
can_create p t = is_dir_path (parent p) t && not (is_dir_path p t)

-- What of a content gets into a file, one fate for each byte, whether that is all, and the fates that are left.
abbrev pub poured : List Bool → Bytes → Bytes × Bool × List Bool
poured [] s = (s, true, [])
poured (f ∷ fs) [] = ([], true, f ∷ fs)
poured (f ∷ fs) (b ∷ s) =
    let (into, done, left) = poured fs s in if f then (b ∷ into, done, left) else ([], false, fs)

-- `write_all`, to the file that was created or truncated at a path.
abbrev pub pour : FilePath → Bytes → Disk → Bool × Disk
pour p content d =
    let (into, done, left) = poured d.fates content in
    (done, record d { nodes = put p (file into) d.nodes; fates = left })

-- `File::create` and what is written to it until it is closed, or `std::fs::write`. A write that breaks off leaves
-- what it has written.
unfoldable pub write_file : FilePath → Bytes → Disk → Bool × Disk
write_file p content d =
    let (granted, d') = spend d in
    if granted && can_create p d'.nodes then pour p content d' else (false, d')

unfoldable pub remove_file : FilePath → Disk → Bool × Disk
remove_file p = attempt (λ t. elim (node_at p t) [
  | none ↦ none
  | some n ↦ elim n [ dir ↦ none | file s ↦ some (remove p t) ]
])

-- `File::open` and reading all of it, or `std::fs::read`.
unfoldable pub read_file : FilePath → Disk → Option Bytes × Disk
read_file p d =
    let (granted, d') = spend d in
    if granted
    then (
      elim (node_at p d'.nodes) [ none ↦ none | some n ↦ elim n [ dir ↦ none | file s ↦ some s ] ],
      d',
    )
    else (none, d')

-- What stands behind a prefix of a path.
abbrev pub below : FilePath → FilePath → Option FilePath
below [] q = some q
below (x ∷ p) [] = none
below (x ∷ p) (y ∷ q) = if bytes_eq x y then below p q else none

-- Whether something stands in a directory.
unfoldable pub occupied : FilePath → Nodes → Bool
occupied p [] = false
occupied p ((q, n) ∷ t) =
    let rest = occupied p t in elim (below p q) [ none ↦ rest | some r ↦ not (is_empty r) || rest ]

unfoldable pub moved : FilePath → FilePath → Nodes → Nodes
moved p p' [] = []
moved p p' ((q, n) ∷ t) =
    let rest = moved p p' t in
    elim (below p q) [ none ↦ (q, n) ∷ rest | some r ↦ (p' ++ r, n) ∷ rest ]

-- `rename` of a directory: the target is new or an empty directory.
unfoldable pub rename : FilePath → FilePath → Disk → Bool × Disk
rename p p' = attempt (λ t.
    if not (is_dir_node (node_at p t))
    then none
    else (if path_eq p p' then some t else elim (node_at p' t) [
      | none ↦ some (moved p p' t)
      | some n ↦ elim n [
        | dir ↦ if occupied p' t then none else some (moved p p' (remove p' t))
        | file s ↦ none
      ]
    ]))

-- The directories that stand right under a path, as `read_dir` lists them.
unfoldable pub dirs_in : FilePath → Nodes → ℕ
dirs_in p [] = 0
dirs_in p ((q, n) ∷ t) =
    let rest = dirs_in p t in
    elim (below p q) [
      | none ↦ rest
      | some r ↦ elim r [
        | [] ↦ rest
        | x ∷ r' ↦ if is_empty r' && is_dir_node (some n) then 1 + rest else rest
      ]
    ]
