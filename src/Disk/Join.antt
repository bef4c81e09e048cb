-- ===== src/Disk/Join.antt =====
-- `output.join(name)` as the system resolves it, on Unix and where no symbolic links stand. A path is the list of its
-- components from the root.
use rdrive.Base.{
  ℕ, ◌≡◌, refl, Bool, true, false, not, ◌&&◌, ◌||◌, Option, none, some, List, [], ◌∷◌, ◌++◌, arith,
  Bytes, bytes_eq, codes, ◌==◌, if◌then◌else◌,
}
use rdrive.Disk.{FilePath, Nodes, parent, is_dir_path}

unfoldable pub contains : ℕ → Bytes → Bool
contains c [] = false
contains c (b ∷ s) = (b == c) || contains c s

abbrev starting : Bytes → List Bytes → List Bytes
starting c [] = c ∷ []
starting c (x ∷ xs) = (c ++ x) ∷ xs

-- The pieces between the slashes.
unfoldable pub split_slash : Bytes → List Bytes
split_slash [] = [] ∷ []
split_slash (c ∷ s) =
    let rest = split_slash s in if c == b'/' then [] ∷ rest else starting (c ∷ []) rest

abbrev pub is_absolute : Bytes → Bool
is_absolute [] = false
is_absolute (c ∷ s) = c == b'/'

abbrev pub is_here : Bytes → Bool
is_here x = bytes_eq x [] || bytes_eq x (codes ".")

-- From a path on, piece by piece: the system looks up what a dot, two dots or a doubled slash stands behind.
unfoldable pub walk : Nodes → FilePath → List Bytes → Option FilePath
walk t here [] = some here
walk t here (x ∷ xs) =
    let stay = walk t here xs in
    let up = walk t (parent here) xs in
    let down = walk t (here ++ (x ∷ [])) xs in
    if contains 0 x
    then none
    else (if is_here x
        then (if is_dir_path here t then stay else none)
        else (if bytes_eq x (codes "..") then (if is_dir_path here t then up else none) else down))

unfoldable pub path_join : Nodes → FilePath → Bytes → Option FilePath
path_join t output name = walk t (if is_absolute name then [] else output) (split_slash name)

-- A name of one component.
abbrev pub is_plain : Bytes → Bool
is_plain x =
    not (contains b'/' x)
    && (not (contains 0 x) && (not (is_here x) && not (bytes_eq x (codes ".."))))

split_slash_plain : (x : Bytes) → contains b'/' x ≡ false → split_slash x ≡ x ∷ []
unfolding contains split_slash
split_slash_plain [] h = refl
split_slash_plain (c ∷ s) h = ground (arith, split_slash_plain s)

not_absolute : (x : Bytes) → contains b'/' x ≡ false → is_absolute x ≡ false
unfolding contains
not_absolute [] h = refl
not_absolute (c ∷ s) h = ground arith

-- A plain name is a component behind the directory.
pub path_join_plain :
    (t : Nodes) (output : FilePath) (x : Bytes)
    → is_plain x ≡ true
    → path_join t output x ≡ some (output ++ (x ∷ []))
unfolding path_join walk
path_join_plain t output x h =
    let whole : contains b'/' x ≡ false = ground arith in
    let no_nul : contains 0 x ≡ false = ground arith in
    let away : is_here x ≡ false = ground arith in
    let no_up : bytes_eq x (codes "..") ≡ false = ground arith in
    rw (not_absolute x whole, split_slash_plain x whole, no_nul, away, no_up) refl
