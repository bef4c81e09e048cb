-- ===== src/Settings.antt =====
-- src/bin/server.rs, `update_env` and `atomic_write`: changing one setting in the text of `.env`.
pub mod Update
pub mod Lines
pub mod Atomic
pub mod Environment
pub mod Log
pub mod Tests
use rdrive.Base.{
  ℕ, Bool, true, false, not, ◌&&◌, Option, none, some, List, [], ◌∷◌, ◌++◌, Bytes, bytes_eq, map,
  codes, is_empty, ◌==◌, if◌then◌else◌,
}
use rdrive.Base.Text.{trim}
use rdrive.Disk.{
  Disk, FilePath, dir, file, node_at, put, remove, attempt, write_file, read_file, spend, parent,
  is_dir_node,
}

abbrev pub newline : ℕ
newline = 10

abbrev pub return : ℕ
return = 13

abbrev starting : ℕ → List Bytes → List Bytes
starting c [] = (c ∷ []) ∷ []
starting c (l ∷ ls) = (c ∷ l) ∷ ls

-- The pieces of a text, each with its end of line; the last one may have none.
unfoldable pub pieces : Bytes → List Bytes
pieces [] = []
pieces (c ∷ s) =
    let rest = pieces s in if c == newline then (newline ∷ []) ∷ rest else starting c rest

-- A piece without its end of line, `\n` or `\r\n`.
unfoldable pub strip_end : Bytes → Bytes
strip_end [] = []
strip_end (c ∷ []) = if c == newline then [] else c ∷ []
strip_end (c ∷ d ∷ s) =
    let rest = strip_end (d ∷ s) in
    if c == return && (d == newline && is_empty s) then [] else c ∷ rest

-- `content.lines()`
unfoldable pub lines : Bytes → List Bytes
lines s = map strip_end (pieces s)

abbrev before : ℕ → Option (Bytes × Bytes) → Option (Bytes × Bytes)
before c none = none
before c (some (k, v)) = some (c ∷ k, v)

-- `line.split_once('=')`
unfoldable pub split_once : Bytes → Option (Bytes × Bytes)
split_once [] = none
split_once (c ∷ s) = let rest = split_once s in if c == b'=' then some ([], s) else before c rest

-- `lines.join("\n")`
unfoldable pub join : List Bytes → Bytes
join [] = []
join (l ∷ []) = l
join (l ∷ m ∷ ls) = l ++ (newline ∷ join (m ∷ ls))

unfoldable pub ends_with_newline : Bytes → Bool
ends_with_newline [] = false
ends_with_newline (c ∷ []) = c == newline
ends_with_newline (c ∷ d ∷ s) = ends_with_newline (d ∷ s)

-- Whether a line sets this field.
abbrev names : Bytes → Option (Bytes × Bytes) → Bool
names field none = false
names field (some (env_field, _)) = bytes_eq (trim env_field) field

unfoldable pub sets : Bytes → Bytes → Bool
sets field line = names field (split_once line)

-- `format!("{field}={value}")`
abbrev pub assignment : Bytes → Bytes → Bytes
assignment field value = field ++ (b'=' ∷ value)

-- The loop over the lines, and whether it found the field.
unfoldable pub replaced : Bytes → Bytes → List Bytes → List Bytes × Bool
replaced field value [] = ([], false)
replaced field value (line ∷ ls) =
    let (rest, updated) = replaced field value ls in
    if sets field line then (assignment field value ∷ rest, true) else (line ∷ rest, updated)

unfoldable pub updated_lines : Bytes → Bytes → List Bytes → List Bytes × Bool
updated_lines field value ls =
    let (ls', updated) = replaced field value ls in
    if updated then (ls', true) else (ls' ++ (assignment field value ∷ []), false)

-- `if !content.ends_with('\n') { content.push('\n') }`
unfoldable pub ended : Bytes → Bytes
ended text = if ends_with_newline text then text else text ++ (newline ∷ [])

unfoldable pub updated_text : Bytes → Bytes → Bytes → Bytes × Bool
updated_text field value content =
    let (ls, updated) = updated_lines field value (lines content) in (ended (join ls), updated)

-- `std::fs::rename` of a file.
unfoldable pub rename_file : FilePath → FilePath → Disk → Bool × Disk
rename_file p p' = attempt (λ t. elim (node_at p t) [
  | none ↦ none
  | some n ↦ elim n [
    | dir ↦ none
    | file s ↦ if is_dir_node (node_at p' t) then none else some (put p' (file s) (remove p t))
  ]
])

-- `sync_all` of a file or a directory: only whether it is done.
unfoldable pub sync : Disk → Bool × Disk
sync d = spend d

-- `File::open` and `sync_all` of the directory that a path stands in. The parent of a relative path of one component
-- is the empty path, which cannot be opened.
unfoldable pub sync_parent : FilePath → Disk → Bool × Disk
sync_parent p d = if is_empty (parent p) then (false, d) else sync d

-- `atomic_write`, by the name that it chooses for the temporary file: whether it succeeds.
unfoldable pub atomic_write : FilePath → FilePath → Bytes → Disk → Bool × Disk
atomic_write tmp target content d =
    let (written, d₁) = write_file tmp content d in
    if not written
    then (false, d₁)
    else (let (synced, d₂) = sync d₁ in
        if not synced
        then (false, d₂)
        else (let (renamed, d₃) = rename_file tmp target d₂ in
            if not renamed then (false, d₃) else sync_parent tmp d₃))

-- Relative to the current directory.
abbrev pub env_path : FilePath
env_path = codes ".env" ∷ []

-- `update_env`: whether the field was there, if nothing fails.
unfoldable pub update_env : Bytes → Bytes → Bytes → Disk → Option Bool × Disk
update_env tmp_name field value d =
    let (found, d') = read_file env_path d in
    elim found [
      | none ↦ (none, d')
      | some content ↦
          (let (text, updated) = updated_text field value content in
            let (done, d'') = atomic_write (tmp_name ∷ []) env_path text d' in
            (if done then some updated else none, d''))
    ]
