-- ===== src/Catalog.antt =====
-- src/lib.rs, `Catalog`: the client's list of the files that it has pushed, kept as JSON in a file. The two
-- hash maps are association lists; the JSON text is a parameter, a Codec.
pub mod Laws
pub mod Tests
use rdrive.Base.{
  ℕ, Bool, true, false, ◌||◌, Option, none, some, List, [], ◌∷◌, ◌++◌, Bytes, bytes_eq, codes,
  if◌then◌else◌,
}
use rdrive.Disk.{Disk, FilePath, exists, create_dir_all, write_file, read_file}
use rdrive.Header.{Codec}

pub record FileHistory : Type 0 where
  pub name : Bytes
  pub last_push : Bytes
  pub last_pull : Bytes

abbrev pub Table : Type 0 → Type 0
Table V = List (Bytes × V)

pub record Catalog : Type 0 where
  -- File ids to their histories, and file names to file ids.
  pub file_map : Table FileHistory
  pub file_index : Table (List Bytes)

module _ {V : Type 0} where
  unfoldable pub get : Bytes → Table V → Option V
  get k [] = none
  get k ((j, v) ∷ t) = if bytes_eq j k then some v else get k t

  -- `entry(k).and_modify(f).or_insert(v)`
  unfoldable pub upsert : Bytes → (V → V) → V → Table V → Table V
  upsert k f v [] = (k, v) ∷ []
  upsert k f v ((j, w) ∷ t) =
      let rest = upsert k f v t in if bytes_eq j k then (j, f w) ∷ t else (j, w) ∷ rest

  -- `if let Some(v) = get_mut(k) { *v = f(v) }`
  unfoldable pub adjust : Bytes → (V → V) → Table V → Table V
  adjust k f [] = []
  adjust k f ((j, w) ∷ t) =
      let rest = adjust k f t in if bytes_eq j k then (j, f w) ∷ t else (j, w) ∷ rest

unfoldable pub contains_id : Bytes → List Bytes → Bool
contains_id k [] = false
contains_id k (j ∷ ids) = bytes_eq j k || contains_id k ids

-- `if !tracked.contains(id) { tracked.push(id) }`
unfoldable pub track : Bytes → List Bytes → List Bytes
track id tracked = if contains_id id tracked then tracked else tracked ++ (id ∷ [])

-- `update_on_push` and `update_on_pull`, in memory.
unfoldable pub pushed : Bytes → Bytes → Bytes → Catalog → Catalog
pushed timestamp file_name file_id c = record c {
  file_map =
      upsert file_id (λ m. record m { last_push = timestamp })
        (record { name = file_name; last_push = timestamp; last_pull = codes "never" }) c.file_map;
  file_index = upsert file_name (track file_id) (file_id ∷ []) c.file_index;
}

unfoldable pub pulled : Bytes → Bytes → Catalog → Catalog
pulled timestamp file_id c = record c {
  file_map = adjust file_id (λ m. record m { last_pull = timestamp }) c.file_map;
}

abbrev pub empty_catalog : Catalog
empty_catalog = record { file_map = []; file_index = [] }

module _ (J : Codec Catalog) (path : FilePath) where
  abbrev parsed : Option Bytes → Option Catalog
  parsed none = none
  parsed (some s) = J.deserialize s

  unfoldable pub read : Disk → Option Catalog × Disk
  read d = let (s, d') = read_file path d in (parsed s, d')

  -- Whether it was written.
  unfoldable pub write : Catalog → Disk → Bool × Disk
  write c d = elim (J.serialize c) [ none ↦ (false, d) | some s ↦ write_file path s d ]

  unfoldable pub read_or_create : FilePath → Disk → Option Catalog × Disk
  read_or_create parent d =
      let (made, d') = create_dir_all parent d in
      if made then (if exists path d' then read d' else (some empty_catalog, d')) else (none, d')

  -- The catalog in memory changes whether it is written or not.
  unfoldable pub update_on_push : Bytes → Bytes → Bytes → Catalog × Disk → Bool × Catalog × Disk
  update_on_push timestamp file_name file_id (c, d) =
      let c' = pushed timestamp file_name file_id c in let (done, d') = write c' d in (done, c', d')

  unfoldable pub update_on_pull : Bytes → Bytes → Catalog × Disk → Bool × Catalog × Disk
  update_on_pull timestamp file_id (c, d) =
      let c' = pulled timestamp file_id c in let (done, d') = write c' d in (done, c', d')
