-- ===== src/Catalog/Laws.antt =====
-- The two maps of a catalog agree, and its file gives it back.
use rdrive.Base.{
  codes, ◌≡◌, ◌≢◌, refl, sym, ◌∙◌, true, false, Option, none, some, List, [], ◌∷◌, ◌++◌, arith,
  Bytes, bytes_eq, bytes_eq_refl, eq_of_bytes_eq, Bool-cases, Option-cases, inl, inr, ◌⊎◌,
}
use mathlib.Core.Path.{subst}
use rdrive.Disk.{Disk, FilePath, file, node_at, write_file, read_file}
use rdrive.Disk.Laws.{node_at-put_same, write_file-eq-true}
use rdrive.Header.{Codec}
use rdrive.Catalog.{
  FileHistory, Table, Catalog, get, upsert, adjust, contains_id, track, pushed, pulled, read, write,
  update_on_push,
}

module _ {V : Type 0} where
  abbrev updated : (V → V) → V → Option V → V
  updated f v none = v
  updated f v (some w) = f w

  get-upsert_same :
      (k : Bytes) (f : V → V) (v : V) (t : Table V)
      → get k (upsert k f v t) ≡ some (updated f v (get k t))
  unfolding get upsert
  get-upsert_same k f v [] = ground (arith, bytes_eq_refl k)
  get-upsert_same k f v ((i, w) ∷ t) = ground (arith, get-upsert_same k f v t)

  get-upsert_other :
      (k j : Bytes) (f : V → V) (v : V) (t : Table V)
      → bytes_eq k j ≡ false
      → get j (upsert k f v t) ≡ get j t
  unfolding get upsert
  get-upsert_other k j f v [] h = ground arith
  get-upsert_other k j f v ((i, w) ∷ t) h =
      ground (arith, eq_of_bytes_eq i k, get-upsert_other k j f v t h)

  adjust_known :
      (k j : Bytes) (f : V → V) (t : Table V) → get j t ≢ none → get j (adjust k f t) ≢ none
  unfolding get adjust
  adjust_known k j f [] h = h
  adjust_known k j f ((i, w) ∷ t) h = elim (Bool-cases (bytes_eq i k)) [
    | inl e ↦ λ p. h (ground arith)
    | inr e ↦ elim (Bool-cases (bytes_eq i j)) [
      | inl o ↦ λ p. ground arith
      | inr o ↦ λ p. adjust_known k j f t (λ q. h (ground arith)) (ground arith)
    ]
  ]

  upsert_known :
      (k j : Bytes) (f : V → V) (v : V) (t : Table V)
      → (get j t ≢ none) ⊎ (k ≡ j)
      → get j (upsert k f v t) ≢ none
  upsert_known k j f v t h p = elim (Bool-cases (bytes_eq k j)) [
    | inl e ↦ let same : k ≡ j = eq_of_bytes_eq k j e in ground (arith, get-upsert_same k f v t)
    | inr e ↦ elim h [
      | inl known ↦ known (ground (arith, get-upsert_other k j f v t e))
      | inr same ↦ ground (arith, bytes_eq_refl j)
    ]
  ]

-- Every id of a list has a history.
abbrev pub AllKnown : List Bytes → Table FileHistory → Type 0
AllKnown [] m = Unit
AllKnown (id ∷ ids) m = (get id m ≢ none) × AllKnown ids m

-- Every id that stands under a name has a history.
abbrev pub IsConsistent : Catalog → Type 0
IsConsistent c =
    (name : Bytes) (ids : List Bytes) → get name c.file_index ≡ some ids → AllKnown ids c.file_map

-- More histories.
abbrev Grows : Table FileHistory → Table FileHistory → Type 0
Grows m m' = (id : Bytes) → get id m ≢ none → get id m' ≢ none

AllKnown-Grows :
    (ids : List Bytes) (m m' : Table FileHistory) → Grows m m' → AllKnown ids m → AllKnown ids m'
AllKnown-Grows [] m m' g h = tt
AllKnown-Grows (id ∷ ids) m m' g (k, h) = (g id k, AllKnown-Grows ids m m' g h)

AllKnown-append :
    (ids : List Bytes) (id : Bytes) (m : Table FileHistory)
    → AllKnown ids m
    → get id m ≢ none
    → AllKnown (ids ++ (id ∷ [])) m
AllKnown-append [] id m h k = (k, tt)
AllKnown-append (i ∷ ids) id m (j, h) k = (j, AllKnown-append ids id m h k)

AllKnown-track :
    (ids : List Bytes) (id : Bytes) (m : Table FileHistory)
    → AllKnown ids m
    → get id m ≢ none
    → AllKnown (track id ids) m
unfolding track
AllKnown-track ids id m h k = elim (Bool-cases (contains_id id ids)) [
  | inl e ↦ rw e h
  | inr e ↦ rw e (AllKnown-append ids id m h k)
]

-- The ids under a name that a new id joined.
tracked_known :
    (name id : Bytes) (index : Table (List Bytes)) (m : Table FileHistory)
    → ((ids : List Bytes) → get name index ≡ some ids → AllKnown ids m)
    → get id m ≢ none
    → (ids : List Bytes) → get name (upsert name (track id) (id ∷ []) index) ≡ some ids
    → AllKnown ids m
tracked_known name id index m old new ids e =
    let here = get-upsert_same name (track id) (id ∷ []) index in
    elim (Option-cases (get name index)) [
      | inl none_yet ↦
          let one : id ∷ [] ≡ ids = ground (arith, here, e, none_yet) in
          subst (λ l. AllKnown l m) one (new, tt)
      | inr (before, found) ↦
          let more : track id before ≡ ids = ground (arith, here, e, found) in
          subst (λ l. AllKnown l m) more (AllKnown-track before id m (old before found) new)
    ]

-- A pull keeps it that every id that stands under a name has a history.
pub pulled-IsConsistent :
    (timestamp id : Bytes) (c : Catalog) → IsConsistent c → IsConsistent (pulled timestamp id c)
unfolding pulled
pulled-IsConsistent timestamp id c h name ids e =
    AllKnown-Grows ids c.file_map (adjust id (λ m. record m { last_pull = timestamp }) c.file_map)
      (λ j k. adjust_known id j (λ m. record m { last_pull = timestamp }) c.file_map k)
      (h name ids e)

-- A push keeps it that every id that stands under a name has a history.
pub pushed-IsConsistent :
    (timestamp file_name id : Bytes) (c : Catalog)
    → IsConsistent c
    → IsConsistent (pushed timestamp file_name id c)
unfolding pushed
pushed-IsConsistent timestamp file_name id c h name ids e =
    let f = λ (m : FileHistory). record m { last_push = timestamp } in
    let v : FileHistory = record {
      name = file_name;
      last_push = timestamp;
      last_pull = codes "never";
    } in
    let m' = upsert id f v c.file_map in
    let grows =
      λ (j : Bytes) (k : get j c.file_map ≢ none). upsert_known id j f v c.file_map (inl k) in
    let new = upsert_known id id f v c.file_map (inr refl) in
    elim (Bool-cases (bytes_eq file_name name)) [
      | inl s ↦
          let same : file_name ≡ name = eq_of_bytes_eq file_name name s in
          tracked_known file_name id c.file_index m'
            (λ l q. AllKnown-Grows l c.file_map m' grows (h file_name l q)) new ids
            (subst (λ n. get n (upsert file_name (track id) (id ∷ []) c.file_index) ≡ some ids)
              (sym same) e)
      | inr o ↦ AllKnown-Grows ids c.file_map m' grows (
          h name ids
            (sym (get-upsert_other file_name name (track id) (id ∷ []) c.file_index o) ∙ e))
    ]

module _ (J : Codec Catalog) (path : FilePath) where
  -- A catalog whose update was written is what reading its file gives, if the system lets the file be read and
  -- its JSON is read back as this catalog.
  read-update_on_push :
      (timestamp file_name id : Bytes) (c c' : Catalog) (d d' : Disk)
      → ((s : Bytes)
          → J.serialize (pushed timestamp file_name id c) ≡ some s
          → J.deserialize s ≡ some (pushed timestamp file_name id c))
      → update_on_push J path timestamp file_name id (c, d) ≡ (true, c', d')
      → d'.fates ≡ []
      → (c' ≡ pushed timestamp file_name id c) × (read J path d' ≡ (some c', d'))
  unfolding update_on_push write read read_file
  read-update_on_push timestamp file_name id c c' d d' faithful h quiet =
      let c₁ = pushed timestamp file_name id c in
      elim (Option-cases (J.serialize c₁)) [
        | inl e ↦ absurd (ground arith)
        | inr (s, e) ↦
            let wrote : write_file path s d ≡ (true, d') = ground arith in
            let there : node_at path d'.nodes ≡ some (file s) =
              rw (write_file-eq-true path s d d' wrote) (node_at-put_same path (file s) d.nodes) in
            let same : c' ≡ c₁ = ground arith in
            let back = faithful s e in (same, ground (arith, there, quiet, back))
      ]
