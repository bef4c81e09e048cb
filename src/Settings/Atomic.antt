-- ===== src/Settings/Atomic.antt =====
-- What a reader of a file finds after an atomic write, wherever it stopped.
use rdrive.Base.{
  ◌≡◌, refl, ◌∙◌, bytes_eq, codes, none, [], ◌∷◌, ap, ◌⊎◌, inl, inr, true, false, some, arith,
  Bytes, Bool-cases, Option-cases,
}
use rdrive.Disk.{Disk, FilePath, dir, file, node_at, parent, remove, path_eq, write_file, read_file}
use rdrive.Disk.Laws.{node_at-put_same, write_file-eq-true}
use rdrive.Disk.Contents.{
  content_of, file_at, file_at-write_file, file_at-read_file, read_file-eq-some,
}
use rdrive.Settings.{
  env_path, sync_parent, rename_file, sync, atomic_write, updated_text, update_env,
}

-- The new content, and nothing else, or the old one.
abbrev pub IsOldOrNew : FilePath → Bytes → Disk → Disk → Type 0
IsOldOrNew p content d d' = (file_at p d' ≡ file_at p d) ⊎ (file_at p d' ≡ some content)

sync_nodes : (d : Disk) → (sync d).1.nodes ≡ d.nodes
unfolding sync
sync_nodes d = ground arith

module _ (tmp target : FilePath) (apart : path_eq tmp target ≡ false) where
  -- A renamed file has the content of the old place; where nothing is renamed, all stays.
  rename_file_same :
      (d : Disk)
      → (rename_file tmp target d).0 ≡ false
      → (rename_file tmp target d).1.nodes ≡ d.nodes
  unfolding rename_file
  rename_file_same d h = elim (Option-cases (node_at tmp d.nodes)) [
    | inl e ↦ ground (arith, e)
    | inr (dir, e) ↦ ground (arith, e)
    | inr (file c, e) ↦ ground (arith, e)
  ]

  rename_file_done :
      (content : Bytes) (d : Disk)
      → node_at tmp d.nodes ≡ some (file content)
      → (rename_file tmp target d).0 ≡ true
      → file_at target (rename_file tmp target d).1 ≡ some content
  unfolding rename_file
  rename_file_done content d there h =
      ground (arith, there, node_at-put_same target (file content) (remove tmp d.nodes))

  module _ (content : Bytes) (d : Disk) where
    abbrev after_write : Disk
    after_write = (write_file tmp content d).1

    abbrev after_sync : Disk
    after_sync = (sync after_write).1

    abbrev after_rename : Disk
    after_rename = (rename_file tmp target after_sync).1

    olafter_sync : file_at target after_sync ≡ file_at target d
    olafter_sync =
        ap (λ t. content_of (node_at target t)) (sync_nodes after_write)
        ∙ file_at-write_file tmp target content d apart

    in_place :
        (write_file tmp content d).0 ≡ true → node_at tmp after_sync.nodes ≡ some (file content)
    in_place h =
        let made : write_file tmp content d ≡ (true, after_write) = ground (arith, h) in
        rw (sync_nodes after_write, write_file-eq-true tmp content d after_write made)
          (node_at-put_same tmp (file content) d.nodes)

    -- An atomic write, by where it stopped.
    atomic_write_either : IsOldOrNew target content d (atomic_write tmp target content d).1
    unfolding atomic_write sync_parent
    atomic_write_either = elim (Bool-cases (write_file tmp content d).0) [
      | inr failed ↦ inl (ground (arith, failed, file_at-write_file tmp target content d apart))
      | inl made ↦ elim (Bool-cases (sync after_write).0) [
        | inr failed ↦ inl (ground (arith, made, failed, olafter_sync))
        | inl synced ↦ elim (Bool-cases (rename_file tmp target after_sync).0) [
          | inr failed ↦ inl (
              ground
                (arith, made, synced, failed, olafter_sync, rename_file_same after_sync failed))
          | inl renamed ↦
              let fresh = rename_file_done content after_sync (in_place made) renamed in
              inr (ground (arith, made, synced, renamed, fresh, sync_nodes after_rename))
        ]
      ]
    ]

    -- A temporary file in the current directory.
    atomic_write_reports : parent tmp ≡ [] → (atomic_write tmp target content d).0 ≡ false
    unfolding atomic_write sync_parent
    atomic_write_reports here = elim (Bool-cases (write_file tmp content d).0) [
      | inr failed ↦ ground (arith, failed)
      | inl made ↦ elim (Bool-cases (sync after_write).0) [
        | inr failed ↦ ground (arith, made, failed)
        | inl synced ↦ elim (Bool-cases (rename_file tmp target after_sync).0) [
          | inr failed ↦ ground (arith, made, synced, failed)
          | inl renamed ↦ ground (arith, made, synced, renamed, here)
        ]
      ]
    ]

-- However an update of the settings ends, and wherever a write to the temporary file broke off, the settings file
-- holds its old text or the updated one, whole; and the update reports a failure even where the file was renamed.
pub update_env_either :
    (tmp_name field value content : Bytes) (d : Disk)
    → bytes_eq tmp_name (codes ".env") ≡ false
    → file_at env_path d ≡ some content
    → IsOldOrNew env_path
        (updated_text field value content).0
        d
        (update_env tmp_name field value d).1
      × ((update_env tmp_name field value d).0 ≡ none)
unfolding update_env parent
update_env_either tmp_name field value content d other there =
    let tmp : FilePath = tmp_name ∷ [] in
    let apart : path_eq tmp env_path ≡ false = ground arith in
    elim (Option-cases (read_file env_path d).0) [
      | inl unread ↦ (
        inl (ground (arith, unread, file_at-read_file env_path env_path d)),
        ground (arith, unread),
      )
      | inr (c, got) ↦
          let same : c ≡ content = ground (arith, read_file-eq-some env_path d c got, there) in
          let text = (updated_text field value content).0 in
          let opened = (read_file env_path d).1 in
          (
            elim (atomic_write_either tmp env_path apart text opened) [
              | inl old ↦
                  inl (ground (arith, got, same, old, file_at-read_file env_path env_path d))
              | inr new ↦ inr (ground (arith, got, same, new))
            ],
            ground (arith, got, same, atomic_write_reports tmp env_path apart text opened refl),
          )
    ]
