-- ===== src/Server/Files/Slots.antt =====
-- The storage as its clients see it: one place for each file of each client, under the names that the
-- hashes of the client's key, the file's key and the file's id give.
use rdrive.Base.{
  ◌≡◌, ◌≢◌, refl, ◌∙◌, ap, Bool, true, false, ◌&&◌, Option, none, some, [], ◌∷◌, ◌++◌, arith, Bytes,
  codes, bytes_eq, bytes_eq_refl, eq_of_bytes_eq, length, length-append, append_assoc,
  if◌then◌else◌,
}
use rdrive.Crypto.{Primitives}
use rdrive.Disk.{Disk, FilePath, path_eq}
use rdrive.Disk.Laws.{path_eq-append}
use rdrive.Disk.Contents.{file_at}
use rdrive.Server.{Site, MetadataFile}

pub record Slot : Type 0 where
  pub client : Bytes
  pub key : Bytes
  pub id : Bytes

unfoldable pub slot_eq : Slot → Slot → Bool
slot_eq a b = bytes_eq a.client b.client && bytes_eq a.key b.key && bytes_eq a.id b.id

-- What the clients have stored.
abbrev pub Storage : Type 0
Storage = Slot → Option (MetadataFile × Bytes)

unfoldable pub insert : Slot → MetadataFile × Bytes → Storage → Storage
insert a v st b = if slot_eq a b then some v else st b

unfoldable pub erase : Slot → Storage → Storage
erase a st b = if slot_eq a b then none else st b

abbrev both : Option MetadataFile → Option Bytes → Option (MetadataFile × Bytes)
both (some m) (some s) = some (m, s)
both _ _ = none

both-none : (o : Option MetadataFile) → both o none ≡ none
both-none none = refl
both-none (some m) = refl

abbrev pub slot_of : Primitives → Bytes → Bytes → Bytes → Slot
slot_of P client_key file_key file_id = record {
  client = P.hex (P.sha512 client_key);
  key = P.hex (P.sha256 file_key);
  id = P.hex (P.sha256 file_id);
}

module _ (C : Site) where
  abbrev pub slot_path : Slot → Bytes → FilePath
  slot_path a suffix = (C.storage_path ++ (a.client ∷ a.key ∷ [])) ++ ((a.id ++ suffix) ∷ [])

  abbrev pub read_metadata : Option Bytes → Option MetadataFile
  read_metadata none = none
  read_metadata (some s) = C.metadata.deserialize s

  -- The storage that a disk holds: where both files stand and the metadata can be read.
  unfoldable pub stored : Disk → Storage
  stored d a =
      both (read_metadata (file_at (slot_path a (codes ".meta")) d))
        (file_at (slot_path a (codes ".file")) d)

  -- The storage depends on two files for each slot.
  pub stored_same :
      (d d' : Disk) (a : Slot)
      → file_at (slot_path a (codes ".meta")) d' ≡ file_at (slot_path a (codes ".meta")) d
      → file_at (slot_path a (codes ".file")) d' ≡ file_at (slot_path a (codes ".file")) d
      → stored d' a ≡ stored d a
  unfolding stored
  stored_same d d' a e e' = rw (e, e')

  -- A slot without a content is empty.
  pub stored-none :
      (d : Disk) (a : Slot) → file_at (slot_path a (codes ".file")) d ≡ none → stored d a ≡ none
  unfolding stored
  stored-none d a e = rw e (both-none (read_metadata (file_at (slot_path a (codes ".meta")) d)))

-- Byte strings with ends of one length are equal only if fronts and ends are.
append_split :
    (x y s t : Bytes) → length s ≡ length t → bytes_eq (x ++ s) (y ++ t) ≡ true → (x ≡ y) × (s ≡ t)
append_split [] [] s t n h = (refl, eq_of_bytes_eq s t h)
append_split [] (b ∷ y) s t n h =
    absurd (omega (arith, ap length (eq_of_bytes_eq s (b ∷ y ++ t) h), length-append y t))
append_split (b ∷ x) [] s t n h =
    absurd (omega (arith, ap length (eq_of_bytes_eq (b ∷ x ++ s) t h), length-append x s))
append_split (b ∷ x) (c ∷ y) s t n h = ground (arith, append_split x y s t n)

pub slot_eq_refl : (a : Slot) → slot_eq a a ≡ true
unfolding slot_eq
slot_eq_refl a = ground (arith, bytes_eq_refl a.client, bytes_eq_refl a.key, bytes_eq_refl a.id)

pub eq_of_slot_eq : (a b : Slot) → slot_eq a b ≡ true → a ≡ b
unfolding slot_eq
eq_of_slot_eq a b h =
    ground (
      arith,
      eq_of_bytes_eq a.client b.client,
      eq_of_bytes_eq a.key b.key,
      eq_of_bytes_eq a.id b.id,
    )

module _ (C : Site) (a b : Slot) where
  pub path_eq-slot_path :
      (s t : Bytes)
      → path_eq (slot_path C a s) (slot_path C b t) ≡ (
          bytes_eq a.client b.client
          && bytes_eq a.key b.key
          && bytes_eq (a.id ++ s) (b.id ++ t)
          && true)
  path_eq-slot_path s t =
      rw
        (
          append_assoc C.storage_path (a.client ∷ a.key ∷ []) ((a.id ++ s) ∷ []),
          append_assoc C.storage_path (b.client ∷ b.key ∷ []) ((b.id ++ t) ∷ []),
        )
        (path_eq-append C.storage_path (a.client ∷ a.key ∷ (a.id ++ s) ∷ [])
            (b.client ∷ b.key ∷ (b.id ++ t) ∷ [])
          ∙ ground arith)

  -- The two files of a slot differ from those of another slot.
  pub other_slot_path :
      (s t : Bytes)
      → length s ≡ length t
      → slot_eq a b ≡ false
      → path_eq (slot_path C a s) (slot_path C b t) ≡ false
  unfolding slot_eq
  other_slot_path s t n h =
      rw (path_eq-slot_path s t)
        (ground (arith, h, append_split a.id b.id s t n, bytes_eq_refl b.id))

  -- Contents and metadata never share a path.
  pub other_suffix_path :
      (s t : Bytes)
      → length s ≡ length t
      → s ≢ t
      → path_eq (slot_path C a s) (slot_path C b t) ≡ false
  other_suffix_path s t n h =
      rw (path_eq-slot_path s t) (ground (arith, append_split a.id b.id s t n))
