-- ===== src/Layer.antt =====
-- src/layer.rs: files cut into layers of a fixed size, each with its hash and its offset. A file is its
-- content; reading and writing it is left to Disk. `size` is `LAYER_SIZE`, and the loops run on fuel, for which
-- the length of the content is enough.
pub mod RoundTrip
pub mod Compare
pub mod Tests
use rdrive.Base.{
  ℕ, zero, suc, ◌+◌, ◌*◌, Bool, true, false, ◌&&◌, Option, none, some, List, [], ◌∷◌, ◌++◌, Bytes,
  bytes_eq, is_empty, length, take, drop, leb, ◌==◌, if◌then◌else◌,
}
use rdrive.Crypto.{Primitives}

abbrev pub layer_size : ℕ
layer_size = 1024 * 1024 * 64

pub record LayerMeta : Type 0 where
  pub hash : Bytes
  pub mem_offset : ℕ

pub record Layer : Type 0 where
  pub data_bytes : Bytes
  pub layer_meta : LayerMeta

module _ (P : Primitives) where
  abbrev pub meta_of : Bytes → ℕ → LayerMeta
  meta_of buffer mem_offset = record { hash = P.hex (P.sha256 buffer); mem_offset = mem_offset }

  -- `read_file_layer`, from an offset on, on what stands behind it.
  unfoldable pub read_file_layer : ℕ → ℕ → ℕ → Bytes → List LayerMeta
  read_file_layer zero size mem_offset s = []
  read_file_layer (suc fuel) size mem_offset s =
      let buffer = take size s in
      let rest = read_file_layer fuel size (mem_offset + length buffer) (drop size s) in
      if is_empty buffer then [] else meta_of buffer mem_offset ∷ rest

  unfoldable pub read_data_layer : ℕ → ℕ → Bytes → Option Layer
  read_data_layer size mem_offset s =
      let buffer = take size (drop mem_offset s) in
      if is_empty buffer
      then none
      else some (record { data_bytes = buffer; layer_meta = meta_of buffer mem_offset })

  -- `to_layers`, from an offset on, on what stands behind it.
  unfoldable pub to_layers : ℕ → ℕ → ℕ → Bytes → List Layer
  to_layers zero size mem_offset s = []
  to_layers (suc fuel) size mem_offset s =
      let buffer = take size s in
      let rest = to_layers fuel size (mem_offset + length buffer) (drop size s) in
      if is_empty buffer
      then []
      else record { data_bytes = buffer; layer_meta = meta_of buffer mem_offset } ∷ rest

-- `sort_by_key`, which is stable.
unfoldable pub insert_layer : Layer → List Layer → List Layer
insert_layer x [] = x ∷ []
insert_layer x (y ∷ ys) =
    let rest = insert_layer x ys in
    if leb x.layer_meta.mem_offset y.layer_meta.mem_offset then x ∷ y ∷ ys else y ∷ rest

unfoldable pub sort_layers : List Layer → List Layer
sort_layers [] = []
sort_layers (x ∷ xs) = insert_layer x (sort_layers xs)

abbrev pub joined : List Layer → Bytes
joined [] = []
joined (x ∷ xs) = x.data_bytes ++ joined xs

-- `from_layers`: the content of the file that it writes.
unfoldable pub from_layers : List Layer → Bytes
from_layers layers = joined (sort_layers layers)

-- Whether the destination has the layer, at its offset.
unfoldable pub has_layer : Layer → List Layer → Bool
has_layer x [] = false
has_layer x (y ∷ ys) =
    if (y.layer_meta.mem_offset == x.layer_meta.mem_offset)
      && bytes_eq y.layer_meta.hash x.layer_meta.hash
    then true
    else has_layer x ys

unfoldable pub compare_layers : List Layer → List Layer → List Layer
compare_layers [] des = []
compare_layers (x ∷ xs) des =
    let rest = compare_layers xs des in if has_layer x des then rest else x ∷ rest
