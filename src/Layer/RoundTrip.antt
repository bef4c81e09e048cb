-- ===== src/Layer/RoundTrip.antt =====
-- Cutting a file and joining it again.
use rdrive.Base.{
  ℕ, zero, suc, ◌+◌, ◌<◌, ◌≤◌, ◌≡◌, refl, true, false, List, [], ◌∷◌, map, arith, Bytes, is_empty,
  length, take, drop, length-take, length-drop, take-append-drop, Bool-cases, inl, inr,
}
use rdrive.Crypto.{Primitives}
use rdrive.Layer.{Layer, read_file_layer, to_layers, insert_layer, sort_layers, joined, from_layers}

-- No offset lies before the first one given.
abbrev pub IsFrom : ℕ → List Layer → Type 0
IsFrom n [] = Unit
IsFrom n (x ∷ xs) = (n ≤ x.layer_meta.mem_offset) × IsFrom x.layer_meta.mem_offset xs

insert_layer_first :
    (x : Layer) (xs : List Layer) → IsFrom x.layer_meta.mem_offset xs → insert_layer x xs ≡ x ∷ xs
unfolding insert_layer
insert_layer_first x [] h = refl
insert_layer_first x (y ∷ ys) h = ground arith

sort_layers_sorted : (n : ℕ) (xs : List Layer) → IsFrom n xs → sort_layers xs ≡ xs
unfolding sort_layers
sort_layers_sorted n [] h = refl
sort_layers_sorted n (x ∷ xs) (lo, h) =
    rw (sort_layers_sorted x.layer_meta.mem_offset xs h) (insert_layer_first x xs h)

IsFrom-earlier : (m n : ℕ) (xs : List Layer) → m ≤ n → IsFrom n xs → IsFrom m xs
IsFrom-earlier m n [] lo h = tt
IsFrom-earlier m n (x ∷ xs) lo h = (omega arith, h.1)

empty_take : (n : ℕ) (s : Bytes) → 0 < n → is_empty (take n s) ≡ true → s ≡ []
unfolding take
empty_take zero s pos h = absurd (omega arith)
empty_take (suc n) [] pos h = refl
empty_take (suc n) (x ∷ s) pos h = absurd (ground arith)

full_take : (n : ℕ) (s : Bytes) → is_empty (take n s) ≡ false → 0 < length (take n s)
full_take n s h = go (take n s) h
  where
    go : (t : Bytes) → is_empty t ≡ false → 0 < length t
    go [] e = absurd (ground arith)
    go (x ∷ t) e = omega arith

module _ (P : Primitives) where
  to_layers-IsFrom : (fuel size n : ℕ) (s : Bytes) → IsFrom n (to_layers P fuel size n s)
  unfolding to_layers
  to_layers-IsFrom zero size n s = tt
  to_layers-IsFrom (suc fuel) size n s =
      let n' = n + length (take size s) in
      let later = to_layers-IsFrom fuel size n' (drop size s) in
      let rest = to_layers P fuel size n' (drop size s) in
      ground (arith, later, IsFrom-earlier n n' rest (omega arith) later)

  joined-to_layers :
      (fuel size n : ℕ) (s : Bytes)
      → 0 < size
      → length s ≤ fuel
      → joined (to_layers P fuel size n s) ≡ s
  unfolding to_layers
  joined-to_layers zero size n [] pos enough = refl
  joined-to_layers zero size n (x ∷ s) pos enough = absurd (omega arith)
  joined-to_layers (suc fuel) size n s pos enough = elim (Bool-cases (is_empty (take size s))) [
    | inl e ↦ rw (e, empty_take size s pos e) refl
    | inr e ↦
        let some_bytes = full_take size s e in
        let less : length (drop size s) ≤ fuel =
          omega (arith, length-take size s, length-drop size s) in
        rw (e, joined-to_layers fuel size (n + length (take size s)) (drop size s) pos less)
          (take-append-drop size s)
  ]

  -- A file that is cut into layers of any positive size is what the layers are joined to, for fuel of the
  -- length of the file.
  pub from-to_layers :
      (size : ℕ) (s : Bytes) → 0 < size → from_layers (to_layers P (length s) size 0 s) ≡ s
  unfolding from_layers
  from-to_layers size s pos =
      rw
        (sort_layers_sorted 0 (to_layers P (length s) size 0 s)
          (to_layers-IsFrom (length s) size 0 s))
        (joined-to_layers (length s) size 0 s pos (omega arith))

  -- Reading only the hashes and offsets gives those of the layers, on any fuel and from any offset.
  pub read_file_layer-to_layers :
      (fuel size n : ℕ) (s : Bytes)
      → read_file_layer P fuel size n s ≡ map (λ x. x.layer_meta) (to_layers P fuel size n s)
  unfolding read_file_layer to_layers
  read_file_layer-to_layers zero size n s = refl
  read_file_layer-to_layers (suc fuel) size n s =
      ground (arith, read_file_layer-to_layers fuel size (n + length (take size s)) (drop size s))
