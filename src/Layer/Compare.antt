-- ===== src/Layer/Compare.antt =====
-- Which layers of a file are to be sent again.
use rdrive.Base.{
  ◌≡◌, ◌↔◌, sym, true, false, ◌&&◌, List, [], ◌∷◌, arith, bytes_eq, bytes_eq_refl, eq_of_bytes_eq,
  ◌==◌, Bool-cases, inl, inr, ◌⊎◌,
}
use mathlib.Core.Path.{subst}
use rdrive.Layer.{Layer, has_layer, compare_layers}

-- A layer that the destination has, by its offset and its hash.
abbrev pub Has : Layer → List Layer → Type 0
Has x [] = ⊥
Has x (y ∷ ys) =
    ((y.layer_meta.mem_offset ≡ x.layer_meta.mem_offset) × (y.layer_meta.hash ≡ x.layer_meta.hash))
    ⊎ Has x ys

abbrev pub Within : Layer → List Layer → Type 0
Within x [] = ⊥
Within x (y ∷ ys) = (y ≡ x) ⊎ Within x ys

has_layer-Has : (x : Layer) (ys : List Layer) → has_layer x ys ≡ true → Has x ys
unfolding has_layer
has_layer-Has x [] h = absurd (ground arith)
has_layer-Has x (y ∷ ys) h =
    elim (Bool-cases (
      (y.layer_meta.mem_offset == x.layer_meta.mem_offset)
      && bytes_eq y.layer_meta.hash x.layer_meta.hash)) [
        | inl e ↦
            inl (ground arith, eq_of_bytes_eq y.layer_meta.hash x.layer_meta.hash (ground arith))
        | inr e ↦ inr (has_layer-Has x ys (ground arith))
      ]

has_layer_of_Has : (x : Layer) (ys : List Layer) → Has x ys → has_layer x ys ≡ true
unfolding has_layer
has_layer_of_Has x [] h = absurd h
has_layer_of_Has x (y ∷ ys) (inl (o, e)) = ground (arith, bytes_eq_refl x.layer_meta.hash)
has_layer_of_Has x (y ∷ ys) (inr h) = ground (arith, has_layer_of_Has x ys h)

kept-Within :
    (x y : Layer) (ys des : List Layer)
    → has_layer y des ≡ false
    → (Within x (compare_layers ys des) → Within x ys × (has_layer x des ≡ false))
    → (y ≡ x) ⊎ Within x (compare_layers ys des)
    → Within x (y ∷ ys) × (has_layer x des ≡ false)
kept-Within x y ys des e rest (inl p) = (inl p, subst (λ z. has_layer z des ≡ false) p e)
kept-Within x y ys des e rest (inr v) = let (i, o) = rest v in (inr i, o)

compare_layers-Within :
    (x : Layer) (src des : List Layer)
    → Within x (compare_layers src des)
    → Within x src × (has_layer x des ≡ false)
unfolding compare_layers
compare_layers-Within x (y ∷ ys) des w = elim (Bool-cases (has_layer y des)) [
  | inl e ↦ let (i, o) = compare_layers-Within x ys des (rw e at w) in (inr i, o)
  | inr e ↦ kept-Within x y ys des e (λ v. compare_layers-Within x ys des v) (rw e at w)
]
compare_layers-Within x [] des w = absurd w

Within-compare_layers :
    (x : Layer) (src des : List Layer)
    → Within x src
    → has_layer x des ≡ false
    → Within x (compare_layers src des)
unfolding compare_layers
Within-compare_layers x [] des i h = absurd i
Within-compare_layers x (y ∷ ys) des (inl p) h =
    let e : has_layer y des ≡ false = subst (λ z. has_layer z des ≡ false) (sym p) h in rw e (inl p)
Within-compare_layers x (y ∷ ys) des (inr i) h = elim (Bool-cases (has_layer y des)) [
  | inl e ↦ rw e (Within-compare_layers x ys des i h)
  | inr e ↦ rw e (inr (Within-compare_layers x ys des i h))
]

-- The layers to be sent again are exactly those of the source that the destination does not have, by their
-- offset and their hash.
pub compare_layers_iff :
    (x : Layer) (src des : List Layer)
    → Within x (compare_layers src des) ↔ (Within x src × (Has x des → ⊥))
compare_layers_iff x src des = (
  λ w.
      let (i, o) = compare_layers-Within x src des w in
      (i, λ h. ground (arith, o, has_layer_of_Has x des h)),
  λ k. Within-compare_layers x src des k.0 (elim (Bool-cases (has_layer x des)) [
    | inl e ↦ absurd (k.1 (has_layer-Has x des e))
    | inr e ↦ e
  ]),
)
