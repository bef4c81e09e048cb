-- ===== src/Layer/Tests.antt =====
-- Five bytes in layers of two.
use rdrive.Base.{ℕ, ◌↔◌, ◌≡◌, refl, [], ◌∷◌, Bytes, map, arith, take, drop}
use rdrive.Crypto.Toy.{toy}
use rdrive.Layer.{Layer, to_layers, from_layers, compare_layers}
use rdrive.Layer.Compare.{Has, Within, compare_layers_iff}
use rdrive.Layer.RoundTrip.{from-to_layers}

abbrev content : Bytes
content = 1 ∷ 2 ∷ 3 ∷ 4 ∷ 5 ∷ []

three_layers :
    map (λ x. x.data_bytes) (to_layers toy 5 2 0 content)
    ≡ (1 ∷ 2 ∷ []) ∷ (3 ∷ 4 ∷ []) ∷ (5 ∷ []) ∷ []
unfolding to_layers take drop
three_layers = refl

from-to_layers_example : from_layers (to_layers toy 5 2 0 content) ≡ content
from-to_layers_example = from-to_layers toy 2 content (omega arith)

abbrev layer : ℕ → Layer
layer n = record { data_bytes = n ∷ []; layer_meta = record { hash = n ∷ []; mem_offset = 0 } }

compare_layers_iff_example :
    Within (layer 1) (compare_layers (layer 1 ∷ []) (layer 2 ∷ []))
    ↔ (Within (layer 1) (layer 1 ∷ []) × (Has (layer 1) (layer 2 ∷ []) → ⊥))
compare_layers_iff_example = compare_layers_iff (layer 1) (layer 1 ∷ []) (layer 2 ∷ [])
