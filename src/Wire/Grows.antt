-- ===== src/Wire/Grows.antt =====
-- What was written stays written: the output only grows.
use rdrive.Base.{
  ◌≡◌, refl, sym, ◌∙◌, ap, List, [], ◌∷◌, ◌++◌, Bytes, append-nil, append_assoc, ◌+◌, length, take,
  drop, ltb, Bool-cases, inl, inr,
}
use rdrive.Base.Outcome.{Outcome-cases}
use rdrive.Run.{Run}
use rdrive.Run.Keeps.{Keeps}
use rdrive.Crypto.{Primitives, encrypt_into}
use rdrive.Wire.{Wire, Fate, delivered, broken, stuck, write_all, grown}
use rdrive.Wire.Frames.{u32_max, write_encrypt_frame_into}

abbrev pub Grows : Bytes → Wire → Type 0
Grows base w = (more : Bytes) × (w.output ≡ base ++ more)

pub Grows-start : (w : Wire) → Grows w.output w
Grows-start w = ([], sym (append-nil w.output))

module _ (base : Bytes) where
  -- A step that writes nothing.
  pub Keeps-quiet :
      {A : Type 0} (m : Run Wire A)
      → ((w : Wire) → (m w).1.output ≡ w.output)
      → Keeps (Grows base) m
  Keeps-quiet m same = record { at = λ w (more, e). (more, same w ∙ e) }

  appended :
      (bytes : Bytes) (w : Wire)
      → Grows base w
      → (more : Bytes) × (w.output ++ bytes ≡ base ++ more)
  appended bytes w (more, e) =
      (more ++ bytes, ap (λ o. o ++ bytes) e ∙ append_assoc base more bytes)

  write_all_by :
      (bytes : Bytes) (w : Wire) (fates : List Fate)
      → w.fates ≡ fates
      → Grows base w
      → Grows base (write_all bytes w).1
  unfolding write_all
  write_all_by bytes w [] e g = rw e (appended bytes w g)
  write_all_by bytes w (delivered ∷ fs) e g = rw e (appended bytes w g)
  write_all_by bytes w (broken ∷ fs) e g = rw e g
  write_all_by bytes w (stuck ∷ fs) e g = rw e g

  write_encrypt_frame-Grows :
      (P : Primitives) (key s : Bytes) (w : Wire)
      → Grows base w
      → Grows base (write_encrypt_frame_into P key s w).1
  unfolding write_encrypt_frame_into
  write_encrypt_frame-Grows P key s w g =
      let n = 12 + length s + 16 in
      let buffer = take n (drop 4 (grown (4 + n) w.pool)) in
      elim (Bool-cases (ltb u32_max (length s))) [
        | inl large ↦ rw large g
        | inr small ↦ elim (Outcome-cases (encrypt_into P s buffer key (P.random w.draws 12))) [
          | inl (out, e) ↦ rw (small, e) (write_all_by _ _ w.fates refl g)
          | inr (inl (f, e)) ↦ rw (small, e) g
          | inr (inr (inl e)) ↦ rw (small, e) g
          | inr (inr (inr e)) ↦ rw (small, e) g
        ]
      ]

  pub Keeps-write_encrypt_frame :
      (P : Primitives) (key s : Bytes) → Keeps (Grows base) (write_encrypt_frame_into P key s)
  Keeps-write_encrypt_frame P key s = record { at = write_encrypt_frame-Grows P key s }
