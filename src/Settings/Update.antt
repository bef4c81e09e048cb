-- ===== src/Settings/Update.antt =====
-- What the settings say after an update.
use rdrive.Base.{
  ◌≡◌, ◌≢◌, refl, inl, inr, Option, none, some, List, [], ◌∷◌, ◌++◌, arith, Bytes, bytes_eq,
  bytes_eq_refl, eq_of_bytes_eq, Option-cases, if◌then◌else◌,
}
use rdrive.Base.Text.{trim}
use rdrive.Disk.{is_some}
use rdrive.Settings.{split_once, sets, assignment, replaced, updated_lines}

-- The value that the first line for a field gives it.
abbrev value_in : Bytes → Option (Bytes × Bytes) → Option Bytes → Option Bytes
value_in field none rest = rest
value_in field (some (k, v)) rest = if bytes_eq (trim k) field then some v else rest

unfoldable pub setting : Bytes → List Bytes → Option Bytes
setting field [] = none
setting field (l ∷ ls) = value_in field (split_once l) (setting field ls)

-- A name of a field: it has no `=`, and no space around it.
abbrev pub HasNoEquals : Bytes → Type 0
HasNoEquals [] = Unit {0}
HasNoEquals (c ∷ s) = (c ≢ b'=') × HasNoEquals s

split_once-assignment :
    (field value : Bytes)
    → HasNoEquals field
    → split_once (assignment field value) ≡ some (field, value)
unfolding split_once
split_once-assignment [] value h = refl
split_once-assignment (c ∷ field) value (ne, h) =
    ground (arith, split_once-assignment field value h)

module _ (field value : Bytes) (plain : HasNoEquals field) (tight : trim field ≡ field) where
  setting_assigned :
      (g : Bytes) (ls : List Bytes)
      → setting g (assignment field value ∷ ls)
        ≡ (if bytes_eq field g then some value else setting g ls)
  unfolding setting
  setting_assigned g ls = rw (split_once-assignment field value plain, value_in, tight) refl

  -- The replacing loop.
  setting-replaced :
      (g : Bytes) (ls : List Bytes)
      → setting g (replaced field value ls).0 ≡ (
          if bytes_eq field g
          then (if (replaced field value ls).1 then some value else none)
          else setting g ls)
  unfolding replaced setting sets
  setting-replaced g [] = ground arith
  setting-replaced g (l ∷ ls) =
      let rest = (replaced field value ls).0 in
      let ih = setting-replaced g ls in
      elim (Option-cases (split_once l)) [
        | inl e ↦ ground (arith, e, ih)
        | inr ((k, v), e) ↦ ground (
          arith,
          e,
          ih,
          setting_assigned g rest,
          eq_of_bytes_eq (trim k) field,
          eq_of_bytes_eq field g,
          bytes_eq_refl field,
        )
      ]

  setting-append :
      (g : Bytes) (ls : List Bytes)
      → setting g (ls ++ (assignment field value ∷ [])) ≡ (elim (setting g ls) [
        | some v ↦ some v
        | none ↦ if bytes_eq field g then some value else none
      ])
  unfolding setting
  setting-append g [] = setting_assigned g []
  setting-append g (l ∷ ls) = elim (Option-cases (split_once l)) [
    | inl e ↦ ground (arith, e, setting-append g ls)
    | inr ((k, v), e) ↦ ground (arith, e, setting-append g ls)
  ]

  found_setting : (ls : List Bytes) → (replaced field value ls).1 ≡ is_some (setting field ls)
  unfolding replaced setting sets
  found_setting [] = refl
  found_setting (l ∷ ls) = elim (Option-cases (split_once l)) [
    | inl e ↦ ground (arith, e, found_setting ls)
    | inr ((k, v), e) ↦ ground (arith, e, found_setting ls)
  ]

  -- After an update of a field, whose name has no `=` and no space around it, the lines give the field its new
  -- value and every other field the value that it had, and the update says whether the field was there.
  pub setting-updated_lines :
      (g : Bytes) (ls : List Bytes)
      → (setting g (updated_lines field value ls).0
          ≡ (if bytes_eq field g then some value else setting g ls))
        × ((updated_lines field value ls).1 ≡ is_some (setting field ls))
  unfolding updated_lines
  setting-updated_lines g ls =
      let fresh = setting-replaced g ls in
      let found = found_setting ls in
      (
        ground (arith, fresh, found, setting-append g (replaced field value ls).0),
        ground (arith, found),
      )
