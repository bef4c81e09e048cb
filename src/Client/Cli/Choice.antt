-- ===== src/Client/Cli/Choice.antt =====
-- The id that a push goes to.
use rdrive.Base.{
  ℕ, zero, suc, ◌-◌, ◌≤◌, ◌<◌, ◌≡◌, refl, inl, inr, Option, none, some, List, [], ◌∷◌, arith, Bytes,
  length, leb, ◌==◌, Option-cases, Bool-cases, if◌then◌else◌, false,
}
use rdrive.Base.Text.{trim, parse_usize}
use rdrive.Base.Outcome.{Outcome, ok, err}
use rdrive.Fault.{Fault, bad_input, exited}
use rdrive.Run.{after, ◌>>=◌, or_fail, pure, panics, fail}
use rdrive.Crypto.{Primitives}
use rdrive.Catalog.{Catalog, Table, FileHistory, get}
use rdrive.Catalog.Laws.{AllKnown, IsConsistent}
use rdrive.Server.{Site}
use rdrive.Client.{Profile, Client}
use rdrive.Client.Cli.{Session, list_ids, choose_id, nth}

-- The id that a choice by number stands for.
abbrev pub picked_number : Session → List Bytes → Option ℕ → Outcome Fault Bytes
picked_number u tracked none = err bad_input
picked_number u tracked (some zero) = ok u.new_id
picked_number u tracked (some (suc n)) = elim (nth n tracked) [
  | none ↦ err exited
  | some id ↦ ok id
]

abbrev pub picked : Session → Option (List Bytes) → Outcome Fault Bytes
picked u none = ok u.new_id
picked u (some tracked) = picked_number u tracked (parse_usize (trim u.typed_choice))

nth-some : (n : ℕ) (ids : List Bytes) → n < length ids → (id : Bytes) × (nth n ids ≡ some id)
nth-some n [] h = absurd (omega arith)
nth-some zero (x ∷ ids) h = (x, refl)
nth-some (suc n) (x ∷ ids) h = nth-some n ids (omega arith)

nth-none : (n : ℕ) (ids : List Bytes) → length ids ≤ n → nth n ids ≡ none
nth-none n [] h = refl
nth-none zero (x ∷ ids) h = absurd (omega arith)
nth-none (suc n) (x ∷ ids) h = nth-none n ids (omega arith)

module _ (P : Primitives) (C : Site) (U : Profile) where
  list_ids_known :
      (m : Table FileHistory) (ids : List Bytes) (s : Client)
      → AllKnown ids m
      → list_ids P C U m ids s ≡ (ok tt, s)
  unfolding list_ids
  list_ids_known m [] s h = refl
  list_ids_known m (id ∷ ids) s (known, h) = elim (Option-cases (get id m)) [
    | inl e ↦ absurd (known e)
    | inr (v, e) ↦ rw e (list_ids_known m ids s h)
  ]

  chosen :
      (u : Session) (ids : List Bytes) (o : Option ℕ) (s : Client)
      → (or_fail o bad_input >>= λ n.
            if n == 0
            then pure u.new_id
            else (if leb n (length ids)
                then elim (nth (n - 1) ids) [ some id ↦ pure id | none ↦ panics ]
                else fail exited))
          s
        ≡ (picked_number u ids o, s)
  chosen u ids none s = refl
  chosen u ids (some zero) s = refl
  chosen u ids (some (suc n)) s =
      let before : suc n - 1 ≡ n = omega arith in
      let positive : (suc n == 0) ≡ false = ground arith in
      elim (Bool-cases (leb (suc n) (length ids))) [
        | inl within ↦
            let (id, e) = nth-some n ids (ground arith) in
            rw (positive, within, before, e, picked_number) refl
        | inr beyond ↦ rw (positive, beyond, nth-none n ids (ground arith), picked_number) refl
      ]

  listed :
      (u : Session) (m : Table FileHistory) (o : Option (List Bytes)) (s : Client)
      → ((ids : List Bytes) → o ≡ some ids → AllKnown ids m)
      → after {A = Option (List Bytes)} {B = Bytes}
          (λ o. elim o [
            | none ↦ pure u.new_id
            | some tracked ↦
                (list_ids P C U m tracked >>= λ _.
                or_fail (parse_usize (trim u.typed_choice)) bad_input >>= λ n.
                if n == 0
                then pure u.new_id
                else (if leb n (length tracked)
                    then elim (nth (n - 1) tracked) [ some id ↦ pure id | none ↦ panics ]
                    else fail exited))
          ])
          (ok o, s)
        ≡ (picked u o, s)
  listed u m none s h = refl
  listed u m (some ids) s h =
      rw (list_ids_known m ids s (h ids refl)) (chosen u ids (parse_usize (trim u.typed_choice)) s)

  -- Where the two maps of the catalog agree, a push never fails to list the ids of its file and never
  -- indexes out of bounds: the id is new if the name is, or the user types 0, it is the listed id of the number
  -- that the user types, and any other input is an error.
  pub choose_id-picked :
      (u : Session) (c : Catalog) (name : Bytes) (s : Client)
      → IsConsistent c
      → choose_id P C U u c name s ≡ (picked u (get name c.file_index), s)
  unfolding choose_id
  choose_id-picked u c name s h = listed u c.file_map (get name c.file_index) s (h name)
