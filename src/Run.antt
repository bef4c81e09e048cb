-- ===== src/Run.antt =====
-- Code that reads and changes a state `S` and may fail. The state comes back however the step ends:
-- what was read, written or stored stays so after an error.
pub mod Laws
pub mod Keeps
use rdrive.Base.{Bool, true, false, Option, none, some}
use rdrive.Base.Outcome.{Outcome, ok, err, panic, pending}
use rdrive.Fault.{Fault}

abbrev pub Run : Type 0 → Type 0 → Type 0
Run S A = S → Outcome Fault A × S

-- The rest of a block, on the result of its first step.
abbrev pub after : {S A B : Type 0} → (A → Run S B) → Outcome Fault A × S → Outcome Fault B × S
after f (ok a, s) = f a s
after f (err e, s) = (err e, s)
after f (panic, s) = (panic, s)
after f (pending, s) = (pending, s)

infixl 5 ◌>>=◌ ◌>>◌
abbrev pub ◌>>=◌ : {S A B : Type 0} → Run S A → (A → Run S B) → Run S B
◌>>=◌ m f s = after f (m s)

abbrev pub ◌>>◌ : {S B : Type 0} → Run S (Unit {0}) → Run S B → Run S B
m >> k = m >>= λ _. k

module _ {S : Type 0} where
  abbrev pub pure : {A : Type 0} → A → Run S A
  pure a s = (ok a, s)

  abbrev pub fail : {A : Type 0} → Fault → Run S A
  fail e s = (err e, s)

  abbrev pub panics : {A : Type 0} → Run S A
  panics s = (panic, s)

  abbrev pub gets : {A : Type 0} → (S → A) → Run S A
  gets f s = (ok (f s), s)

  abbrev pub modify : (S → S) → Run S (Unit {0})
  modify f s = (ok tt, f s)

  -- The result of a pure fallible computation, as a step.
  abbrev pub lift : {A : Type 0} → Outcome Fault A → Run S A
  lift r s = (r, s)

  -- `o.ok_or(e)?`
  abbrev pub or_fail : {A : Type 0} → Option A → Fault → Run S A
  or_fail none e = fail e
  or_fail (some a) e = pure a

  -- `if b { return Err(e) }`
  abbrev pub fail_if : Bool → Fault → Run S (Unit {0})
  fail_if true e = fail e
  fail_if false e = pure tt

  -- A slice or `split_at` out of bounds.
  abbrev pub panic_if : Bool → Run S (Unit {0})
  panic_if true = panics
  panic_if false = pure tt
