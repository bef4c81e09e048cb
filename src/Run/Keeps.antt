-- ===== src/Run/Keeps.antt =====
-- What a step keeps of the state, however it ends: one rule for each way to build a step.
use rdrive.Base.{if◌then◌else◌, Bool, true, false, Option, none, some}
use rdrive.Base.Outcome.{Outcome, ok, err, panic, pending}
use rdrive.Fault.{Fault}
use rdrive.Run.{Run, after, ◌>>=◌, pure, fail_if, panic_if, or_fail}

pub record Keeps {S A : Type 0} (I : S → Type 0) (m : Run S A) : Type 0 where
  pub at : (s : S) → I s → I (m s).1

module _ {S A B : Type 0} {I : S → Type 0} where
  pub Keeps-after :
      (f : A → Run S B) (r : Outcome Fault A × S)
      → ((a : A) → Keeps I (f a))
      → I r.1
      → I (after f r).1
  Keeps-after f (ok a, s) k h = (k a).at s h
  Keeps-after f (err e, s) k h = h
  Keeps-after f (panic, s) k h = h
  Keeps-after f (pending, s) k h = h

  pub Keeps-bind :
      (m : Run S A) (f : A → Run S B) → Keeps I m → ((a : A) → Keeps I (f a)) → Keeps I (m >>= f)
  Keeps-bind m f km kf = record { at = λ s h. Keeps-after f (m s) kf (km.at s h) }

module _ {S A : Type 0} {I : S → Type 0} where
  pub Keeps-pure : (a : A) → Keeps I (pure a)
  Keeps-pure a = record { at = λ s h. h }

  pub Keeps-or_fail : (o : Option A) (e : Fault) → Keeps I (or_fail o e)
  Keeps-or_fail none e = record { at = λ s h. h }
  Keeps-or_fail (some a) e = record { at = λ s h. h }

  pub Keeps-if :
      (b : Bool) (m n : S → Outcome Fault A × S)
      → Keeps I m
      → Keeps I n
      → Keeps I (if◌then◌else◌ {A = S → Outcome Fault A × S} b m n)
  Keeps-if true m n km kn = km
  Keeps-if false m n km kn = kn

module _ {S : Type 0} {I : S → Type 0} where
  pub Keeps-fail_if : (b : Bool) (e : Fault) → Keeps I (fail_if b e)
  Keeps-fail_if true e = record { at = λ s h. h }
  Keeps-fail_if false e = record { at = λ s h. h }

  pub Keeps-panic_if : (b : Bool) → Keeps I (panic_if b)
  Keeps-panic_if true = record { at = λ s h. h }
  Keeps-panic_if false = record { at = λ s h. h }
