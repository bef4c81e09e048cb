-- ===== src/Run/Laws.antt =====
-- Running a bind whose first step is known, and taking a successful bind apart.
use rdrive.Base.{◌≡◌, ◌≢◌, refl, ap, inl, inr, ◌⊎◌, arith}
use rdrive.Base.Outcome.{Outcome, ok, err, panic, pending}
use rdrive.Fault.{Fault}
use rdrive.Run.{Run, after, ◌>>=◌}

module _ {S A B : Type 0} (m : Run S A) (f : A → Run S B) {s s' : S} where
  pub >>=-ok : {a : A} → m s ≡ (ok a, s') → (m >>= f) s ≡ f a s'
  >>=-ok e = ap (after f) e

  pub >>=-err : {e : Fault} → m s ≡ (err e, s') → (m >>= f) s ≡ (err e, s')
  >>=-err e = ap (after f) e

  pub >>=-panic : m s ≡ (panic, s') → (m >>= f) s ≡ (panic, s')
  >>=-panic e = ap (after f) e

  pub >>=-pending : m s ≡ (pending, s') → (m >>= f) s ≡ (pending, s')
  >>=-pending e = ap (after f) e

-- The four ways that a step can end.
pub Run-cases :
    {S A : Type 0} (r : Outcome Fault A × S)
    → ((a : A) × (s : S) × (r ≡ (ok a, s)))
      ⊎ ((e : Fault) × (s : S) × (r ≡ (err e, s)))
      ⊎ ((s : S) × (r ≡ (panic, s)))
      ⊎ ((s : S) × (r ≡ (pending, s)))
Run-cases (ok a, s) = inl (a, s, refl)
Run-cases (err e, s) = inr (inl (e, s, refl))
Run-cases (panic, s) = inr (inr (inl (s, refl)))
Run-cases (pending, s) = inr (inr (inr (s, refl)))

pub after-eq-ok :
    {S A B : Type 0} (f : A → Run S B) (r : Outcome Fault A × S) {b : B} {t : S}
    → after f r ≡ (ok b, t)
    → (a : A) × (s' : S) × (r ≡ (ok a, s')) × (f a s' ≡ (ok b, t))
after-eq-ok f (ok a, s) h = (a, s, refl, h)
after-eq-ok f (err e, s) h = absurd (ground arith)
after-eq-ok f (panic, s) h = absurd (ground arith)
after-eq-ok f (pending, s) h = absurd (ground arith)

pub >>=-eq-ok :
    {S A B : Type 0} (m : Run S A) (f : A → Run S B) (s : S) {b : B} {t : S}
    → (m >>= f) s ≡ (ok b, t)
    → (a : A) × (s' : S) × (m s ≡ (ok a, s')) × (f a s' ≡ (ok b, t))
>>=-eq-ok m f s h = after-eq-ok f (m s) h

-- A block does not panic if none of its steps does.
pub after-ne-panic :
    {S A B : Type 0} (f : A → Run S B) (r : Outcome Fault A × S)
    → r.0 ≢ panic
    → ((a : A) (s : S) → (f a s).0 ≢ panic)
    → (after f r).0 ≢ panic
after-ne-panic f (ok a, s) h k = k a s
after-ne-panic f (err e, s) h k = λ p. cc
after-ne-panic f (panic, s) h k = λ p. h refl
after-ne-panic f (pending, s) h k = λ p. cc
