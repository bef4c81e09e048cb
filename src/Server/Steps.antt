-- ===== src/Server/Steps.antt =====
-- A handler that succeeds, taken apart at its first step.
use rdrive.Base.{
  sym, ◌≡◌, refl, ◌∙◌, ap, inl, inr, Bool, true, false, not, Option, none, some, arith, Bool-cases,
}
use rdrive.Base.Outcome.{ok}
use rdrive.Fault.{Fault, disk_failed}
use rdrive.Run.{Run, ◌>>=◌, ◌>>◌, fail_if, panic_if, or_fail}
use rdrive.Run.Laws.{>>=-eq-ok}
use rdrive.Wire.{Wire}
use rdrive.Disk.{Disk}
use rdrive.Server.{Server, on_wire, on_disk}

pub or_fail_step :
    {A B : Type 0} (o : Option A) (e : Fault) (f : A → Run Server B) (s s' : Server) (b : B)
    → (or_fail o e >>= f) s ≡ (ok b, s')
    → (a : A) × (o ≡ some a) × (f a s ≡ (ok b, s'))
or_fail_step none e f s s' b h = absurd (ground arith)
or_fail_step (some a) e f s s' b h = (a, refl, h)

pub wire_step :
    {A B : Type 0} (m : Run Wire A) (f : A → Run Server B) (s s' : Server) (b : B)
    → (on_wire m >>= f) s ≡ (ok b, s')
    → (a : A) × (s₁ : Server) × (s₁.disk ≡ s.disk)
      × (m s.wire ≡ (ok a, s₁.wire))
      × (f a s₁ ≡ (ok b, s'))
wire_step m f s s' b h =
    let (a, s₁, e, k) = >>=-eq-ok (on_wire m) f s h in
    (a, s₁, ap (λ r. r.1.disk) (sym e), ap (λ r. (r.0, r.1.wire)) e, k)

pub disk_step :
    {B : Type 0} (op : Disk → Bool × Disk) (k : Run Server B) (s s' : Server) (b : B)
    → (on_disk op >>= λ done. fail_if (not done) disk_failed >> k) s ≡ (ok b, s')
    → (s₁ : Server) × (s₁.wire ≡ s.wire) × (op s.disk ≡ (true, s₁.disk)) × (k s₁ ≡ (ok b, s'))
disk_step op k s s' b h =
    let (done, s₁, e, k₁) =
      >>=-eq-ok (on_disk op) (λ done. fail_if (not done) disk_failed >> k) s h in
    elim (Bool-cases done) [
      | inl yes_done ↦ (
        s₁,
        ap (λ r. r.1.wire) (sym e),
        ap (λ r. (elim r.0 [ ok x ↦ x | _ ↦ false ], r.1.disk)) e ∙ rw yes_done refl,
        rw yes_done at k₁,
      )
      | inr no_done ↦ absurd (ground (arith, (rw no_done at k₁)))
    ]

pub panic_step :
    {B : Type 0} (out_of_range : Bool) (k : Run Server B) (s s' : Server) (b : B)
    → (panic_if out_of_range >> k) s ≡ (ok b, s')
    → (out_of_range ≡ false) × (k s ≡ (ok b, s'))
panic_step true k s s' b h = absurd (ground arith)
panic_step false k s s' b h = (refl, h)
