-- ===== src/Server/Accept/Counter.antt =====
-- What the counter counts.
use rdrive.Base.{ℕ, ◌+◌, ◌≤◌, ◌≡◌, ◌↔◌, refl, false, arith}
use rdrive.Server.Accept.{
  Slots, no_slots, accept, finish, crash, Turn, arrival, ending, panicking, Course, still, turn,
}

-- The counter counts the tasks that run and those that crashed, within the limit.
abbrev pub IsCounted : ℕ → Slots → Type 0
IsCounted max_connections s = (s.active ≡ s.running + s.crashed) × (s.active ≤ max_connections)

Turn-IsCounted :
    (max_connections : ℕ) {s t : Slots}
    → Turn max_connections s t
    → IsCounted max_connections s
    → IsCounted max_connections t
unfolding accept finish crash
Turn-IsCounted max_connections arrival c = ground arith
Turn-IsCounted max_connections (ending e) c = ground arith
Turn-IsCounted max_connections (panicking e) c = ground arith

-- From the start on, in whatever order connections arrive, end and crash, the counter counts the tasks that run and
-- those that crashed, and the limit is kept.
pub Course-IsCounted :
    (max_connections : ℕ) {t : Slots}
    → Course max_connections no_slots t
    → IsCounted max_connections t
Course-IsCounted max_connections still = (refl, omega arith)
Course-IsCounted max_connections (turn c u) =
    Turn-IsCounted max_connections u (Course-IsCounted max_connections c)

-- In every state that the server comes to, a connection is refused exactly if the tasks that run and those that
-- crashed fill the limit: where none crashed, only if as many run as are allowed.
pub accept_refused_iff :
    (max_connections : ℕ) (t : Slots)
    → Course max_connections no_slots t
    → ((accept max_connections t).0 ≡ false) ↔ (t.running + t.crashed ≡ max_connections)
unfolding accept
accept_refused_iff max_connections t c =
    let counted = Course-IsCounted max_connections c in
    (λ e. ground (arith, counted), λ e. ground (arith, counted))

crashed-le :
    (max_connections : ℕ) {s t : Slots} → Course max_connections s t → s.crashed ≤ t.crashed
unfolding accept finish crash
crashed-le max_connections still = omega arith
crashed-le max_connections {s} (turn {t} c arrival) = ground (arith, crashed-le max_connections c)
crashed-le max_connections {s} (turn {t} c (ending e)) = crashed-le max_connections c
crashed-le max_connections {s} (turn {t} c (panicking e)) =
    omega (arith, crashed-le max_connections c)

Course-append :
    (max_connections : ℕ) {s t u : Slots}
    → Course max_connections s t
    → Course max_connections t u
    → Course max_connections s u
Course-append max_connections c still = c
Course-append max_connections c (turn d x) = turn (Course-append max_connections c d) x

-- Once as many tasks have crashed as connections are allowed, every later connection is refused.
accept_after_crashes :
    (max_connections : ℕ) (s t : Slots)
    → Course max_connections no_slots s
    → s.crashed ≡ max_connections
    → Course max_connections s t
    → (accept max_connections t).0 ≡ false
accept_after_crashes max_connections s t c full d =
    let whole = Course-append max_connections c d in
    let counted = Course-IsCounted max_connections whole in
    let more = crashed-le max_connections d in
    (accept_refused_iff max_connections t whole).1 (omega arith)
