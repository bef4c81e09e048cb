-- ===== src/Server/Accept.antt =====
-- `start_tcp_server`: the loop that accepts connections, and `ACTIVE_CONNECTIONS`, against the limit
-- `MAX_CONNECTIONS`. A task that panics, where panics unwind, ends before it gives its place back; in a build
-- that aborts on panic there is no such step.
pub mod Counter
pub mod Tests
use rdrive.Base.{ℕ, suc, ◌+◌, ◌-◌, ◌≡◌, Bool, true, false, leb, if◌then◌else◌}

pub record Slots : Type 0 where
  -- The shared counter.
  pub active : ℕ
  -- The tasks that run, and those that have crashed.
  pub running : ℕ
  pub crashed : ℕ

abbrev pub no_slots : Slots
no_slots = record { active = 0; running = 0; crashed = 0 }

-- A connection comes in: whether a task is spawned for it. The counter goes up first.
unfoldable pub accept : ℕ → Slots → Bool × Slots
accept max_connections s =
    if leb max_connections s.active
    then (false, record s { active = (s.active + 1) - 1 })
    else (true, record s { active = s.active + 1; running = s.running + 1 })

-- A task comes to its end: in time or not, with an error or without.
unfoldable pub finish : Slots → Slots
finish s = record s { active = s.active - 1; running = s.running - 1 }

unfoldable pub crash : Slots → Slots
crash s = record s { running = s.running - 1; crashed = s.crashed + 1 }

pub data Turn (max_connections : ℕ) (s : Slots) : Slots → Type 0 where
  arrival : Turn max_connections s (accept max_connections s).1
  ending : {n : ℕ} → s.running ≡ suc n → Turn max_connections s (finish s)
  panicking : {n : ℕ} → s.running ≡ suc n → Turn max_connections s (crash s)

pub data Course (max_connections : ℕ) (s : Slots) : Slots → Type 0 where
  still : Course max_connections s s
  turn :
      {t u : Slots}
      → Course max_connections s t
      → Turn max_connections t u
      → Course max_connections s u
