-- ===== src/Wire.antt =====
-- One TCP connection as its owner sees it, and the reads and writes of tokio on it: the first part of
-- src/protocol_v1.rs stands on these.
-- The peer's bytes that are still to come are a list, and `ending` says what a read meets behind them:
-- the peer's close, or silence. Each write takes its fate from a list; where that is used up, writes are
-- delivered. A write is one step together with the flush that follows it.
pub mod Frames
pub mod RoundTrip
pub mod Limits
pub mod Delivered
pub mod Grows
pub mod Tests
use rdrive.Base.{
  ℕ, ◌+◌, ◌-◌, Bool, true, false, List, [], ◌∷◌, ◌++◌, Bytes, length, take, drop, replicate, ltb,
  leb, if◌then◌else◌,
}
use rdrive.Base.Outcome.{Outcome, ok, err, panic, pending}
use rdrive.Fault.{Fault, early_eof, write_failed}
use rdrive.Run.{Run}
use rdrive.Crypto.{Primitives}

pub data Ending : Type 0 where
  closed silent : Ending

pub data Fate : Type 0 where
  delivered broken stuck : Fate

pub record Wire : Type 0 where
  pub input : Bytes
  pub ending : Ending
  pub output : Bytes
  pub fates : List Fate
  -- How often the random source was drawn from.
  pub draws : ℕ
  -- `mem_pool`, the scratch buffer of the connection.
  pub pool : Bytes
  -- Whether the writing half was shut down.
  pub shut : Bool

-- The end of the input, met in the middle of a read.
abbrev starve : {A : Type 0} → Ending → Outcome Fault A
starve closed = err early_eof
starve silent = pending

-- `reader.read_exact`
unfoldable pub read_exact : ℕ → Run Wire Bytes
read_exact n w =
    if leb n (length w.input)
    then (ok (take n w.input), record w { input = drop n w.input })
    else (starve w.ending, record w { input = [] })

-- `writer.write_all`, with its `flush`
unfoldable pub write_all : Bytes → Run Wire (Unit {0})
write_all bytes w = elim w.fates [
  | [] ↦ (ok tt, record w { output = w.output ++ bytes })
  | f ∷ fs ↦ elim f [
    | delivered ↦ (ok tt, record w { output = w.output ++ bytes; fates = fs })
    | broken ↦ (err write_failed, record w { fates = fs })
    | stuck ↦ (pending, record w { fates = fs })
  ]
]

-- `writer.shutdown`
abbrev pub shutdown : Run Wire (Unit {0})
shutdown w = (ok tt, record w { shut = true })

-- `timeout(d, m)`, and the error that the caller makes of an elapsed timer.
abbrev pub elapsed : {S A : Type 0} → Fault → Outcome Fault A × S → Outcome Fault A × S
elapsed e (ok a, s) = (ok a, s)
elapsed e (err f, s) = (err f, s)
elapsed e (panic, s) = (panic, s)
elapsed e (pending, s) = (err e, s)

abbrev pub timeout : {S A : Type 0} → Fault → Run S A → Run S A
timeout e m w = elapsed e (m w)

-- `m.map_err(|_| e)`
abbrev pub renamed : {S A : Type 0} → Fault → Outcome Fault A × S → Outcome Fault A × S
renamed e (ok a, s) = (ok a, s)
renamed e (err f, s) = (err e, s)
renamed e (panic, s) = (panic, s)
renamed e (pending, s) = (pending, s)

abbrev pub map_err : {S A : Type 0} → Fault → Run S A → Run S A
map_err e m w = renamed e (m w)

-- `rng().fill_bytes` on a buffer of n bytes
abbrev pub draw : Primitives → ℕ → Run Wire Bytes
draw P n w = (ok (P.random w.draws n), record w { draws = w.draws + 1 })

-- `if mem_pool.len() < n { mem_pool.resize(n, 0) }`
unfoldable pub grown : ℕ → Bytes → Bytes
grown n pool = if ltb (length pool) n then pool ++ replicate (n - length pool) 0 else pool

abbrev pub reserve : ℕ → Run Wire (Unit {0})
reserve n w = (ok tt, record w { pool = grown n w.pool })

abbrev pub set_pool : Bytes → Run Wire (Unit {0})
set_pool pool w = (ok tt, record w { pool = pool })
