-- ===== src/Client.antt =====
-- The client's side of src/protocol_v1.rs: the state that its commands read and change, and what they
-- look up. A prompt takes its answer from a list, whether the user typed `y`; where that is used up, the
-- input is at its end, which is no `y`.
pub mod Handshake
pub mod Commands
pub mod Cli
pub mod Perf
pub mod Toy
pub mod Tests
use rdrive.Base.{Bool, false, Option, none, some, List, [], ◌∷◌, Bytes, bytes_eq, if◌then◌else◌}
use rdrive.Base.Outcome.{ok}
use rdrive.Run.{Run}
use rdrive.Wire.{Wire}
use rdrive.Disk.{Disk, FilePath}
use rdrive.Header.{Codec}

-- src/lib.rs, `AuthServerMap`: the address of a server to its key in hexadecimal.
abbrev pub ServerMap : Type 0
ServerMap = List (Bytes × Bytes)

unfoldable pub key_of : Bytes → ServerMap → Option Bytes
key_of ip [] = none
key_of ip ((j, k) ∷ m) = if bytes_eq j ip then some k else key_of ip m

-- `server_map.insert`
unfoldable pub insert_key : Bytes → Bytes → ServerMap → ServerMap
insert_key ip k [] = (ip, k) ∷ []
insert_key ip k ((j, l) ∷ m) = if bytes_eq j ip then (ip, k) ∷ m else (j, l) ∷ insert_key ip k m

-- The user's directory, `server.map` in it and its JSON, the server's address, and the private key.
pub record Profile : Type 0 where
  pub user_key_dir : FilePath
  pub server_map_path : FilePath
  pub server_map : Codec ServerMap
  pub server_ip : Bytes
  pub signing_key : Bytes

pub record Client : Type 0 where
  pub wire : Wire
  pub disk : Disk
  pub answers : List Bool

abbrev pub on_wire : {A : Type 0} → Run Wire A → Run Client A
on_wire m s = let (r, w) = m s.wire in (r, record s { wire = w })

abbrev pub on_disk : {A : Type 0} → (Disk → A × Disk) → Run Client A
on_disk f s = let (a, d) = f s.disk in (ok a, record s { disk = d })

-- `read_line`, and whether it is `y`.
abbrev pub ask : Run Client Bool
ask s = elim s.answers [ [] ↦ (ok false, s) | a ∷ rest ↦ (ok a, record s { answers = rest }) ]
