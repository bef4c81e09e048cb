-- ===== src/Settings/Environment.antt =====
-- What the environment's variables say: the statics of src/lib.rs, by the variable's value, and `Level` of
-- src/log.rs. The two rates of the limiter are floats and stay parameters.
use rdrive.Base.{
  ℕ, ◌*◌, ◌≤◌, ◌≡◌, refl, Bool, true, false, Option, none, some, arith, Bytes, bytes_eq, codes, leb,
  if◌then◌else◌,
}
use rdrive.Base.Text.{parse_usize}
use rdrive.Fault.{to_lowercase}

-- `var(…).ok().and_then(|s| s.parse().ok()).unwrap_or(default)`
abbrev pub parsed_or : {A : Type 0} → (Bytes → Option A) → A → Option Bytes → A
parsed_or parse default none = default
parsed_or parse default (some s) = elim (parse s) [ none ↦ default | some a ↦ a ]

-- `str::parse::<bool>`
unfoldable pub parse_bool : Bytes → Option Bool
parse_bool s =
    if bytes_eq s (codes "true")
    then some true
    else (if bytes_eq s (codes "false") then some false else none)

unfoldable pub enable_echo : Option Bytes → Bool
enable_echo = parsed_or parse_bool false

unfoldable pub enable_client_whitelist : Option Bytes → Bool
enable_client_whitelist = parsed_or parse_bool true

unfoldable pub max_connections : Option Bytes → ℕ
max_connections = parsed_or parse_usize 256

unfoldable pub max_file_size_gb : Option Bytes → ℕ
max_file_size_gb = parsed_or parse_usize (8 * 1024 * 1024 * 1024)

unfoldable pub connection_lifetime_secs : Option Bytes → ℕ
connection_lifetime_secs = parsed_or parse_usize 3600

pub data Level : Type 0 where
  trace debug info warn error : Level

unfoldable pub rank : Level → ℕ
rank trace = 0
rank debug = 1
rank info = 2
rank warn = 3
rank error = 4

unfoldable pub level_of : Bytes → Option Level
level_of s =
    if bytes_eq s (codes "trace")
    then some trace
    else (if bytes_eq s (codes "debug")
        then some debug
        else (if bytes_eq s (codes "info")
            then some info
            else (if bytes_eq s (codes "warn")
                then some warn
                else (if bytes_eq s (codes "error") then some error else none))))

-- `Level::from_env`
unfoldable pub from_env : Option Bytes → Level
from_env = parsed_or (λ s. level_of (to_lowercase s)) info

-- `level >= *LOG_LEVEL`
unfoldable pub should_log : Level → Level → Bool
should_log log_level level = leb (rank log_level) (rank level)

-- Errors are logged at every level, and a level that is logged stays so at every lower threshold.
pub should_log_error : (log_level : Level) → should_log log_level error ≡ true
unfolding should_log rank
should_log_error trace = refl
should_log_error debug = refl
should_log_error info = refl
should_log_error warn = refl
should_log_error error = refl

pub should_log_lower :
    (lower log_level level : Level)
    → rank lower ≤ rank log_level
    → should_log log_level level ≡ true
    → should_log lower level ≡ true
unfolding should_log
should_log_lower lower log_level level below h = ground arith

quiet_level : from_env (some (codes "WARN")) ≡ warn
unfolding from_env level_of to_lowercase
quiet_level = refl

unreadable_level : from_env (some (codes "loud")) ≡ info
unfolding from_env level_of to_lowercase
unreadable_level = refl
