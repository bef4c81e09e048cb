-- ===== src/Settings/Log.antt =====
-- src/log.rs, `log` and the macros on it: the line that is printed, if one is. Colours are a parameter.
use rdrive.Base.{◌≡◌, ◌↔◌, ◌<◌, Option, none, some, ◌++◌, arith, Bytes, codes, if◌then◌else◌}
use rdrive.Settings.Environment.{Level, trace, debug, info, warn, error, rank, should_log}

-- `colored::Colorize`
pub record Colorize : Type 0 where
  pub dimmed : Bytes → Bytes
  pub blue : Bytes → Bytes
  pub green : Bytes → Bytes
  pub yellow : Bytes → Bytes
  pub red : Bytes → Bytes
  pub bold : Bytes → Bytes

module _ (c : Colorize) where
  unfoldable pub level_str : Level → Bytes
  level_str trace = c.dimmed (codes "TRACE")
  level_str debug = c.bold (c.blue (codes "DEBUG"))
  level_str info = c.bold (c.green (codes "INFO"))
  level_str warn = c.bold (c.yellow (codes "WARN"))
  level_str error = c.bold (c.red (codes "ERROR"))

  -- `log`, by the threshold and the time of day.
  unfoldable pub log : Level → Bytes → Level → Bytes → Option Bytes
  log log_level now level msg =
      if should_log log_level level
      then some (codes "[" ++ (now ++ (codes "][" ++ (level_str level ++ (codes "] " ++ msg)))))
      else none

  -- `trace!`, `debug!`, `info!`, `warn!` and `error!`, on the formatted message.
  unfoldable pub log_macro : Level → Bytes → Level → Bytes → Option Bytes
  log_macro log_level now trace msg = log log_level now trace (c.dimmed msg)
  log_macro log_level now debug msg = log log_level now debug (c.blue msg)
  log_macro log_level now info msg = log log_level now info (c.green msg)
  log_macro log_level now warn msg = log log_level now warn (c.yellow msg)
  log_macro log_level now error msg = log log_level now error (c.red msg)

  log_below :
      (log_level level : Level) (now msg : Bytes)
      → (log log_level now level msg ≡ none) ↔ (rank level < rank log_level)
  unfolding log should_log
  log_below log_level level now msg = (λ e. ground arith, λ h. ground arith)

  -- A macro prints nothing exactly when its level lies below the threshold.
  log_macro_below :
      (log_level level : Level) (now msg : Bytes)
      → (log_macro log_level now level msg ≡ none) ↔ (rank level < rank log_level)
  unfolding log_macro
  log_macro_below log_level trace now msg = log_below log_level trace now (c.dimmed msg)
  log_macro_below log_level debug now msg = log_below log_level debug now (c.blue msg)
  log_macro_below log_level info now msg = log_below log_level info now (c.green msg)
  log_macro_below log_level warn now msg = log_below log_level warn now (c.yellow msg)
  log_macro_below log_level error now msg = log_below log_level error now (c.red msg)
