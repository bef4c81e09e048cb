-- ===== src/Settings/Tests.antt =====
-- A settings file of two lines.
use rdrive.Base.{◌≡◌, refl, true, false, some, none, [], ◌∷◌, Bytes, codes, arith}
use rdrive.Base.Text.{trim, trim_start}
use rdrive.Disk.{node_at, Disk, file}
use rdrive.Settings.{
  updated_lines, updated_text, env_path, update_env, lines, replaced, join, ends_with_newline,
  pieces, strip_end, ended, split_once, sets,
}
use rdrive.Settings.Update.{setting}
use rdrive.Settings.Lines.{setting-updated_text}
use rdrive.Settings.Atomic.{IsOldOrNew, update_env_either}

abbrev env_text : Bytes
env_text = codes "PORT=3000\n ENABLE_ECHO = true\n"

text_after :
    (updated_text (codes "PORT") (codes "80") env_text).0 ≡ codes "PORT=80\n ENABLE_ECHO = true\n"
unfolding updated_text updated_lines lines replaced join ends_with_newline ended strip_end pieces
    split_once sets trim trim_start
text_after = refl

text_grown : (updated_text (codes "A") (codes "b") (codes "c=d")).0 ≡ codes "c=d\nA=b\n"
unfolding updated_text updated_lines lines replaced join ends_with_newline ended strip_end pieces
    split_once sets trim trim_start
text_grown = refl

-- A `\r` is part of the end of a line only before a `\n`.
returns_kept : lines (codes "a\r\nb\r") ≡ codes "a" ∷ codes "b\r" ∷ []
unfolding lines pieces strip_end
returns_kept = refl

setting-updated_text_example :
    setting (codes "PORT") (lines (updated_text (codes "PORT") (codes "80") env_text).0)
    ≡ some (codes "80")
unfolding trim trim_start lines pieces strip_end
setting-updated_text_example =
    setting-updated_text (codes "PORT") (codes "80") env_text (codes "PORT") (omega arith) refl
      (omega arith) (omega arith)

-- The read, the file's creation and its first two bytes are granted.
abbrev with_env : Disk
with_env = record {
  nodes = (env_path, file env_text) ∷ [];
  fates = true ∷ true ∷ true ∷ true ∷ false ∷ [];
}

update_env_either_example :
    IsOldOrNew env_path
      (updated_text (codes "PORT") (codes "80") env_text).0
      with_env
      (update_env (codes ".env.tmp.7") (codes "PORT") (codes "80") with_env).1
    × ((update_env (codes ".env.tmp.7") (codes "PORT") (codes "80") with_env).0 ≡ none)
unfolding node_at
update_env_either_example =
    update_env_either (codes ".env.tmp.7") (codes "PORT") (codes "80") env_text with_env refl refl
