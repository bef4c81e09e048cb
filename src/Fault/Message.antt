-- ===== src/Fault/Message.antt =====
-- Searching a message: `str::contains` and `str::to_lowercase`, on ASCII.
use rdrive.Base.{Bytes, Bool, true, false, List, [], ◌∷◌, ◌+◌, leb, ◌==◌, ◌&&◌, ◌||◌, map, ℕ}
use rdrive.Base.{if◌then◌else◌}

pub has_prefix : Bytes → Bytes → Bool
has_prefix [] s = true
has_prefix (p ∷ ps) [] = false
has_prefix (p ∷ ps) (c ∷ s) = (p == c) && has_prefix ps s

-- `s.contains(pattern)`
unfoldable pub contains : Bytes → Bytes → Bool
unfolding has_prefix
contains pattern [] = has_prefix pattern []
contains pattern (c ∷ s) = has_prefix pattern (c ∷ s) || contains pattern s

abbrev lower : ℕ → ℕ
lower c = if leb b'A' c && leb c b'Z' then c + 32 else c

-- `s.to_lowercase()`
unfoldable pub to_lowercase : Bytes → Bytes
to_lowercase = map lower

-- `patterns.iter().any(|pattern| s.contains(pattern))`
unfoldable pub contains_any : List Bytes → Bytes → Bool
unfolding contains
contains_any [] s = false
contains_any (p ∷ ps) s = contains p s || contains_any ps s
