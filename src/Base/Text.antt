-- ===== src/Base/Text.antt =====
-- `str::trim` on ASCII text, and `str::parse` to an unsigned number of 64 bits.
use rdrive.Base.{
  ℕ, ◌+◌, ◌-◌, ◌*◌, ◌^◌, Bool, ◌&&◌, ◌||◌, Option, none, some, [], ◌∷◌, Bytes, is_empty, ltb, leb,
  ◌==◌, if◌then◌else◌,
}
use mathlib.Core.List.{reverse}

abbrev pub is_space : ℕ → Bool
is_space c = c == 32 || (leb 9 c && leb c 13)

unfoldable pub trim_start : Bytes → Bytes
trim_start [] = []
trim_start (c ∷ s) = let rest = trim_start s in if is_space c then rest else c ∷ s

unfoldable pub trim : Bytes → Bytes
unfolding trim_start
trim s = reverse (trim_start (reverse (trim_start s)))

abbrev is_digit : ℕ → Bool
is_digit c = leb b'0' c && leb c b'9'

-- The digits on top of what was read, within 64 bits.
unfoldable pub digits : ℕ → Bytes → Option ℕ
digits n [] = some n
digits n (c ∷ s) =
    let n' = n * 10 + (c - b'0') in
    let rest = digits n' s in if is_digit c && ltb n' (2 ^ 64) then rest else none

-- `s.parse::<usize>()`: digits, behind one `+` at most.
unfoldable pub parse_usize : Bytes → Option ℕ
unfolding digits
parse_usize [] = none
parse_usize (c ∷ s) =
    if c == b'+' then (if is_empty s then none else digits 0 s) else digits 0 (c ∷ s)
