-- ===== src/Server/Files/Plain.antt =====
-- Where the names that a client chooses end up.
use rdrive.Base.{
  ℕ, ◌<◌, ◌≤◌, ◌≡◌, ◌⊎◌, refl, true, false, List, [], ◌∷◌, ◌++◌, arith, Bytes, codes, length,
  append_assoc, append-nil,
}
use rdrive.Disk.Join.{contains, is_plain}
use rdrive.Crypto.{Primitives}
use rdrive.Server.{Site}
use rdrive.Server.Files.{file_path, meta_path}

-- Digits and the letters from a to f.
abbrev pub AreHexDigits : Bytes → Type 0
AreHexDigits [] = Unit {0}
AreHexDigits (c ∷ s) = (((b'0' ≤ c) × (c ≤ b'9')) ⊎ ((b'a' ≤ c) × (c ≤ b'f'))) × AreHexDigits s

abbrev pub IsHexText : Bytes → Type 0
IsHexText x = AreHexDigits x × (0 < length x)

-- Names of one component: neither empty nor dots, and without slashes.
abbrev pub AllPlain : List Bytes → Type 0
AllPlain [] = Unit {0}
AllPlain (x ∷ xs) = (is_plain x ≡ true) × AllPlain xs

contains-hex :
    (c : ℕ) (x suffix : Bytes)
    → c < b'0'
    → AreHexDigits x
    → contains c suffix ≡ false
    → contains c (x ++ suffix) ≡ false
unfolding contains
contains-hex c [] suffix low h e = e
contains-hex c (b ∷ x) suffix low (digit, h) e =
    ground (arith, contains-hex c x suffix low h e, digit)

hex_plain :
    (x suffix : Bytes)
    → IsHexText x
    → contains b'/' suffix ≡ false
    → contains 0 suffix ≡ false
    → is_plain (x ++ suffix) ≡ true
hex_plain [] suffix (h, some_left) no_slash no_nul = absurd (omega (arith, some_left))
hex_plain (b ∷ x) suffix ((digit, h), some_left) no_slash no_nul = ground (
  arith,
  contains-hex b'/' (b ∷ x) suffix (omega arith) (digit, h) no_slash,
  contains-hex 0 (b ∷ x) suffix (omega arith) (digit, h) no_nul,
  digit,
)

-- Whatever a client sends as its file's key and id, and whatever its own key is, the two files of an upload lie three
-- plain names below the storage: no part is a dot or two, is empty, or has a slash or a NUL. The hexadecimal hashes
-- are only assumed to be digits, at least one.
pub file_path-AllPlain :
    (P : Primitives) (C : Site) (key client_key file_key file_id : Bytes)
    → ((s : Bytes) → IsHexText (P.hex (P.sha256 s)))
    → ((s : Bytes) → IsHexText (P.hex (P.sha512 s)))
    → (parts : List Bytes) × (parts' : List Bytes) × (file_path P C key client_key file_key file_id
        ≡ C.storage_path ++ parts)
      × (meta_path P C key client_key file_key file_id ≡ C.storage_path ++ parts')
      × (length parts ≡ 3)
      × (length parts' ≡ 3)
      × AllPlain parts
      × AllPlain parts'
unfolding contains
file_path-AllPlain P C key client_key file_key file_id hex256 hex512 =
    let user = P.hex (P.sha512 client_key) in
    let owner = P.hex (P.sha256 file_key) in
    let id = P.hex (P.sha256 file_id) in
    let dirs = user ∷ owner ∷ [] in
    let user_plain : is_plain user ≡ true =
      rw (append-nil user) at (hex_plain user [] (hex512 client_key) refl refl) in
    let owner_plain : is_plain owner ≡ true =
      rw (append-nil owner) at (hex_plain owner [] (hex256 file_key) refl refl) in
    (
      dirs ++ ((id ++ codes ".file") ∷ []),
      dirs ++ ((id ++ codes ".meta") ∷ []),
      append_assoc C.storage_path dirs ((id ++ codes ".file") ∷ []),
      append_assoc C.storage_path dirs ((id ++ codes ".meta") ∷ []),
      refl,
      refl,
      (user_plain, (owner_plain, (hex_plain id (codes ".file") (hex256 file_id) refl refl, tt))),
      (user_plain, (owner_plain, (hex_plain id (codes ".meta") (hex256 file_id) refl refl, tt))),
    )
