-- ===== src/Home/Tests.antt =====
-- The paths below a home directory, and those of an upload.
use rdrive.Base.{◌+◌, ◌%◌, ◌≡◌, refl, inl, arith, List, [], ◌∷◌, ◌++◌, codes, some, Bytes, length}
use rdrive.Crypto.{Primitives}
use rdrive.Crypto.Toy.{toy, length-fit}
use rdrive.Disk.{FilePath}
use rdrive.Server.Files.{file_path, meta_path}
use rdrive.Server.Files.Plain.{AreHexDigits, AllPlain, file_path-AllPlain}
use rdrive.Server.Toy.{site}
use rdrive.Home.{get_catalog_path, get_user_key_dir}

abbrev home : FilePath
home = codes "home" ∷ codes "me" ∷ []

catalog_of_home :
    get_catalog_path (some home)
    ≡ some (home ++ (codes ".rdrive" ∷ codes "user" ∷ codes "catalog.map" ∷ []))
unfolding get_catalog_path get_user_key_dir
catalog_of_home = refl

-- The last decimal digit of each byte.
abbrev decimal : Bytes → Bytes
decimal [] = []
decimal (b ∷ s) = (b'0' + b % 10) ∷ decimal s

decimal-AreHexDigits : (s : Bytes) → AreHexDigits (decimal s)
decimal-AreHexDigits [] = tt
decimal-AreHexDigits (b ∷ s) = (inl (omega arith, omega arith), decimal-AreHexDigits s)

length-decimal : (s : Bytes) → length (decimal s) ≡ length s
length-decimal [] = refl
length-decimal (b ∷ s) = omega (arith, length-decimal s)

abbrev printing : Primitives
printing = record toy { hex = decimal }

file_path-AllPlain_example :
    (parts : List Bytes) × (parts' : List Bytes) × (file_path printing site []
        (1 ∷ [])
        (codes "k")
        (codes "../id")
      ≡ site.storage_path ++ parts)
    × (meta_path printing site [] (1 ∷ []) (codes "k") (codes "../id")
        ≡ site.storage_path ++ parts')
    × (length parts ≡ 3)
    × (length parts' ≡ 3)
    × AllPlain parts
    × AllPlain parts'
file_path-AllPlain_example =
    file_path-AllPlain printing site [] (1 ∷ []) (codes "k") (codes "../id")
      (λ s. (
        decimal-AreHexDigits (printing.sha256 s),
        omega (arith, length-decimal (printing.sha256 s), length-fit 32 s),
      ))
      (λ s. (
        decimal-AreHexDigits (printing.sha512 s),
        omega (arith, length-decimal (printing.sha512 s), length-fit 64 s),
      ))
