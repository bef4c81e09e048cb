-- ===== src/Home.antt =====
-- src/lib.rs, the directories and files below the user's home. None where there is no home directory.
pub mod Tests
use rdrive.Base.{Option, none, some, [], ◌∷◌, ◌++◌, codes, Bytes}
use rdrive.Disk.{FilePath}

-- `dirs::home_dir().ok_or_else(…)?` and the joins on it.
abbrev pub in_home : FilePath → Option FilePath → Option FilePath
in_home p none = none
in_home p (some home_dir) = some (home_dir ++ p)

abbrev joined : Bytes → Option FilePath → Option FilePath
joined name none = none
joined name (some dir_path) = some (dir_path ++ (name ∷ []))

unfoldable pub get_storage_dir : Option FilePath → Option FilePath
get_storage_dir = in_home (codes ".rdrive" ∷ codes "storage" ∷ [])

unfoldable pub get_public_storage_dir : Option FilePath → Option FilePath
get_public_storage_dir = in_home (codes ".rdrive" ∷ codes "storage" ∷ codes "public" ∷ [])

unfoldable pub get_authorized_client_dir : Option FilePath → Option FilePath
get_authorized_client_dir = in_home (codes ".rdrive" ∷ codes "authorized_keys" ∷ [])

unfoldable pub get_server_key_dir : Option FilePath → Option FilePath
get_server_key_dir = in_home (codes ".rdrive" ∷ codes "server" ∷ [])

unfoldable pub get_user_key_dir : Option FilePath → Option FilePath
get_user_key_dir = in_home (codes ".rdrive" ∷ codes "user" ∷ [])

unfoldable pub get_catalog_path : Option FilePath → Option FilePath
get_catalog_path home_dir = joined (codes "catalog.map") (get_user_key_dir home_dir)

unfoldable pub get_authorized_server_map_path : Option FilePath → Option FilePath
get_authorized_server_map_path home_dir = joined (codes "server.map") (get_user_key_dir home_dir)
