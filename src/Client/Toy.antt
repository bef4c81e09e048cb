-- ===== src/Client/Toy.antt =====
-- A small client, and the server that it meets.
use rdrive.Base.{codes, Bytes, [], ◌∷◌}
use rdrive.Crypto.Toy.{toy}
use rdrive.Wire.{Wire}
use rdrive.Server.{Site}
use rdrive.Server.Toy.{site, wire_of, opaque_codec}
use rdrive.Client.{Profile}

abbrev pub user : Profile
user = record {
  user_key_dir = [];
  server_map_path = codes "server.map" ∷ [];
  server_map = opaque_codec;
  server_ip = [];
  signing_key = 3 ∷ [];
}

-- A server with a pair of keys.
abbrev pub own_key : Bytes
own_key = 7 ∷ []

abbrev pub keyed : Site
keyed = record site { pri_key = own_key; pub_key = toy.public_of own_key }

abbrev pub server_wire : Wire
server_wire = record (wire_of []) { draws = 4 }
