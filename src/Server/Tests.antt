-- ===== src/Server/Tests.antt =====
-- A small server at single requests.
use rdrive.Base.{
  ℕ, ◌≡◌, ◌≢◌, refl, codes, some, none, [], ◌∷◌, ◌++◌, arith, Bytes, take, drop, replicate,
}
use rdrive.Base.Outcome.{ok, pending}
use rdrive.Crypto.{encrypt_into, decrypt_into}
use rdrive.Crypto.Toy.{toy, toy-IsLawful, fit, zero_tag}
use rdrive.Wire.{Wire, read_exact, write_all, grown}
use rdrive.Transfer.{receive_chunks, receive_chunk}
use rdrive.Wire.Frames.{framed, read_encrypt_data_into, write_encrypt_frame_into}
use rdrive.Disk.{parent, node_at, put, make_dirs, create_dir_all, write_file}
use rdrive.RateLimit.{is_allowed_cost}
use rdrive.Header.{UploadHeader, ErrorHeader, ClientHello, status, IsFaithful}
use rdrive.Server.{Site, Server}
use rdrive.Server.Reply.{send_failed, send_last, send_frame, send_success}
use rdrive.Server.Reply.Read.{read-send_failed}
use rdrive.Server.Handshake.{server_handshake}
use rdrive.Server.Handshake.Session.{challenge_at, server_handshake_accepts}
use rdrive.Server.Echo.{handle_echo_perf}
use rdrive.Server.Echo.Ends.{handle_echo_perf-ne-pending}
use rdrive.Server.Auth.{register, rotate}
use rdrive.Server.Auth.Signed.{register-disk, rotate-disk}
use rdrive.Server.Files.{receive_upload, store_upload, save_upload, slice_panics}
use rdrive.Server.Connection.{serve, cost}
use rdrive.Server.Connection.Limits.{serve_refused}
use rdrive.Server.Toy.{site, wire_of, server_of}

abbrev start : Server
start = server_of (wire_of [])

-- A challenge of ones with a signature and keys of zeros.
forged : ℕ → Bytes
unfolding replicate
forged n = replicate 64 1 ++ replicate n 0

register-disk_example : (register toy site [] (forged 96) start).1.disk ≡ start.disk
unfolding forged drop take fit
register-disk_example = register-disk toy site [] (forged 96) start refl

rotate-disk_example : (rotate toy site [] (forged 128) start).1.disk ≡ start.disk
unfolding forged drop take fit
rotate-disk_example = rotate-disk toy site [] (forged 128) start refl

-- The limiter of this server has no tokens at all.
serve_refused_example :
    ((serve toy site 1 (some 9) [] [] status start).1.disk ≡ start.disk)
    × ((serve toy site 1 (some 9) [] [] status start).1.locks ≡ start.locks)
    × ((serve toy site 1 (some 9) [] [] status start).1.tracker ≡ start.tracker)
    × ((serve toy site 1 (some 9) [] [] status start).1.limiter
        ≡ (is_allowed_cost 0 9 (cost status) start.limiter).0)
unfolding is_allowed_cost cost
serve_refused_example = serve_refused toy site 1 [] [] 9 status start refl

abbrev two_bytes : UploadHeader
two_bytes = record {
  file_id = codes "id";
  file_name = codes "n";
  file_size = 2;
  file_hash =
      1 ∷ 2 ∷ 0 ∷ 0 ∷ 0 ∷ 0 ∷ 0 ∷ 0 ∷ 0 ∷ 0 ∷ 0 ∷ 0 ∷ 0 ∷ 0 ∷ 0 ∷ 0 ∷ 0 ∷ 0 ∷ 0 ∷ 0 ∷ 0 ∷ 0 ∷ 0 ∷ 0
      ∷ 0 ∷ 0 ∷ 0 ∷ 0 ∷ 0 ∷ 0 ∷ 0 ∷ 0 ∷ [];
  file_key = codes "k";
}

-- A codec of error headers that reads back what it writes.
abbrev read_error_header : Bytes → ErrorHeader
read_error_header [] = record { code = 0; message = [] }
read_error_header (c ∷ s) = record { code = c; message = s }

abbrev faithful_site : Site
faithful_site = record site {
  error_header = record {
    serialize = λ e. some (e.code ∷ e.message);
    deserialize = λ s. some (read_error_header s);
  };
}

faithful : IsFaithful faithful_site.error_header
faithful a [] e = absurd (ground arith)
faithful a (c ∷ s) e = ground arith

abbrev sorry_header : ErrorHeader
sorry_header = record { code = 4; message = 9 ∷ [] }

failed_wire : Wire
unfolding send_failed write_all encrypt_into take drop fit
failed_wire = (send_failed toy [] faithful_site sorry_header (wire_of [])).1

sorry_read_back :
    (payload : Bytes) × (r' : Wire) × (read_encrypt_data_into toy [] (wire_of failed_wire.output)
      ≡ (ok (3 ∷ payload), r'))
    × (faithful_site.error_header.deserialize payload ≡ some sorry_header)
    × (r'.input ≡ [])
unfolding failed_wire drop send_last send_frame write_encrypt_frame_into grown
sorry_read_back =
    read-send_failed toy toy-IsLawful [] faithful_site sorry_header (wire_of []) failed_wire
      (wire_of failed_wire.output) faithful refl (λ s e. ground arith) refl

-- Two bytes on the wire, in one chunk.
uploading : Server
unfolding replicate
uploading = server_of (wire_of (replicate 12 6 ++ (1 ∷ 2 ∷ zero_tag)))

uploaded : Server
unfolding uploading receive_upload store_upload save_upload slice_panics create_dir_all make_dirs
    write_file parent put node_at send_success send_last send_frame write_encrypt_frame_into
    encrypt_into decrypt_into write_all read_exact grown take drop fit replicate receive_chunks
    receive_chunk
uploaded = (receive_upload toy site [] [] two_bytes uploading).1

abbrev hello : ClientHello
hello = record { x22519_key = 2 ∷ []; nonce = [] }

abbrev hello_site : Site
hello_site = record site {
  pub_key = fit 32 (7 ∷ []);
  client_hello = record { serialize = λ h. none; deserialize = λ s. some hello };
}

abbrev client_key : Bytes
client_key = 3 ∷ []

greeting : Wire
unfolding fit
greeting = wire_of (
    framed (5 ∷ [])
    ++ (framed (
          toy.sign client_key (challenge_at toy toy-IsLawful hello_site (wire_of []))
          ++ toy.public_of client_key)
        ++ (8 ∷ [])))

server_handshake_accepts_example : server_handshake toy hello_site greeting ≡ (
  ok (toy.diffie_hellman (toy.random 0 32) hello.x22519_key, toy.public_of client_key),
  record greeting {
    input = 8 ∷ [];
    output = framed (1 ∷ []) ++ framed (challenge_at toy toy-IsLawful hello_site greeting);
    draws = 3;
  },
)
unfolding greeting
server_handshake_accepts_example =
    server_handshake_accepts toy toy-IsLawful hello_site (5 ∷ []) (1 ∷ []) (8 ∷ []) client_key hello
      greeting refl refl refl (omega arith, omega arith) (omega arith) refl refl

handle_echo_perf-ne-pending_example :
    (handle_echo_perf toy site [] 3 (wire_of (1 ∷ 2 ∷ []))).0 ≢ pending
handle_echo_perf-ne-pending_example =
    handle_echo_perf-ne-pending toy site [] 3 (wire_of (1 ∷ 2 ∷ [])) (omega arith)
