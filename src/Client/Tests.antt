-- ===== src/Client/Tests.antt =====
-- A registration packet at a small server, and a server whose key has changed.
use rdrive.Base.{Bytes, true, ◌≡◌, refl, none, [], ◌∷◌, replicate}
use rdrive.Crypto.Toy.{fit, toy, toy-IsLawful}
use rdrive.Server.Auth.{register, admit}
use rdrive.Server.Toy.{site, wire_of, server_of}
use rdrive.Client.Toy.{user, keyed, server_wire}
use rdrive.Client.{Client, key_of, insert_key}
use rdrive.Client.Handshake.{known_server, remember, confirm, write_map}
use rdrive.Client.Handshake.Changed.{IsSaved, known_server-IsSaved}
use rdrive.Base.{some, ◌++◌, arith}
use rdrive.Wire.{Wire}
use rdrive.Wire.Frames.{framed}
use rdrive.Base.Outcome.{ok}
use rdrive.Server.{Site}
use rdrive.Server.Handshake.{server_hello, server_handshake, session_key}
use rdrive.Server.Handshake.Session.{challenge_at}
use rdrive.Client.Handshake.{approved_server_key, client_handshake, read_or_create}
use rdrive.Client.Handshake.Agreement.{
  client_hello_at, server_hello_to, answer, handshake_agreement,
}
use rdrive.Disk.{parent, create_dir_all, make_dirs, write_file, put, node_at}
use rdrive.Client.Commands.{auth_packet}
use rdrive.Client.Commands.Replay.{register-auth_packet}

register-auth_packet_example :
    register toy site []
      (auth_packet toy site user none (toy.public_of user.signing_key) (replicate 64 8))
      (server_of (wire_of []))
    ≡ admit toy site [] (toy.public_of user.signing_key) (server_of (wire_of []))
unfolding replicate
register-auth_packet_example =
    register-auth_packet toy toy-IsLawful site user [] (replicate 64 8) (server_of (wire_of []))
      refl

trusting : Client
trusting = record {
  wire = wire_of [];
  disk = record { nodes = []; fates = [] };
  answers = true ∷ [];
}

settled : Client
unfolding trusting known_server remember confirm write_map insert_key write_file parent put node_at
settled = (known_server toy site user (7 ∷ []) [] (9 ∷ []) trusting).1

known_server-IsSaved_example :
    (◌≡◌ {A = Bytes} (7 ∷ []) (7 ∷ []))
    × IsSaved toy site user
        (insert_key user.server_ip (toy.hex (toy.sha256 (toy.hex (7 ∷ [])))) [])
        settled.disk
unfolding settled
known_server-IsSaved_example =
    known_server-IsSaved toy site user (7 ∷ []) (9 ∷ []) (7 ∷ []) [] trusting settled refl refl

-- A client that adds the server's key unasked, and a server that reads back the two hellos.
meeting : Site
unfolding keyed fit server_hello
meeting = record keyed {
  client_hello = record {
    serialize = λ h. some (5 ∷ []);
    deserialize = λ s. some (client_hello_at toy toy-IsLawful keyed user (wire_of []));
  };
  server_hello = record {
    serialize = λ h. some (6 ∷ []);
    deserialize = λ s. some (server_hello_to toy toy-IsLawful keyed user server_wire (wire_of []));
  };
}

newcomer : Client
unfolding meeting
newcomer = record trusting {
  wire =
      wire_of (
        framed (6 ∷ [])
        ++ (framed (challenge_at toy toy-IsLawful meeting server_wire) ++ (8 ∷ [])));
}

contacted : Wire
unfolding meeting
contacted = record server_wire {
  input =
      framed (5 ∷ [])
      ++ (framed (
            answer toy toy-IsLawful meeting user
              (challenge_at toy toy-IsLawful meeting server_wire))
          ++ (9 ∷ []));
}

acquainted : Client
unfolding newcomer approved_server_key meeting
acquainted = (approved_server_key toy meeting user true meeting.pub_key newcomer).1

handshake_agreement_example :
    (shared : Bytes) × (sw' : Wire) × (cw' : Wire) × (server_handshake toy meeting contacted
      ≡ (ok (shared, toy.public_of user.signing_key), sw'))
    × (client_handshake toy meeting user true newcomer
        ≡ (ok (session_key toy shared), record acquainted { wire = cw' }))
    × (sw'.output
        ≡ (contacted.output ++ framed (6 ∷ []))
          ++ framed (challenge_at toy toy-IsLawful meeting contacted))
    × (cw'.output
        ≡ (newcomer.wire.output ++ framed (5 ∷ []))
          ++ framed (
              answer toy toy-IsLawful meeting user
                (challenge_at toy toy-IsLawful meeting contacted)))
    × (sw'.input ≡ 9 ∷ [])
    × (cw'.input ≡ 8 ∷ [])
unfolding contacted newcomer acquainted meeting read_or_create create_dir_all trusting make_dirs
    node_at remember write_map write_file parent key_of insert_key known_server
handshake_agreement_example =
    handshake_agreement toy toy-IsLawful meeting user true (5 ∷ []) (6 ∷ []) (8 ∷ []) (9 ∷ [])
      contacted newcomer acquainted (refl, refl) refl (refl, refl) (refl, refl)
      ((omega arith, omega arith), (omega arith, omega arith)) (λ w. refl) refl refl
