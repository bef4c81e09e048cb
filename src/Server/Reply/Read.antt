-- ===== src/Server/Reply/Read.antt =====
-- What the client reads of a reply.
use rdrive.Base.{
  sym, append-nil, ◌+◌, ◌≤◌, ◌≡◌, refl, ◌∙◌, true, Option, none, some, [], ◌∷◌, ◌++◌, arith, Bytes,
  length,
}
use rdrive.Base.Outcome.{Outcome, ok, err, panic, pending}
use rdrive.Fault.{Fault, serialize_failed, write_timeout}
use rdrive.Run.{Run, ◌>>=◌, or_fail}
use rdrive.Run.Laws.{>>=-eq-ok}
use rdrive.Crypto.{Primitives, IsLawful}
use rdrive.Wire.{Wire, shutdown, elapsed, timeout}
use rdrive.Wire.Frames.{max_frame_length, read_encrypt_data_into, write_encrypt_frame_into}
use rdrive.Wire.Limits.{sent, read-write_encrypt_frame}
use rdrive.Header.{ErrorHeader, IsFaithful}
use rdrive.Server.{Site}
use rdrive.Server.Reply.{send_frame, send_last, send_failed}

pub timely :
    (e : Fault) (m : Run Wire (Unit {0})) (w w' : Wire)
    → timeout e m w ≡ (ok tt, w')
    → m w ≡ (ok tt, w')
timely e m w w' h = go (m w) h
  where
    go : (r : Outcome Fault (Unit {0}) × Wire) → elapsed e r ≡ (ok tt, w') → r ≡ (ok tt, w')
    go (ok a, s) p = p
    go (err f, s) p = p
    go (panic, s) p = p
    go (pending, s) p = absurd (ground arith)

serialized :
    (o : Option Bytes) (k : Bytes → Run Wire (Unit {0})) (w w' : Wire)
    → (or_fail o serialize_failed >>= k) w ≡ (ok tt, w')
    → (s : Bytes) × (o ≡ some s) × (k s w ≡ (ok tt, w'))
serialized none k w w' h = absurd (ground arith)
serialized (some s) k w w' h = (s, refl, h)

module _ (P : Primitives) (L : IsLawful P) (key : Bytes) where
  -- A last reply that is sent is what the other side reads as its next frame, and the connection is shut
  -- down behind it.
  pub read-send_last :
      (rsp rest : Bytes) (w w' r : Wire)
      → send_last P key rsp w ≡ (ok tt, w')
      → length rsp + 28 ≤ max_frame_length
      → r.input ≡ sent P L key w w' ++ rest
      → (w'.shut ≡ true)
        × ((r' : Wire) × (read_encrypt_data_into P key r ≡ (ok rsp, r')) × (r'.input ≡ rest))
  unfolding send_last send_frame
  read-send_last rsp rest w w' r h small e =
      let (_, w₁, sent_it, shut_it) = >>=-eq-ok (send_frame P key rsp) (λ _. shutdown) w h in
      let same : w'.output ≡ w₁.output = ground (arith, shut_it) in
      (
        ground (arith, shut_it),
        read-write_encrypt_frame P L key rsp rest w w₁ r
            (timely write_timeout (write_encrypt_frame_into P key rsp) w w₁ sent_it) small
            (rw same at e),
      )

  -- An error that the server has sent reaches the other side as the flag 3 and a message that it decodes to
  -- the same error, if the message's encoding is read back faithfully and fits a frame with its flag.
  pub read-send_failed :
      (C : Site) (e : ErrorHeader) (w w' r : Wire)
      → IsFaithful C.error_header
      → send_failed P key C e w ≡ (ok tt, w')
      → ((s : Bytes) → C.error_header.serialize e ≡ some s → length s + 29 ≤ max_frame_length)
      → r.input ≡ sent P L key w w'
      → (payload : Bytes) × (r' : Wire) × (read_encrypt_data_into P key r ≡ (ok (3 ∷ payload), r'))
        × (C.error_header.deserialize payload ≡ some e)
        × (r'.input ≡ [])
  unfolding send_failed
  read-send_failed C e w w' r faithful h small input =
      let (s, enc, sent_it) =
        serialized (C.error_header.serialize e) (λ p. send_last P key (3 ∷ p)) w w' h in
      let (_, (r', read, rest)) =
        read-send_last (3 ∷ s) [] w w' r sent_it (omega (arith, small s enc))
          (input ∙ sym (append-nil (sent P L key w w'))) in
      (s, r', read, faithful e s enc, rest)
