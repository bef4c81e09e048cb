-- ===== src/Server/Echo/Ends.antt =====
-- The echo loop comes to its end.
use rdrive.Base.{
  ℕ, zero, suc, ◌+◌, ◌-◌, ◌<◌, ◌≤◌, ◌≡◌, ◌≢◌, refl, ap, arith, Bytes, length, length-drop,
  Bool-cases, Option, none, some, inl, inr,
}
use rdrive.Base.Outcome.{Outcome, ok, err, panic, pending}
use rdrive.Fault.{Fault, serialize_failed}
use rdrive.Run.{Run, after, ◌>>=◌, or_fail}
use rdrive.Run.Laws.{>>=-eq-ok, Run-cases}
use rdrive.Crypto.{Primitives}
use rdrive.Wire.{Wire, read_exact, grown}
use rdrive.Wire.Frames.{
  read_frame_length, open_frame, read_body, read_encrypt_data_into, write_encrypt_frame_into,
}
use rdrive.Server.{Site}
use rdrive.Server.Reply.Input.{send_frame_input}
use rdrive.Server.Reply.{send_frame}
use rdrive.Server.Echo.{is_quit, echo_reply, echo_payload, handle_echo_perf}

read_exact_input : (n : ℕ) (w : Wire) → length (read_exact n w).1.input ≤ length w.input
unfolding read_exact
read_exact_input n w = ground (arith, length-drop n w.input)

read_frame_length_input :
    (w w' : Wire) (n : ℕ) → read_frame_length w ≡ (ok n, w') → length w'.input < length w.input
unfolding read_frame_length read_exact
read_frame_length_input w w' n h = ground (arith, length-drop 4 w.input)

module _ (P : Primitives) (key : Bytes) where
  read_body_input : (n : ℕ) (w : Wire) → length (read_body P key n w).1.input ≤ length w.input
  unfolding read_body
  read_body_input n w =
      ground (arith, read_exact_input n (record w { pool = grown (n + (n - 12 - 16)) w.pool }))

  send_frame-ne-pending : (s : Bytes) (w : Wire) → (send_frame P key s w).0 ≢ pending
  unfolding send_frame
  send_frame-ne-pending s w = elim (Run-cases (write_encrypt_frame_into P key s w)) [
    | inl (a, t, e) ↦ ground (arith, e)
    | inr (inl (a, t, e)) ↦ ground (arith, e)
    | inr (inr (inl (t, e))) ↦ ground (arith, e)
    | inr (inr (inr (t, e))) ↦ ground (arith, e)
  ]

  open_frame_input : (n : ℕ) (w : Wire) → length (open_frame P key n w).1.input ≤ length w.input
  open_frame_input n w = ground (arith, read_body_input n w)

  read_shrinks :
      (w w' : Wire) (s : Bytes)
      → read_encrypt_data_into P key w ≡ (ok s, w')
      → length w'.input < length w.input
  unfolding read_encrypt_data_into
  read_shrinks w w' s h =
      let (n, w₁, e, k) = >>=-eq-ok read_frame_length (open_frame P key) w h in
      let same = ap (λ r. length r.1.input) k in
      omega (arith, read_frame_length_input w w₁ n e, open_frame_input n w₁, same)

  -- A message's encoding, sent if there is one.
  sent_input :
      (o : Option Bytes) (w : Wire)
      → ((or_fail o serialize_failed >>= send_frame P key) w).1.input ≡ w.input
  sent_input none w = refl
  sent_input (some s) w = send_frame_input P key s w

  sent-ne-pending :
      (o : Option Bytes) (w : Wire)
      → ((or_fail o serialize_failed >>= send_frame P key) w).0 ≢ pending
  sent-ne-pending none w = ground arith
  sent-ne-pending (some s) w = send_frame-ne-pending s w

seq-ne-pending :
    (again : Run Wire (Unit {0})) (r : Outcome Fault (Unit {0}) × Wire)
    → r.0 ≢ pending
    → (again r.1).0 ≢ pending
    → (after (λ _. again) r).0 ≢ pending
seq-ne-pending again (ok a, w) h k = k
seq-ne-pending again (err e, w) h k = h
seq-ne-pending again (panic, w) h k = h
seq-ne-pending again (pending, w) h k = h

module _ (P : Primitives) (C : Site) (key : Bytes) where
  echo_reply_input : (s : Bytes) (w : Wire) → (echo_reply P C key s w).1.input ≡ w.input
  unfolding echo_reply
  echo_reply_input s w = sent_input P key _ w

  echo_reply-ne-pending : (s : Bytes) (w : Wire) → (echo_reply P C key s w).0 ≢ pending
  unfolding echo_reply
  echo_reply-ne-pending s w = sent-ne-pending P key _ w

  -- The reply to a payload, and a rest of the loop that ends on any wire with the same input.
  echo_payload-ne-pending :
      (r : Outcome Fault Bytes) (w : Wire) (again : Run Wire (Unit {0}))
      → ((s : Bytes) → r ≡ ok s → (w' : Wire) → w'.input ≡ w.input → (again w').0 ≢ pending)
      → (echo_payload P C key again r w).0 ≢ pending
  unfolding echo_payload
  echo_payload-ne-pending (ok s) w again h = elim (Bool-cases (is_quit s)) [
    | inl q ↦ rw q (λ p. ground arith)
    | inr q ↦ rw q (
        seq-ne-pending again (echo_reply P C key s w) (echo_reply-ne-pending s w)
          (h s refl (echo_reply P C key s w).1 (echo_reply_input s w)))
  ]
  echo_payload-ne-pending (err e) w again h = ground arith
  echo_payload-ne-pending panic w again h = ground arith
  echo_payload-ne-pending pending w again h = ground arith

  -- A round needs bytes to go on, so that fuel beyond the bytes that the client sends is enough: the loop comes
  -- to an end, whatever the client sends and however it stops.
  pub handle_echo_perf-ne-pending :
      (fuel : ℕ) (w : Wire) → length w.input < fuel → (handle_echo_perf P C key fuel w).0 ≢ pending
  unfolding handle_echo_perf
  handle_echo_perf-ne-pending zero w h = absurd (omega arith)
  handle_echo_perf-ne-pending (suc fuel) w h =
      let w₁ = (read_encrypt_data_into P key w).1 in
      echo_payload-ne-pending (read_encrypt_data_into P key w).0 w₁ (handle_echo_perf P C key fuel)
        (λ s e w' same.
          let shorter = read_shrinks P key w w₁ s (ap (λ r. (r, w₁)) e) in
          let kept = ap (λ l. length l) same in
          handle_echo_perf-ne-pending fuel w' (omega (arith, shorter, kept)))
