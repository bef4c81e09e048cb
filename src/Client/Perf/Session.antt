-- ===== src/Client/Perf/Session.antt =====
-- The benchmark's loop and the server's, on one connection.
use rdrive.Base.{
  ℕ, suc, ◌+◌, ◌/◌, ◌^◌, ◌<◌, ◌≤◌, ◌≡◌, refl, sym, ◌∙◌, ap, false, List, [], ◌∷◌, ◌++◌, arith,
  Bytes, length, drop, drop-of_length, append_assoc,
}
use mathlib.Core.Path.{subst}
use rdrive.Base.Outcome.{ok}
use rdrive.Run.{after}
use rdrive.Crypto.{Primitives, IsLawful}
use rdrive.Wire.{Wire}
use rdrive.Wire.Frames.{max_frame_length, write_encrypt_frame_into}
use rdrive.Wire.Limits.{sent}
use rdrive.Wire.Grows.{Grows, Grows-start, Keeps-write_encrypt_frame}
use rdrive.Wire.Delivered.{Seals}
use rdrive.Header.{IsFaithful, EchoDebugHeader}
use rdrive.Server.{Site}
use rdrive.Server.Echo.{is_quit, handle_echo_perf}
use rdrive.Client.Perf.Echoes.{Averages, record_echo}
use rdrive.Client.Perf.Exchange.{timed, echo_rounds}
use rdrive.Client.Perf.Answered.{answer, answered, IsAnswerable, echo_round-answer}
use rdrive.Client.Perf.Growth.{sent_trans, echo_rounds-Grows, answer-Grows, Keeps-handle_echo_perf}

-- No word that ends the server's loop is as long.
is_quit_long : (payload : Bytes) → 4 < length payload → is_quit payload ≡ false
unfolding is_quit
is_quit_long [] h = absurd (omega arith)
is_quit_long (a ∷ []) h = absurd (omega arith)
is_quit_long (a ∷ b ∷ []) h = absurd (omega arith)
is_quit_long (a ∷ b ∷ c ∷ []) h = absurd (omega arith)
is_quit_long (a ∷ b ∷ c ∷ d ∷ []) h = absurd (omega arith)
is_quit_long (a ∷ b ∷ c ∷ d ∷ e ∷ r) h = ground arith

-- Lengths of payloads beyond the words that end the loop, and within a frame.
abbrev pub AreLengths : List ℕ → Type 0
AreLengths [] = Unit {0}
AreLengths (n ∷ lens) = (4 < n) × (n + 28 ≤ max_frame_length) × AreLengths lens

-- The whole megabytes of each.
abbrev pub megabytes : List ℕ → ℕ
megabytes [] = 0
megabytes (n ∷ lens) = n / 1048576 + megabytes lens

module _ (P : Primitives) (L : IsLawful P) (seals : Seals P) (C : Site) (key : Bytes) where
  -- The first round, and what is left to both ends behind it.
  first_round :
      (rtt : ℕ → ℕ) (n : ℕ) (lens : List ℕ) (a : Averages) (more rest : Bytes) (w s : Wire)
      → IsFaithful C.echo_debug
      → ((payload : Bytes) → IsAnswerable P C key payload)
      → (4 < n) × (n + 28 ≤ max_frame_length)
      → (w.fates ≡ []) × (s.fates ≡ [])
      → s.input ≡ sent P L key w (echo_rounds P C key rtt (n ∷ lens) a w).1 ++ more
      → w.input ≡ sent P L key s (handle_echo_perf P C key (suc (length lens)) s).1 ++ rest
      → (h : EchoDebugHeader) × (w₂ : Wire) × (h.payload_len ≡ n)
        × (echo_rounds P C key rtt (n ∷ lens) a w
            ≡ echo_rounds P C key rtt lens (record_echo (timed h (rtt w₂.draws)) a) w₂)
        × ((w₂.fates ≡ []) × ((answer P C key s).fates ≡ []))
        × ((answer P C key s).input
            ≡ sent P L key w₂
                (echo_rounds P C key rtt lens (record_echo (timed h (rtt w₂.draws)) a) w₂).1
              ++ more)
        × (w₂.input
            ≡ sent P L key
                (answer P C key s)
                (handle_echo_perf P C key (length lens) (answer P C key s)).1
              ++ rest)
        × ((fuel : ℕ)
            → handle_echo_perf P C key (suc fuel) s
              ≡ handle_echo_perf P C key fuel (answer P C key s))
  unfolding echo_rounds
  first_round rtt n lens a more rest w s faithful answerable (lo, hi) (quiet, quiet') up down =
      let payload = P.random w.draws n in
      let size : length payload ≡ n = L.length-random w.draws n in
      let w₀ = record w { draws = w.draws + 1 } in
      let w₁ = (write_encrypt_frame_into P key payload w₀).1 in
      let last = (echo_rounds P C key rtt (n ∷ lens) a w).1 in
      let end = (handle_echo_perf P C key (suc (length lens)) s).1 in
      let s₁ = answer P C key s in
      let going = is_quit_long payload (omega (arith, size, lo)) in
      let first : s.input ≡ sent P L key w₀ w₁ ++ (sent P L key w₁ last ++ more) =
        up
        ∙ ap (λ o. o ++ more)
            (sent_trans P L key w w₁ last
              ((Keeps-write_encrypt_frame w.output P key payload).at w₀ (Grows-start w))
              (echo_rounds-Grows P C key rtt n lens a w))
        ∙ append_assoc (sent P L key w w₁) (sent P L key w₁ last) more in
      let (_, _, _, _, _, _, _, _, on) =
        answered P L seals C key payload (sent P L key w₁ last ++ more) w₀ s (quiet, quiet') going
          (omega (arith, size, hi)) (answerable payload) first in
      let loop : end ≡ (handle_echo_perf P C key (length lens) s₁).1 =
        ap (λ r. r.1) (on (length lens)) in
      let second : w₀.input ≡ sent P L key s s₁ ++ (sent P L key s₁ end ++ rest) =
        down
        ∙ ap (λ o. o ++ rest)
            (sent_trans P L key s s₁ end (answer-Grows P C key s) (
              subst (λ x. Grows s₁.output x) (sym loop)
                ((Keeps-handle_echo_perf P C key s₁.output (length lens)).at s₁ (Grows-start s₁))))
        ∙ append_assoc (sent P L key s s₁) (sent P L key s₁ end) rest in
      let (goes_on, left, still', (h, w₂, ran, same_len, _, left₂, still, same)) =
        echo_round-answer P L seals C key payload (sent P L key w₁ last ++ more)
          (sent P L key s₁ end ++ rest) w₀ s faithful (quiet, quiet') going
          (omega (arith, size, hi)) (answerable payload) first second in
      let run : echo_rounds P C key rtt (n ∷ lens) a w
          ≡ echo_rounds P C key rtt lens (record_echo (timed h (rtt w₂.draws)) a) w₂ =
        ap
          (after (λ h w'. echo_rounds P C key rtt lens (record_echo (timed h (rtt w'.draws)) a) w'))
          ran in
      (
        h,
        w₂,
        same_len ∙ size,
        run,
        (still, still'),
        left
            ∙ ap (λ o. drop (length o) last.output ++ more) (sym same)
            ∙ ap (λ x. sent P L key w₂ x ++ more) (ap (λ r. r.1) run),
        left₂ ∙ ap (λ x. sent P L key s₁ x ++ rest) loop,
        goes_on,
      )

  -- Against the server's echo loop every round of the benchmark succeeds: the client counts as many samples as it
  -- has sent payloads and adds up their megabytes, and the server's loop goes on behind them. Each end reads exactly
  -- what the other writes and its wire delivers, the payloads are longer than the words that end the loop and fit a
  -- frame, their megabytes fit the `u32` that counts them, and every answer can be encoded in a frame and is read back as it was written.
  pub echo_rounds-answered :
      (rtt : ℕ → ℕ) (lens : List ℕ) (a : Averages) (more rest : Bytes) (w s : Wire)
      → IsFaithful C.echo_debug
      → ((payload : Bytes) → IsAnswerable P C key payload)
      → AreLengths lens
      → a.payload_acc + megabytes lens < 2 ^ 32
      → (w.fates ≡ []) × (s.fates ≡ [])
      → s.input ≡ sent P L key w (echo_rounds P C key rtt lens a w).1 ++ more
      → w.input ≡ sent P L key s (handle_echo_perf P C key (length lens) s).1 ++ rest
      → (b : Averages) × (w' : Wire) × (s' : Wire) × (echo_rounds P C key rtt lens a w ≡ (ok b, w'))
        × (b.record_count ≡ a.record_count + length lens)
        × (b.payload_acc ≡ a.payload_acc + megabytes lens)
        × (w'.input ≡ rest)
        × (s'.input ≡ more)
        × ((fuel : ℕ)
            → handle_echo_perf P C key (length lens + fuel) s ≡ handle_echo_perf P C key fuel s')
  unfolding echo_rounds handle_echo_perf record_echo
  echo_rounds-answered rtt [] a more rest w s faithful answerable fit small quiet up down = (
    a,
    w,
    s,
    refl,
    omega arith,
    omega arith,
    down ∙ ap (λ x. x ++ rest) (drop-of_length (length s.output) s.output (omega arith)),
    up ∙ ap (λ x. x ++ more) (drop-of_length (length w.output) w.output (omega arith)),
    λ fuel. ap (λ n. handle_echo_perf P C key n s) (omega arith),
  )
  echo_rounds-answered rtt (n ∷ lens) a more rest w s faithful answerable (lo, hi, fit) small quiet
        up down =
      let (h, w₂, len, run, quiet', up', down', goes_on) =
        first_round rtt n lens a more rest w s faithful answerable (lo, hi) quiet up down in
      let (b, w₃, s₃, run', count, total, left₃, left₄, on') =
        echo_rounds-answered rtt lens (record_echo (timed h (rtt w₂.draws)) a) more rest w₂
          (answer P C key s) faithful answerable fit (omega (arith, small, len)) quiet' up' down' in
      (
        b,
        w₃,
        s₃,
        run ∙ run',
        omega (arith, count),
        omega (arith, total, len, small),
        left₃,
        left₄,
        λ fuel.
            ap (λ m. handle_echo_perf P C key m s) {y = suc (length lens + fuel)} (omega arith)
            ∙ goes_on (length lens + fuel)
            ∙ on' fuel,
      )
