-- ===== src/Client/Perf/Percentiles.antt =====
-- When the first phase panics, and the order of its percentiles.
use rdrive.Base.{
  ℕ, zero, suc, ◌+◌, ◌*◌, ◌/◌, ◌≤◌, ◌<◌, ◌≡◌, ◌≢◌, refl, ◌∙◌, sym, inl, inr, ◌⊎◌, some, List, [],
  ◌∷◌, ◌++◌, arith, length, length-append, leb, ◌==◌, Bool-cases,
}
use rdrive.Base.Outcome.{ok, panic}
use rdrive.Client.Perf.{
  Attempt, connected, out_of_ports, failed, Sample, no_sample, sample_handshakes, insert, sort,
  get_elem?, percentile, Report, handshake_report,
}

length-insert : (x : ℕ) (xs : List ℕ) → length (insert x xs) ≡ length xs + 1
unfolding insert
length-insert x [] = omega arith
length-insert x (y ∷ ys) = ground (arith, length-insert x ys)

pub length-sort : (xs : List ℕ) → length (sort xs) ≡ length xs
unfolding sort
length-sort [] = refl
length-sort (x ∷ xs) = omega (arith, length-insert x (sort xs), length-sort xs)

-- As many latencies as successes.
length-latencies :
    (attempts : List Attempt) (s : Sample)
    → length s.latencies ≡ s.hss
    → length (sample_handshakes attempts s).latencies ≡ (sample_handshakes attempts s).hss
unfolding sample_handshakes
length-latencies [] s h = h
length-latencies (connected t ∷ rest) s h = ground (
  arith,
  length-append s.latencies (t ∷ []),
  length-latencies rest (record s { hss = s.hss + 1; latencies = s.latencies ++ (t ∷ []) }),
)
length-latencies (out_of_ports ∷ rest) s h = h
length-latencies (failed ∷ rest) s h =
    ground (arith, length-latencies rest (record s { hsf = s.hsf + 1 }))

get_elem?-some : (xs : List ℕ) (i : ℕ) → i < length xs → (a : ℕ) × (get_elem? xs i ≡ some a)
get_elem?-some [] i h = absurd (omega arith)
get_elem?-some (x ∷ xs) zero h = (x, refl)
get_elem?-some (x ∷ xs) (suc i) h = get_elem?-some xs i (omega arith)

AllFrom : ℕ → List ℕ → Type 0
AllFrom n [] = Unit {0}
AllFrom n (x ∷ xs) = (n ≤ x) × AllFrom n xs

pub IsSorted : List ℕ → Type 0
IsSorted [] = Unit {0}
IsSorted (x ∷ xs) = AllFrom x xs × IsSorted xs

AllFrom-lower : (m n : ℕ) (xs : List ℕ) → m ≤ n → AllFrom n xs → AllFrom m xs
unfolding AllFrom
AllFrom-lower m n [] h a = tt
AllFrom-lower m n (x ∷ xs) h (le, a) = (omega arith, AllFrom-lower m n xs h a)

insert-AllFrom : (n x : ℕ) (xs : List ℕ) → n ≤ x → AllFrom n xs → AllFrom n (insert x xs)
unfolding AllFrom insert
insert-AllFrom n x [] h a = (h, tt)
insert-AllFrom n x (y ∷ ys) h (le, a) = elim (Bool-cases (leb x y)) [
  | inl e ↦ rw e (h, (le, a))
  | inr e ↦ rw e (le, insert-AllFrom n x ys h a)
]

insert-IsSorted : (x : ℕ) (xs : List ℕ) → IsSorted xs → IsSorted (insert x xs)
unfolding AllFrom IsSorted insert
insert-IsSorted x [] s = (tt, tt)
insert-IsSorted x (y ∷ ys) (a, s) = elim (Bool-cases (leb x y)) [
  | inl e ↦ let le : x ≤ y = ground arith in rw e ((le, AllFrom-lower x y ys le a), (a, s))
  | inr e ↦
      let le : y ≤ x = ground arith in rw e (insert-AllFrom y x ys le a, insert-IsSorted x ys s)
]

pub sort-IsSorted : (xs : List ℕ) → IsSorted (sort xs)
unfolding IsSorted sort
sort-IsSorted [] = tt
sort-IsSorted (x ∷ xs) = insert-IsSorted x (sort xs) (sort-IsSorted xs)

get_elem?_from : (n : ℕ) (xs : List ℕ) (i b : ℕ) → AllFrom n xs → get_elem? xs i ≡ some b → n ≤ b
unfolding AllFrom
get_elem?_from n [] i b a h = absurd (ground (arith, h))
get_elem?_from n (x ∷ xs) zero b (le, a) h = ground (arith, h, le)
get_elem?_from n (x ∷ xs) (suc i) b (le, a) h = get_elem?_from n xs i b a h

get_elem?_mono :
    (xs : List ℕ) (i j a b : ℕ)
    → IsSorted xs
    → i ≤ j
    → get_elem? xs i ≡ some a
    → get_elem? xs j ≡ some b
    → a ≤ b
unfolding IsSorted
get_elem?_mono [] i j a b s le h k = absurd (ground (arith, h))
get_elem?_mono (x ∷ xs) zero zero a b s le h k = ground (arith, h, k)
get_elem?_mono (x ∷ xs) zero (suc j) a b (all, s) le h k =
    let least = get_elem?_from x xs j b all k in ground (arith, h, least)
get_elem?_mono (x ∷ xs) (suc i) zero a b s le h k = absurd (omega arith)
get_elem?_mono (x ∷ xs) (suc i) (suc j) a b (all, s) le h k =
    get_elem?_mono xs i j a b s (omega arith) h k

-- A percentile below the hundredth of a list that is not empty is one of its elements.
percentile-ok :
    (k : ℕ) (xs : List ℕ)
    → length xs * k / 100 < length xs
    → (a : ℕ) × (percentile k xs ≡ ok a) × (get_elem? xs (length xs * k / 100) ≡ some a)
unfolding percentile
percentile-ok k xs h =
    let (a, found) = get_elem?-some xs (length xs * k / 100) h in (a, rw found refl, found)

pub percentile_empty : (k : ℕ) (xs : List ℕ) → length xs ≡ 0 → percentile k xs ≡ panic
unfolding percentile
percentile_empty k [] h = refl
percentile_empty k (x ∷ xs) h = absurd (omega arith)

-- A sorted sample with a success: its percentiles are there, in order.
pub percentiles :
    (xs : List ℕ)
    → IsSorted xs
    → length xs ≢ 0
    → (a b c : ℕ) × (percentile 50 xs ≡ ok a)
      × (percentile 95 xs ≡ ok b)
      × (percentile 99 xs ≡ ok c)
      × (a ≤ b)
      × (b ≤ c)
percentiles xs s some_left =
    let (a, ea, ga) = percentile-ok 50 xs (omega arith) in
    let (b, eb, gb) = percentile-ok 95 xs (omega arith) in
    let (c, ec, gc) = percentile-ok 99 xs (omega arith) in
    (
      a,
      b,
      c,
      ea,
      eb,
      ec,
      get_elem?_mono xs _ _ a b s (omega arith) ga gb,
      get_elem?_mono xs _ _ b c s (omega arith) gb gc,
    )

length-sample :
    (attempts : List Attempt)
    → length (sort (sample_handshakes attempts no_sample).latencies)
      ≡ (sample_handshakes attempts no_sample).hss
length-sample attempts =
    length-sort (sample_handshakes attempts no_sample).latencies
    ∙ length-latencies attempts no_sample refl

-- The first phase panics when its sample lasted less than a second or no handshake succeeded.
-- Otherwise it reports, and its percentiles are in order.
pub handshake_report_lem :
    (sample_elapsed : ℕ) (attempts : List Attempt)
    → ((handshake_report sample_elapsed attempts ≡ panic)
        × ((sample_elapsed ≡ 0) ⊎ ((sample_handshakes attempts no_sample).hss ≡ 0)))
      ⊎ ((r : Report) × (handshake_report sample_elapsed attempts ≡ ok r)
          × (sample_elapsed ≢ 0)
          × ((sample_handshakes attempts no_sample).hss ≢ 0)
          × (r.p50 ≤ r.p95)
          × (r.p95 ≤ r.p99))
unfolding handshake_report
handshake_report_lem secs attempts = elim (Bool-cases (secs == 0)) [
  | inl e ↦ inl (rw e refl, inl (ground (arith, e)))
  | inr e ↦ elim (Bool-cases ((sample_handshakes attempts no_sample).hss == 0)) [
    | inl z ↦
        let none_left : (sample_handshakes attempts no_sample).hss ≡ 0 = ground (arith, z) in
        inl (
          rw e (rw (percentile_empty 50 _ (length-sample attempts ∙ none_left)) refl),
          inr none_left,
        )
    | inr z ↦
        let some_left : (sample_handshakes attempts no_sample).hss ≢ 0 = ground (arith, z) in
        let (a, b, c, ea, eb, ec, ab, bc) =
          percentiles (sort (sample_handshakes attempts no_sample).latencies) (sort-IsSorted _)
            (λ none_left. some_left (sym (length-sample attempts) ∙ none_left)) in
        inr (
          record {
            handshake_per_sec = (sample_handshakes attempts no_sample).hss / secs;
            p50 = a;
            p95 = b;
            p99 = c;
          },
          rw e (rw ea (rw eb (rw ec refl))),
          ground (arith, e),
          some_left,
          ab,
          bc,
        )
  ]
]
