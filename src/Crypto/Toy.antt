-- ===== src/Crypto/Toy.antt =====
-- Stand-in primitives, for the tests: they meet `IsLawful` and keep no secret.
use rdrive.Base.{
  ℕ, ◌+◌, ◌≡◌, refl, ap, Option, some, none, [], ◌∷◌, ◌++◌, arith, Bytes, length, take, replicate,
  length-append, length-replicate, length-take, bytes_eq, bytes_eq_refl, ◌==◌, if◌then◌else◌,
  bytes_eq_refl,
}
use rdrive.Crypto.Interface.{Primitives, IsLawful}

-- The first n bytes, filled up with zeros.
unfoldable pub fit : ℕ → Bytes → Bytes
unfolding take replicate
fit n s = take n (s ++ replicate n 0)

pub length-fit : (n : ℕ) (s : Bytes) → length (fit n s) ≡ n
unfolding fit
length-fit n s = omega (
  arith,
  length-take n (s ++ replicate n 0),
  length-append s (replicate n 0),
  length-replicate {A = ℕ} n 0,
)

unfoldable pub mix : Bytes → Bytes → Bytes
mix [] bs = []
mix (a ∷ as') [] = []
mix (a ∷ as') (b ∷ bs) = (a + b) ∷ mix as' bs

mix_comm : (s t : Bytes) → mix s t ≡ mix t s
unfolding mix
mix_comm [] [] = refl
mix_comm [] (t ∷ ts) = refl
mix_comm (s ∷ ss) [] = refl
mix_comm (s ∷ ss) (t ∷ ts) = let e : s + t ≡ t + s = omega arith in rw (e, mix_comm ss ts)

abbrev pub zero_tag : Bytes
zero_tag = 0 ∷ 0 ∷ 0 ∷ 0 ∷ 0 ∷ 0 ∷ 0 ∷ 0 ∷ 0 ∷ 0 ∷ 0 ∷ 0 ∷ 0 ∷ 0 ∷ 0 ∷ 0 ∷ []

abbrev pub toy_open : Bytes → Bytes → Bytes → Bytes → Option Bytes
toy_open key nonce ciphertext tag = if bytes_eq tag zero_tag then some ciphertext else none

abbrev pub toy : Primitives
toy = record {
  seal = λ key nonce plain. some (plain, zero_tag);
  unseal = toy_open;
  sha256 = fit 32;
  sha512 = fit 64;
  hex = λ s. s;
  unhex = λ s. some s;
  public_of = fit 32;
  sign = λ k m. fit 64 (fit 32 k ++ m);
  verify = λ k m s. bytes_eq s (fit 64 (k ++ m));
  verify_strict = λ k m s. bytes_eq s (fit 64 (k ++ m));
  valid_key = λ k. length k == 32;
  dh_public = fit 32;
  diffie_hellman = λ a b. mix (fit 32 a) b;
  random = λ i n. fit n (i ∷ []);
}

toy_opens :
    (plain ciphertext tag : Bytes)
    → ◌≡◌ {A = Option (Bytes × Bytes)} (some (plain, zero_tag)) (some (ciphertext, tag))
    → (ciphertext ≡ plain) × (tag ≡ zero_tag)
toy_opens plain ciphertext tag h = (cc, cc)

toy_unseal :
    (ciphertext tag plain : Bytes)
    → (if bytes_eq tag zero_tag then some ciphertext else none) ≡ some plain
    → plain ≡ ciphertext
toy_unseal ciphertext tag plain h = ground arith

pub toy-IsLawful : IsLawful toy
toy-IsLawful = record {
  unseal-seal = λ key nonce plain ciphertext tag h.
      let (e, f) = toy_opens plain ciphertext tag h in rw (e, f);
  length-seal = λ key nonce plain ciphertext tag h.
      let (e, f) = toy_opens plain ciphertext tag h in (ap length e, ap length f);
  length-unseal = λ key nonce ciphertext tag plain h. ap length (toy_unseal ciphertext tag plain h);
  length-random = λ i n. length-fit n _;
  length-sha256 = λ s. length-fit 32 s;
  length-sha512 = λ s. length-fit 64 s;
  length-sign = λ k m. length-fit 64 _;
  length-public_of = λ k. length-fit 32 k;
  length-dh_public = λ k. length-fit 32 k;
  verify_strict-sign = λ k m. bytes_eq_refl (fit 64 (fit 32 k ++ m));
  verify-sign = λ k m. bytes_eq_refl (fit 64 (fit 32 k ++ m));
  valid_key-public_of = λ k. rw (length-fit 32 k);
  dh_agree = λ a b. mix_comm (fit 32 a) (fit 32 b);
  unhex-hex = λ s. refl;
}
