-- ===== src/Keycode/Pro/Full/Deinterleave.antt =====
-- The deinterleaving of activation messages undoes the adding of pseudorandom digits.
use nexus_embedded.Base.{
  ℕ, zero, suc, ◌+◌, ◌-◌, ◌*◌, ◌%◌, ◌≤◌, ◌<◌, ◌≡◌, refl, ap, ◌∙◌, List, [], ◌∷◌, arith, u8, IsBytes,
  Bool-cases, inl, inr, ltb,
}
use nexus_embedded.Util.Digits.Laws.{IsDigits}
use nexus_embedded.Keycode.Pro.Full.Parse.{mathmod10, deinterleave_digits}

-- With enough rounds the loop ends, with the remainder of the difference.
pub mathmod10_lem :
    (rounds a b : ℕ) → b ≤ a + 10 * rounds → mathmod10 rounds a b ≡ (a + 10 * rounds - b) % 10
unfolding mathmod10
mathmod10_lem zero a b h = omega arith
mathmod10_lem (suc rounds) a b h = elim (Bool-cases (ltb a b)) [
  | inl e ↦ rw e (mathmod10_lem rounds (a + 10) b (omega arith) ∙ omega arith)
  | inr e ↦ rw e (let le : b ≤ a = ground (arith, e) in omega arith)
]

-- What the origin does to the digits of a body: it adds the pseudorandom bytes, modulo 10.
abbrev pub interleave_digits : (keys prng_bytes : List ℕ) → List ℕ
interleave_digits [] prng_bytes = []
interleave_digits (key ∷ keys) [] = key ∷ keys
interleave_digits (key ∷ keys) (b ∷ prng_bytes) =
    ((key - b'0' + b) % 10 + b'0') ∷ interleave_digits keys prng_bytes

one_digit :
    (c b : ℕ)
    → b'0' ≤ c
    → c ≤ b'9'
    → b < 256
    → mathmod10 26 (u8 ((c - b'0' + b) % 10 + b'0' + 256 - b'0')) b + b'0' ≡ c
one_digit c b h k s =
    omega (arith, mathmod10_lem 26 (u8 ((c - b'0' + b) % 10 + b'0' + 256 - b'0')) b (omega arith))

pub deinterleave-interleave :
    (keys prng_bytes : List ℕ)
    → IsDigits keys
    → IsBytes prng_bytes
    → deinterleave_digits (interleave_digits keys prng_bytes) prng_bytes ≡ keys
unfolding deinterleave_digits
deinterleave-interleave [] prng_bytes h k = refl
deinterleave-interleave (key ∷ keys) [] h k = refl
deinterleave-interleave (key ∷ keys) (b ∷ prng_bytes) h k =
    rw (one_digit key b h.0 h.1 k.0)
      (ap (λ t. key ∷ t) (deinterleave-interleave keys prng_bytes h.2 k.1))
