-- ===== src/Base/Bits.antt =====
-- Facts about the bit operations on bytes, by tables, and about low masks of any number.
use Prim.Native.Nat.{ℕ, zero, suc, ◌+◌, ◌-◌, ◌*◌, ◌/◌, ◌%◌, ◌^◌, ◌≤◌, ◌<◌, min}
use Prim.Native.Nat.{bit_and, bit_or, digits, bit_and-bitwise}
use mathlib.Core.Path.{◌≡◌, refl, ◌∙◌}
use mathlib.Core.Bool.{Bool, true, false, ◌&&◌, ◌||◌, not}
use native.Mathlib.Omega.{arith}
use nexus_embedded.Base.Tests.{all_below, all_below_sound, ◌==◌, ltb}

-- The test `x & (1 << b)` as a truth value.
unfoldable pub test_bit : ℕ → ℕ → Bool
test_bit x b = not (bit_and x (2 ^ b) == 0)

abbrev bool_eq : Bool → Bool → Bool
bool_eq true b = b
bool_eq false b = not b

bool_eq_sound : (a b : Bool) → bool_eq a b ≡ true → a ≡ b
bool_eq_sound a b h = ground arith

-- A statement about a byte and two bit positions, checked at every value.
abbrev holds_at_bits : (ℕ → ℕ → ℕ → Bool) → Bool
holds_at_bits p = all_below 8 (λ b. all_below 8 (λ c. all_below 256 (λ x. p x b c)))

holds_at_bits_sound :
    (p : ℕ → ℕ → ℕ → Bool) (x b c : ℕ)
    → holds_at_bits p ≡ true
    → x < 256
    → b < 8
    → c < 8
    → p x b c ≡ true
holds_at_bits_sound p x b c h hx hb hc =
    all_below_sound 256 (λ x. p x b c) x
      (all_below_sound 8 (λ c. all_below 256 (λ x. p x b c)) c
        (all_below_sound 8 (λ b. all_below 8 (λ c. all_below 256 (λ x. p x b c))) b h hb) hc)
      hx

abbrev or_law : ℕ → ℕ → ℕ → Bool
or_law x b c = bool_eq (test_bit (bit_or x (2 ^ b)) c) ((b == c) || test_bit x c)

or_table : holds_at_bits or_law ≡ true
unfolding all_below test_bit
or_table = refl

-- Setting bit `b` of a byte sets that bit and changes no other.
pub test_bit-bit_or :
    (x b c : ℕ)
    → x < 256
    → b < 8
    → c < 8
    → test_bit (bit_or x (2 ^ b)) c ≡ ((b == c) || test_bit x c)
test_bit-bit_or x b c hx hb hc =
    bool_eq_sound _ _ (holds_at_bits_sound or_law x b c or_table hx hb hc)

abbrev and_law : ℕ → ℕ → ℕ → Bool
and_law x b c = bool_eq (test_bit (bit_and x (255 - 2 ^ b)) c) (not (b == c) && test_bit x c)

and_table : holds_at_bits and_law ≡ true
unfolding all_below test_bit
and_table = refl

-- Masking bit `b` of a byte out clears that bit and changes no other.
pub test_bit-bit_and :
    (x b c : ℕ)
    → x < 256
    → b < 8
    → c < 8
    → test_bit (bit_and x (255 - 2 ^ b)) c ≡ (not (b == c) && test_bit x c)
test_bit-bit_and x b c hx hb hc =
    bool_eq_sound _ _ (holds_at_bits_sound and_law x b c and_table hx hb hc)

abbrev byte_law : ℕ → ℕ → ℕ → Bool
byte_law x b c = ltb (bit_or x (2 ^ b)) 256 && ltb (bit_and x (255 - 2 ^ b)) 256

byte_table : holds_at_bits byte_law ≡ true
unfolding all_below
byte_table = refl

-- Both results are bytes again.
pub bit_ops_lt :
    (x b : ℕ) → x < 256 → b < 8 → (bit_or x (2 ^ b) < 256) × (bit_and x (255 - 2 ^ b) < 256)
bit_ops_lt x b hx hb = ground (arith, holds_at_bits_sound byte_law x b 0 byte_table hx hb)

zero_table : all_below 8 (λ b. not (test_bit 0 b)) ≡ true
unfolding all_below test_bit
zero_table = refl

pub test_bit-zero : (b : ℕ) → b < 8 → test_bit 0 b ≡ false
test_bit-zero b h = ground (arith, all_below_sound 8 (λ b. not (test_bit 0 b)) b zero_table h)

-- What the digits of a conjunction with the mask `m` add up to, if those with half of it add up to
-- `half`.
masked_step :
    (m : ℕ) (half : ℕ → ℕ)
    → ((n a : ℕ) → a ≤ n → digits (λ b. zero) min n a (m / 2) ≡ half a)
    → (n a : ℕ) → a ≤ n
    → digits (λ b. zero) min n a m ≡ half (a / 2) * 2 + min (a % 2) (m % 2)
masked_step m half law zero zero h = omega (arith, law 0 0)
masked_step m half law (suc n) zero h = omega (arith, law 0 0)
masked_step m half law zero (suc a) h = elim h [ ]
masked_step m half law (suc n) (suc a) h = omega (arith, law n (suc a / 2))

masked_0 : (n a : ℕ) → a ≤ n → digits (λ b. zero) min n a 0 ≡ 0
masked_0 zero zero h = refl
masked_0 (suc n) zero h = refl
masked_0 zero (suc a) h = elim h [ ]
masked_0 (suc n) (suc a) h = omega (arith, masked_0 n (suc a / 2))

pub bit_and_1 : (a : ℕ) → bit_and a 1 ≡ a % 2
bit_and_1 a = bit_and-bitwise a 1 ∙ omega (arith, masked_step 1 (λ a. 0) masked_0 a a)

masked_3 : (n a : ℕ) → a ≤ n → digits (λ b. zero) min n a 3 ≡ a % 4
masked_3 n a h = omega (
  arith,
  masked_step 3 (λ a. a % 2) (λ n a h. omega (arith, masked_step 1 (λ a. 0) masked_0 n a h)) n a h,
)

-- Masks of the two and of the six low bits are remainders.
bit_and_3 : (a : ℕ) → bit_and a 3 ≡ a % 4
bit_and_3 a = bit_and-bitwise a 3 ∙ masked_3 a a (omega arith)

masked_15 : (n a : ℕ) → a ≤ n → digits (λ b. zero) min n a 15 ≡ a % 16
masked_15 n a h = omega (
  arith,
  masked_step 15 (λ a. a % 8) (λ n a h. omega (arith, masked_step 7 (λ a. a % 4) masked_3 n a h)) n
      a h,
)

pub bit_and_63 : (a : ℕ) → bit_and a 63 ≡ a % 64
bit_and_63 a =
    bit_and-bitwise a 63
    ∙ omega (
      arith,
      masked_step 63 (λ a. a % 32)
          (λ n a h. omega (arith, masked_step 31 (λ a. a % 16) masked_15 n a h)) a a,
    )
