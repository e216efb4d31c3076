-- ===== src/Util/Bitstream.antt =====
-- The bitstream of nexus/src/nexus_util.c: bits in bytes, the highest first.
use nexus_embedded.Base.{
  ℕ, zero, suc, ◌+◌, ◌-◌, ◌*◌, ◌/◌, ◌^◌, ◌≤◌, ◌<◌, ◌≡◌, refl, arith, true, ◌&&◌, List, get_or, set,
  bit_and, bit_or, u8, u16, ltb, ◌==◌, if◌then◌else◌, all_below, all_below_sound,
}
use nexus_embedded.Base.Bits.{bit_and_1}

-- `struct nexus_bitstream`; it holds a copy of the bytes that it points at.
pub record Bitstream : Type 0 where
  pub bytes : List ℕ
  pub capacity : ℕ
  pub length : ℕ
  pub position : ℕ

abbrev pub bitstream_init : (bytes : List ℕ) (capacity length : ℕ) → Bitstream
bitstream_init bytes capacity length = record {
  bytes = bytes;
  capacity = capacity;
  length = length;
  position = 0;
}

abbrev pub set_bit_position : ℕ → Bitstream → Bitstream
set_bit_position position s = record s { position = position }

abbrev byte_position : Bitstream → ℕ
byte_position s = s.position / 2 ^ 3

abbrev bit_shift : Bitstream → ℕ
bit_shift s = u8 ((byte_position s + 1) * 8 - s.position - 1)

-- `nexus_bitstream_push_bit`; a bit is 0 or 1.
unfoldable pub push_bit : (pushed : ℕ) → Bitstream → Bitstream
push_bit pushed s =
    let byte = get_or s.bytes (byte_position s) 0 in
    let changed = u8 (bit_or (bit_and (byte / 2 ^ bit_shift s) 0xfe) pushed * 2 ^ bit_shift s) in
    let position = u16 (s.position + 1) in
    record s {
      bytes = set s.bytes (byte_position s) changed;
      position = position;
      length = (if ltb s.length position then u16 (s.length + 1) else s.length);
    }

-- `nexus_bitstream_push_uint8`: the loop with its rounds left.
unfoldable pub push_bits_from : (rounds : ℕ) (bits pushed : ℕ) → Bitstream → Bitstream
push_bits_from zero bits pushed s = s
push_bits_from (suc rounds) bits pushed s =
    push_bits_from rounds bits (u8 (pushed * 2))
      (push_bit (bit_and (pushed / 2 ^ (bits - 1)) 0x01) s)

unfoldable pub push_uint8 : (pushed bits : ℕ) → Bitstream → Bitstream
push_uint8 pushed bits s = push_bits_from bits bits pushed s

-- `nexus_bitstream_pull_bit`.
unfoldable pub pull_bit : Bitstream → ℕ × Bitstream
pull_bit s = (
  bit_and (get_or s.bytes (byte_position s) 0 / 2 ^ bit_shift s) 0x01,
  record s { position = u16 (s.position + 1) },
)

-- `nexus_bitstream_pull_uint8`: the loop with its rounds left.
unfoldable pub pull_bits_from : (rounds : ℕ) (pulled : ℕ) → Bitstream → ℕ × Bitstream
pull_bits_from zero pulled s = (pulled, s)
pull_bits_from (suc rounds) pulled s =
    let (bit, s1) = pull_bit s in pull_bits_from rounds (u8 (bit_or (u8 (pulled * 2)) bit)) s1

unfoldable pub pull_uint8 : (bits : ℕ) → Bitstream → ℕ × Bitstream
pull_uint8 bits s = pull_bits_from bits 0x00 s

-- `nexus_bitstream_pull_uint16_be`.
unfoldable pub pull_uint16_be : (bits : ℕ) → Bitstream → ℕ × Bitstream
pull_uint16_be bits s =
    let msbyte_bits = u8 (if ltb 8 bits then 8 else bits) in
    let lsbyte_bits = u8 (if ltb 8 bits then bits - 8 else 0) in
    let (high, s1) = pull_uint8 msbyte_bits s in
    let (low, s2) = pull_uint8 lsbyte_bits s1 in (bit_or (u16 (high * 2 ^ lsbyte_bits)) low, s2)

or_table :
    all_below 128 (λ x. (bit_or (x * 2) 0 == x * 2) && (bit_or (x * 2) 1 == x * 2 + 1)) ≡ true
unfolding all_below
or_table = refl

pull_bit_le : (s : Bitstream) → (pull_bit s).0 ≤ 1
unfolding pull_bit
pull_bit_le s = omega (arith, bit_and_1 (get_or s.bytes (byte_position s) 0 / 2 ^ bit_shift s))

next_le : (x b : ℕ) → x < 128 → b ≤ 1 → u8 (bit_or (u8 (x * 2)) b) ≤ x * 2 + 1
next_le x b h k =
    let e : u8 (x * 2) ≡ x * 2 = omega arith in
    rw e (
      ground (
        arith,
        all_below_sound 128 (λ x. (bit_or (x * 2) 0 == x * 2) && (bit_or (x * 2) 1 == x * 2 + 1)) x
            or_table h,
      ))

-- The largest number of `rounds` bits more than `most` has.
abbrev with_bits : (rounds most : ℕ) → ℕ
with_bits zero most = most
with_bits (suc rounds) most = with_bits rounds (most * 2 + 1)

most_le : (rounds most : ℕ) → most ≤ with_bits rounds most
most_le zero most = omega arith
most_le (suc rounds) most = omega (arith, most_le rounds (most * 2 + 1))

pull_bits_from_le :
    (rounds pulled most : ℕ) (s : Bitstream)
    → pulled ≤ most
    → with_bits rounds most ≤ 255
    → (pull_bits_from rounds pulled s).0 ≤ with_bits rounds most
unfolding pull_bits_from
pull_bits_from_le zero pulled most s h k = h
pull_bits_from_le (suc rounds) pulled most s h k =
    let small : pulled < 128 = omega (arith, most_le rounds (most * 2 + 1)) in
    pull_bits_from_le rounds (u8 (bit_or (u8 (pulled * 2)) (pull_bit s).0)) (most * 2 + 1)
      (pull_bit s).1 (omega (arith, next_le pulled (pull_bit s).0 small (pull_bit_le s))) k

-- Up to eight bits pulled make a number of no more bits.
pub pull_uint8-bound :
    (bits : ℕ) (s : Bitstream) → with_bits bits 0 ≤ 255 → (pull_uint8 bits s).0 ≤ with_bits bits 0
unfolding pull_uint8
pull_uint8-bound bits s k = pull_bits_from_le bits 0 0 s (omega arith) k
