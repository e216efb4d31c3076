-- ===== src/Util/Check.antt =====
-- The integrity check: nexus/utils/siphash_24.c and `nexus_check_compute` of nexus/src/nexus_util.c.
mod Tests
use nexus_embedded.Base.{
  ℕ, zero, suc, ◌+◌, ◌-◌, ◌*◌, ◌/◌, ◌%◌, ◌^◌, List, [], ◌∷◌, bit_or, bit_xor, length, get_or, take,
  drop, replicate, le32, ◌++◌, IsBytes, ◌≡◌, refl, arith, length-take,
}

-- The working variables `v0` to `v3`.
pub record SipState : Type 0 where
  pub v0 : ℕ
  pub v1 : ℕ
  pub v2 : ℕ
  pub v3 : ℕ

abbrev u64 : ℕ → ℕ
u64 n = n % 2 ^ 64

rotl : ℕ → ℕ → ℕ
rotl x b = bit_or (u64 (x * 2 ^ b)) (x / 2 ^ (64 - b))

-- `SIPROUND`, one assignment a line.
sipround : SipState → SipState
unfolding rotl
sipround s =
    let a0 = u64 (s.v0 + s.v1) in
    let a1 = bit_xor (rotl s.v1 13) a0 in
    let b0 = rotl a0 32 in
    let a2 = u64 (s.v2 + s.v3) in
    let a3 = bit_xor (rotl s.v3 16) a2 in
    let c0 = u64 (b0 + a3) in
    let b3 = bit_xor (rotl a3 21) c0 in
    let b2 = u64 (a2 + a1) in
    let b1 = bit_xor (rotl a1 17) b2 in record { v0 = c0; v1 = b1; v2 = rotl b2 32; v3 = b3 }

-- `U8TO64_LE`.
pub u8to64_le : List ℕ → ℕ
u8to64_le p = bit_or (get_or p 0 0) (
    bit_or (get_or p 1 0 * 2 ^ 8) (
      bit_or (get_or p 2 0 * 2 ^ 16) (
        bit_or (get_or p 3 0 * 2 ^ 24) (
          bit_or (get_or p 4 0 * 2 ^ 32) (
            bit_or (get_or p 5 0 * 2 ^ 40)
              (bit_or (get_or p 6 0 * 2 ^ 48) (get_or p 7 0 * 2 ^ 56)))))))

-- `U64TO8_LE`.
u64to8_le : ℕ → List ℕ
u64to8_le v = le32 (v % 2 ^ 32) ++ le32 (v / 2 ^ 32)

absorb : SipState → ℕ → SipState
unfolding sipround
absorb s m =
    let s' = sipround (sipround (record s { v3 = bit_xor s.v3 m })) in
    record s' { v0 = bit_xor s'.v0 m }

-- The loop over whole words; the number is the words left.
sip_words : ℕ → SipState → List ℕ → SipState
unfolding absorb u8to64_le
sip_words zero s input = s
sip_words (suc n) s input = sip_words n (absorb s (u8to64_le input)) (drop 8 input)

-- The fall-through `switch` over the last bytes, the highest first.
sip_tail : ℕ → ℕ → List ℕ → ℕ
sip_tail zero b input = b
sip_tail (suc i) b input = sip_tail i (bit_or b (get_or input i 0 * 2 ^ (8 * i))) input

-- `siphash24_compute`: the eight bytes of the hash of `input` under the key `k`.
siphash24_compute : List ℕ → ℕ → List ℕ → List ℕ
unfolding u8to64_le sip_words sip_tail absorb sipround u64to8_le
siphash24_compute input inlen k =
    let k0 = u8to64_le k in
    let k1 = u8to64_le (drop 8 k) in
    let start : SipState = record {
      v0 = bit_xor 0x736f6d6570736575 k0;
      v1 = bit_xor 0x646f72616e646f6d k1;
      v2 = bit_xor 0x6c7967656e657261 k0;
      v3 = bit_xor 0x7465646279746573 k1;
    } in
    let words = sip_words (inlen / 8) start input in
    let b = sip_tail (inlen % 8) (u64 (inlen * 2 ^ 56)) (drop (inlen / 8 * 8) input) in
    let last = absorb words b in
    let s = sipround (sipround (sipround (sipround (record last { v2 = bit_xor last.v2 0xff })))) in
    u64to8_le (bit_xor s.v0 (bit_xor s.v1 (bit_xor s.v2 s.v3)))

abbrev pub integrity_check_fixed_00_key : List ℕ
integrity_check_fixed_00_key = replicate 16 0

abbrev pub integrity_check_fixed_ff_key : List ℕ
integrity_check_fixed_ff_key = replicate 16 0xff

-- `nexus_check_compute` over an array of bytes; the value is its eight bytes.
unfoldable pub check_compute : List ℕ → List ℕ → List ℕ
unfolding siphash24_compute
check_compute key bytes = siphash24_compute bytes (length bytes) key

-- `nexus_check_compute_pseudorandom_bytes`: one byte of iteration count, then the seed.
unfoldable pub check_compute_pseudorandom_bytes : List ℕ → List ℕ → ℕ → List ℕ
unfolding check_compute
check_compute_pseudorandom_bytes key seed output_size =
    take output_size (check_compute key (0 ∷ seed))

-- `nexus_check_value_as_uint64`.
unfoldable pub check_value_as_uint64 : List ℕ → ℕ
unfolding u8to64_le
check_value_as_uint64 value = u8to64_le value

u64to8_le-IsBytes : (v : ℕ) → IsBytes (u64to8_le v)
unfolding u64to8_le
u64to8_le-IsBytes v = omega arith

-- A check value is eight bytes.
pub check_compute-IsBytes : (key bytes : List ℕ) → IsBytes (check_compute key bytes)
unfolding check_compute siphash24_compute
check_compute-IsBytes key bytes = u64to8_le-IsBytes _

pub length-check_compute : (key bytes : List ℕ) → length (check_compute key bytes) ≡ 8
unfolding check_compute siphash24_compute u64to8_le
length-check_compute key bytes = refl

pub length-pseudorandom_8 :
    (key seed : List ℕ) → length (check_compute_pseudorandom_bytes key seed 8) ≡ 8
unfolding check_compute_pseudorandom_bytes
length-pseudorandom_8 key seed =
    omega (arith, length-take 8 (check_compute key (0 ∷ seed)), length-check_compute key (0 ∷ seed))
