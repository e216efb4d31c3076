-- ===== src/Util/Digits.antt =====
-- The digit stream of nexus/src/nexus_util.c: characters read as decimal numbers.
pub mod Laws
use nexus_embedded.Base.{
  ℕ, zero, suc, ◌+◌, ◌-◌, ◌*◌, Bool, true, false, ◌||◌, List, [], ◌∷◌, take, drop, u8, u16, u32,
  u32_max, sub32, ltb, if◌then◌else◌,
}

-- `struct nexus_digits`; it holds a copy of the whole array that it points at, which may be longer
-- than the digits that count.
pub record Digits : Type 0 where
  pub chars : List ℕ
  pub length : ℕ
  pub position : ℕ

-- `_chars_to_uint32`: the loop with the value so far, over the characters left.
unfoldable pub chars_to_uint32 : (value : ℕ) → List ℕ → ℕ
chars_to_uint32 value [] = value
chars_to_uint32 value (char ∷ chars) = chars_to_uint32 (u32 (value * 10 + sub32 char b'0')) chars

-- `nexus_digits_init`.
abbrev pub digits_init : (chars : List ℕ) (length : ℕ) → Digits
digits_init chars length = record { chars = chars; length = length; position = 0 }

-- `nexus_digits_remaining`, in 16 bits.
abbrev pub digits_remaining : Digits → ℕ
digits_remaining d = u16 (d.length + 65536 - d.position)

-- `nexus_digits_pull_uint32`; it does not look at how many digits remain.
unfoldable pub digits_pull_uint32 : (count : ℕ) → Digits → ℕ × Digits
unfolding chars_to_uint32
digits_pull_uint32 count d = (
  chars_to_uint32 0 (take count (drop d.position d.chars)),
  record d { position = u16 (count + d.position) },
)

-- `nexus_digits_try_pull_uint32`: the value, the new underrun mark and the stream.
unfoldable pub digits_try_pull_uint32 : (count : ℕ) (underrun : Bool) → Digits → ℕ × Bool × Digits
unfolding digits_pull_uint32
digits_try_pull_uint32 count underrun d =
    let (value, d1) = digits_pull_uint32 count d in
    if underrun || ltb (digits_remaining d) count then (u32_max, true, d) else (value, underrun, d1)

-- `nexus_digits_pull_uint8` and `nexus_digits_pull_uint16`.
unfoldable pub digits_pull_uint8 : (count : ℕ) → Digits → ℕ × Digits
unfolding digits_pull_uint32
digits_pull_uint8 count d =
    let (result, d1) = digits_pull_uint32 count d in
    if ltb (digits_remaining d) count
    then (255, d)
    else if ltb 255 result
    then (255, d1)
    else (u8 result, d1)

unfoldable pub digits_pull_uint16 : (count : ℕ) → Digits → ℕ × Digits
unfolding digits_pull_uint32
digits_pull_uint16 count d =
    let (result, d1) = digits_pull_uint32 count d in
    if ltb (digits_remaining d) count
    then (65535, d)
    else if ltb 65535 result
    then (65535, d1)
    else (u16 result, d1)
