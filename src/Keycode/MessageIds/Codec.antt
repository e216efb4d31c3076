-- ===== src/Keycode/MessageIds/Codec.antt =====
-- The stored data of nexus_keycode_pro.c and their bytes.
use nexus_embedded.Base.{
  ℕ, zero, suc, ◌+◌, ◌≤◌, ◌<◌, ◌≡◌, List, [], ◌∷◌, ◌++◌, arith, length, get_or, le32, IsBytes,
  length-append, take-append,
}
use nexus_embedded.Keycode.State.{Stored, stored_bytes, stored_of_bytes}

-- Well-formed stored data: five bytes of flags, and `Pd` between its first value and the largest
-- 16-bit message ID.
pub record IsStored (s : Stored) : Type 0 where
  pub five : length s.received_flags ≡ 5
  pub are_bytes : IsBytes s.received_flags
  pub pd_low : 23 ≤ s.pd_index
  pub pd_high : s.pd_index ≤ 65535
  pub qc_byte : s.qc_test_codes_received < 256
  pub custom_byte : s.custom_flags < 256
  pub pad_byte : s.pad < 256

get_or-append :
    (xs ys : List ℕ) (j i d : ℕ) → j ≡ length xs + i → get_or (xs ++ ys) j d ≡ get_or ys i d
get_or-append [] ys j i d h = let e : j ≡ i = omega arith in rw e
get_or-append (x ∷ xs) ys zero i d h = absurd (omega arith)
get_or-append (x ∷ xs) ys (suc j) i d h = get_or-append xs ys j i d (omega arith)

pub length-stored_bytes : (s : Stored) → IsStored s → length (stored_bytes s) ≡ 12
unfolding stored_bytes
length-stored_bytes s v = omega (
  arith,
  length-append s.received_flags
      (s.qc_test_codes_received ∷ (le32 s.pd_index ++ (s.custom_flags ∷ s.pad ∷ []))),
  v.five,
)

-- Well-formed stored data are read back unchanged from the twelve bytes they take in memory.
pub stored_of_bytes-stored_bytes : (s : Stored) → IsStored s → stored_of_bytes (stored_bytes s) ≡ s
unfolding stored_of_bytes stored_bytes
stored_of_bytes-stored_bytes s v =
    let rest = s.qc_test_codes_received ∷ (le32 s.pd_index ++ (s.custom_flags ∷ s.pad ∷ [])) in
    ground (
      arith,
      v.five,
      v.pd_high,
      take-append s.received_flags rest 5,
      get_or-append s.received_flags rest 5 0 0,
      get_or-append s.received_flags rest 6 1 0,
      get_or-append s.received_flags rest 7 2 0,
      get_or-append s.received_flags rest 8 3 0,
      get_or-append s.received_flags rest 9 4 0,
      get_or-append s.received_flags rest 10 5 0,
      get_or-append s.received_flags rest 11 6 0,
    )
