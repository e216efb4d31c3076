-- ===== src/Util/Bitset.antt =====
-- The bitset of nexus/src/nexus_util.c. A bitset points at bytes that its creator owns: here it
-- holds a copy, and the callers write the changed bytes back to where they took them from.
pub mod Laws
use nexus_embedded.Base.{
  ℕ, zero, suc, ◌+◌, ◌-◌, ◌*◌, ◌/◌, ◌^◌, Bool, List, ◌++◌, bit_and, bit_or, get_or, set, drop,
  replicate, u8, if◌then◌else◌,
}
use nexus_embedded.Base.Bits.{test_bit}

pub record Bitset : Type 0 where
  pub bytes : List ℕ
  pub bytes_count : ℕ

-- `struct _bitset_indices` and `_bitset_get_indices`.
abbrev pub byte_index : ℕ → ℕ
byte_index element = u8 (element / 8)

abbrev pub bit_index : ℕ → ℕ
bit_index element = u8 (element - byte_index element * 8)

abbrev pub bitset_init : List ℕ → ℕ → Bitset
bitset_init bytes bytes_count = record { bytes = bytes; bytes_count = bytes_count }

unfoldable pub bitset_add : Bitset → ℕ → Bitset
bitset_add s element = record s {
  bytes =
      set s.bytes (byte_index element)
        (bit_or (get_or s.bytes (byte_index element) 0) (2 ^ bit_index element));
}

unfoldable pub bitset_remove : Bitset → ℕ → Bitset
bitset_remove s element = record s {
  bytes =
      set s.bytes (byte_index element)
        (bit_and (get_or s.bytes (byte_index element) 0) (255 - 2 ^ bit_index element));
}

unfoldable pub bitset_contains : Bitset → ℕ → Bool
bitset_contains s element = test_bit (get_or s.bytes (byte_index element) 0) (bit_index element)

-- `memset` of the first `bytes_count` bytes.
unfoldable pub bitset_clear : Bitset → Bitset
bitset_clear s = record s { bytes = replicate s.bytes_count 0 ++ drop s.bytes_count s.bytes }

-- The loop that moves flags down by `by`: `for (i = from; rounds are left; i++)`, copying flag `i`
-- of the old set to flag `i - by` of the new one. Both windows of the program are shifted so.
unfoldable pub copy_flags : Bitset → ℕ → ℕ → ℕ → Bitset → Bitset
copy_flags old by zero i new = new
copy_flags old by (suc rounds) i new =
    copy_flags old by rounds (i + 1)
      (if bitset_contains old i then bitset_add new (i - by) else new)
