-- ===== src/Keycode/MessageIds/Window.antt =====
-- The window over the message IDs: what the operations on flags do to the set of used IDs.
use nexus_embedded.Base.{
  ℕ, zero, suc, ◌+◌, ◌-◌, ◌*◌, ◌≤◌, ◌<◌, ◌≡◌, ◌∙◌, Bool, ◌&&◌, ◌||◌, List, arith, length, drop,
  replicate, u8, sub32, ltb, leb, IsBytes, length-append, length-drop, append-IsBytes, drop-append,
  drop-IsBytes, replicate-IsBytes,
}
use nexus_embedded.Util.Bitset.{Bitset, bitset_init, bitset_add, bitset_contains, copy_flags}
use nexus_embedded.Util.Bitset.Laws.{
  IsBitset, contains-add, contains-copy_flags, copy_flags_shape, add-IsBitset, length-add,
  contains-front, contains-zeros, contains-count,
}
use nexus_embedded.Keycode.State.{Stored}
use nexus_embedded.Keycode.MessageIds.{received_ids, shifted_flags, message_id_flag, add_all_from}
use nexus_embedded.Keycode.MessageIds.Codec.{IsStored}

-- An ID that can no longer be applied: it lies below the window, or its flag is set.
abbrev pub used : Stored → ℕ → Bool
used s id =
    ltb (id + 23) s.pd_index
    || (leb id s.pd_index && bitset_contains (received_ids s) (id + 23 - s.pd_index))

-- The flags of well-formed stored data, whatever `Pd` is.
pub record IsFlags (flags : List ℕ) : Type 0 where
  pub five : length flags ≡ 5
  pub are_bytes : IsBytes flags

pub IsFlags-IsBitset : (flags : List ℕ) (n : ℕ) → IsFlags flags → IsBitset (bitset_init flags n)
IsFlags-IsBitset flags n v = record { are_bytes = v.are_bytes; short = omega (arith, v.five) }

pub add-IsFlags :
    (flags : List ℕ) (n e : ℕ)
    → e < 24
    → IsFlags flags
    → IsFlags (bitset_add (bitset_init flags n) e).bytes
add-IsFlags flags n e h v =
    let a = add-IsBitset (bitset_init flags n) e (omega arith) (IsFlags-IsBitset flags n v) in
    record {
      five = omega (arith, length-add (bitset_init flags n) e, v.five);
      are_bytes = a.are_bytes;
    }

-- The index that the code computes, in 32-bit and 8-bit arithmetic.
same_index :
    (pd id : ℕ)
    → 23 ≤ pd
    → pd ≤ 65535
    → id ≤ pd
    → pd ≤ id + 23
    → u8 (sub32 23 (pd - id)) ≡ id + 23 - pd
same_index pd id lo hi a b = omega arith

-- The flag function agrees with `used` from the bottom of the window on, and is false below it.
pub message_id_flag_eq :
    (s : Stored) (id : ℕ)
    → IsStored s
    → id ≤ 65535
    → message_id_flag s id ≡ (leb s.pd_index (id + 23) && used s id)
unfolding message_id_flag
message_id_flag_eq s id v h = ground (
  arith,
  v.pd_low,
  v.pd_high,
  contains-count s.received_flags 12 3 (id + 23 - s.pd_index),
  same_index s.pd_index id v.pd_low v.pd_high,
)

module _ (inc : ℕ) (flags : List ℕ) (v : IsFlags flags) (small : inc ≤ 23) where
  abbrev zeros : Bitset
  zeros = bitset_init (replicate 3 0) 3

  zeros-IsBitset : IsBitset zeros
  zeros-IsBitset = record { are_bytes = replicate-IsBytes 3 0 (omega arith); short = omega arith }

  abbrev moved : Bitset
  moved = copy_flags (bitset_init flags 3) inc (24 - inc) inc zeros

  moved_shape : IsBitset moved × (length moved.bytes ≡ 3)
  moved_shape =
      copy_flags_shape (bitset_init flags 3) inc (24 - inc) inc zeros zeros-IsBitset (omega arith)

  pub shifted_flags-IsFlags : IsFlags (shifted_flags inc flags)
  unfolding shifted_flags
  shifted_flags-IsFlags = record {
    five =
        omega (
          arith,
          length-append moved.bytes (drop 3 flags),
          length-drop 3 flags,
          moved_shape,
          v.five,
        );
    are_bytes =
        append-IsBytes moved.bytes (drop 3 flags) moved_shape.0.are_bytes
          (drop-IsBytes 3 flags v.are_bytes);
  }

  -- The bytes behind the window stay.
  pub drop-shifted_flags : drop 3 (shifted_flags inc flags) ≡ drop 3 flags
  unfolding shifted_flags
  drop-shifted_flags = drop-append moved.bytes (drop 3 flags) 3 (omega (arith, moved_shape))

  -- A flag of the shifted window is the flag `inc` places above it, if there is one.
  pub contains-shifted_flags :
      (k : ℕ)
      → k < 24
      → bitset_contains (bitset_init (shifted_flags inc flags) 3) k
        ≡ (ltb (k + inc) 24 && bitset_contains (bitset_init flags 3) (k + inc))
  unfolding shifted_flags
  contains-shifted_flags k h =
      contains-front moved.bytes (drop 3 flags) 3 moved.bytes_count k (omega (arith, moved_shape.1))
        (omega arith)
      ∙ contains-copy_flags (bitset_init flags 3) inc (24 - inc) inc zeros k zeros-IsBitset
          (omega arith) (omega arith) (omega arith) (omega arith)
      ∙ rw (contains-zeros 3 3 k (omega arith)) (ground (arith, small))

pub contains-add_all_from :
    (rounds i : ℕ) (s : Bitset) (c : ℕ)
    → IsBitset s
    → i + rounds ≤ length s.bytes * 8
    → c < 2048
    → bitset_contains (add_all_from rounds i s) c
      ≡ ((leb i c && ltb c (i + rounds)) || bitset_contains s c)
unfolding add_all_from
contains-add_all_from zero i s c v h hc = ground arith
contains-add_all_from (suc rounds) i s c v h hc = ground (
  arith,
  v.short,
  contains-add s i c v,
  length-add s i,
  contains-add_all_from rounds (i + 1) (bitset_add s i) c
      (add-IsBitset s i (omega (arith, v.short)) v),
)

pub add_all_from-IsFlags :
    (rounds i : ℕ) (flags : List ℕ) (n : ℕ)
    → IsFlags flags
    → i + rounds ≤ 24
    → IsFlags (add_all_from rounds i (bitset_init flags n)).bytes
unfolding add_all_from bitset_add
add_all_from-IsFlags zero i flags n v h = v
add_all_from-IsFlags (suc rounds) i flags n v h =
    add_all_from-IsFlags rounds (i + 1) (bitset_add (bitset_init flags n) i).bytes n
      (add-IsFlags flags n i (omega arith) v) (omega arith)
