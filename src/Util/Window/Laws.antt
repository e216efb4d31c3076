-- ===== src/Util/Window/Laws.antt =====
-- What the operations of a window do to the set of the IDs that it counts as used.
use nexus_embedded.Base.{
  ℕ, ◌+◌, ◌-◌, ◌*◌, ◌≤◌, ◌≡◌, refl, ◌∙◌, Bool, ◌&&◌, ◌||◌, List, arith, length, take, drop,
  replicate, u8, sub32, ltb, leb, IsBytes, length-append, length-drop, length-take, append-IsBytes,
  drop-IsBytes, take-IsBytes, replicate-IsBytes,
}
use nexus_embedded.Util.Bitset.{Bitset, bitset_init, bitset_contains, copy_flags}
use nexus_embedded.Util.Bitset.Laws.{
  IsBitset, contains-copy_flags, copy_flags_shape, contains-front, contains-zeros, contains-take,
}
use nexus_embedded.Util.Window.{Window, id_within_window, id_flag_already_set, moved_flags}

-- A window as `nexus_util_window_init` asks for it, clear of the ends of 32-bit numbers.
pub record IsWindow (w : Window) : Type 0 where
  pub bytes_enough : w.flags.bytes_count * 8 ≡ w.flags_below + 1
  pub counted : w.flags.bytes_count ≤ length w.flags.bytes
  pub short : length w.flags.bytes ≤ 256
  pub small : w.flags.bytes_count ≤ 5
  pub are_bytes : IsBytes w.flags.bytes
  pub above_byte : w.flags_above ≤ 255
  pub low : w.flags_below ≤ w.center_index
  pub high : w.center_index + w.flags_above ≤ 4294967295

-- An ID that lies below the window, or whose flag is set.
abbrev pub marked : Window → ℕ → Bool
marked w id =
    ltb (id + w.flags_below) w.center_index
    || (leb id w.center_index && bitset_contains w.flags (id + w.flags_below - w.center_index))

abbrev pub in_window : Window → ℕ → Bool
in_window w id = leb w.center_index (id + w.flags_below) && leb id (w.center_index + w.flags_above)

pub id_within_window_lem :
    (w : Window) (id : ℕ) → IsWindow w → id_within_window w id ≡ in_window w id
unfolding id_within_window
id_within_window_lem w id v = ground (arith, v.low, v.high, v.above_byte)

pub flags-IsBitset : (w : Window) → IsWindow w → IsBitset w.flags
flags-IsBitset w v = record { are_bytes = v.are_bytes; short = v.short }

pub index_eq :
    (w : Window) (id : ℕ)
    → IsWindow w
    → id ≤ w.center_index
    → w.center_index ≤ id + w.flags_below
    → u8 (sub32 w.flags_below (w.center_index - id)) ≡ id + w.flags_below - w.center_index
index_eq w id v a b = omega (arith, v.bytes_enough, v.counted, v.small, v.low, v.high)

-- The flag function says of an ID from the bottom of the window on whether it is marked, and says
-- nothing of the IDs below.
pub id_flag_already_set_lem :
    (w : Window) (id : ℕ)
    → IsWindow w
    → id_flag_already_set w id ≡ (leb w.center_index (id + w.flags_below) && marked w id)
unfolding id_flag_already_set
id_flag_already_set_lem w id v =
    ground (arith, id_within_window_lem w id v, index_eq w id v, v.low, v.high, v.above_byte)

module _ (w : Window) (v : IsWindow w) (inc : ℕ) (small : inc ≤ w.flags_below) where
  abbrev zeros : Bitset
  zeros = bitset_init (replicate 5 0) 5

  abbrev copied : Bitset
  copied = copy_flags w.flags inc (w.flags_below + 1 - inc) inc zeros

  zeros-IsBitset : IsBitset zeros
  zeros-IsBitset = record { are_bytes = replicate-IsBytes 5 0 (omega arith); short = omega arith }

  few : w.flags_below ≤ 39
  few = omega (arith, v.bytes_enough, v.counted, v.small)

  copied_shape : IsBitset copied × (length copied.bytes ≡ 5)
  copied_shape =
      copy_flags_shape w.flags inc (w.flags_below + 1 - inc) inc zeros zeros-IsBitset
        (omega (arith, few, small))

  abbrev front : List ℕ
  front = take w.flags.bytes_count copied.bytes

  length-front : length front ≡ w.flags.bytes_count
  length-front =
      omega (arith, length-take w.flags.bytes_count copied.bytes, copied_shape.1, v.small)

  -- The moved flags fill as many bytes.
  pub moved_flags_shape :
      (length (moved_flags inc w).bytes ≡ length w.flags.bytes)
      × IsBytes (moved_flags inc w).bytes
      × ((moved_flags inc w).bytes_count ≡ w.flags.bytes_count)
  unfolding moved_flags
  moved_flags_shape = (
    omega (
      arith,
      length-append front (drop w.flags.bytes_count w.flags.bytes),
      length-drop w.flags.bytes_count w.flags.bytes,
      length-front,
      v.counted,
    ),
    append-IsBytes front (drop w.flags.bytes_count w.flags.bytes)
        (take-IsBytes w.flags.bytes_count copied.bytes copied_shape.0.are_bytes)
        (drop-IsBytes w.flags.bytes_count w.flags.bytes v.are_bytes),
    refl,
  )

  -- A flag of the moved window is the flag `inc` places above it, if there is one.
  pub contains-moved_flags :
      (k : ℕ)
      → k ≤ w.flags_below
      → bitset_contains (moved_flags inc w) k
        ≡ (leb (k + inc) w.flags_below && bitset_contains w.flags (k + inc))
  unfolding moved_flags
  contains-moved_flags k h =
      contains-front front (drop w.flags.bytes_count w.flags.bytes) w.flags.bytes_count
        w.flags.bytes_count k (omega (arith, length-front, v.bytes_enough, v.counted))
        (omega (arith, few))
      ∙ contains-take copied.bytes w.flags.bytes_count w.flags.bytes_count copied.bytes_count k
          (omega (arith, v.bytes_enough, v.counted)) (omega (arith, few))
      ∙ contains-copy_flags w.flags inc (w.flags_below + 1 - inc) inc zeros k zeros-IsBitset
          (omega arith) (omega (arith, few, small)) (omega (arith, few, small)) (omega (arith, few))
      ∙ rw (contains-zeros 5 5 k (omega (arith, few))) (ground (arith, small))
