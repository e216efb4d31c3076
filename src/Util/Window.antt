-- ===== src/Util/Window.antt =====
-- The window of flags of nexus/src/nexus_util.c. As a bitset does, a window points at bytes that
-- its creator owns: here it holds a copy.
pub mod Laws
pub mod Set
use nexus_embedded.Base.{
  ℕ, zero, suc, ◌+◌, ◌-◌, ◌*◌, Bool, true, false, ◌&&◌, ◌||◌, not, List, ◌++◌, Option, none, some,
  take, drop, replicate, u8, u32, sub32, ltb, leb, ◌==◌, if◌then◌else◌,
}
use nexus_embedded.Util.Bitset.{
  Bitset, bitset_init, bitset_add, bitset_contains, bitset_clear, copy_flags,
}

-- `NEXUS_UTIL_MAX_WINDOW_BITSET_SIZE_BYTES`.
abbrev pub max_window_bitset_size_bytes : ℕ
max_window_bitset_size_bytes = 5

-- `struct nexus_window`.
pub record Window : Type 0 where
  pub center_index : ℕ
  pub flags : Bitset
  pub flags_below : ℕ
  pub flags_above : ℕ

-- `nexus_util_window_init`.
unfoldable pub window_init : (flag_array : List ℕ) (bytes center below above : ℕ) → Window
window_init flag_array bytes center below above = record {
  center_index = center;
  flags = bitset_init flag_array bytes;
  flags_below = below;
  flags_above = above;
}

-- `nexus_util_window_id_within_window`, in 32-bit arithmetic.
unfoldable pub id_within_window : Window → ℕ → Bool
id_within_window w id =
    leb (sub32 w.center_index w.flags_below) id && leb id (u32 (w.center_index + w.flags_above))

-- `_nexus_util_window_mask_idx_from_id`: `none` where it returns false.
unfoldable pub window_mask_idx_from_id : Window → ℕ → Option ℕ
unfolding id_within_window
window_mask_idx_from_id w id =
    if not (id_within_window w id)
    then none
    else if leb id w.center_index
    then some (u8 (sub32 w.flags_below (w.center_index - id)))
    else some (u8 (w.flags_below + (id - w.center_index)))

-- The end of both callers: what they do with the index, if there is one.
abbrev flag_at : Window → Option ℕ → Bool
flag_at w none = false
flag_at w (some mask_id_index) = bitset_contains w.flags mask_id_index

-- `nexus_util_window_id_flag_already_set`.
unfoldable pub id_flag_already_set : Window → ℕ → Bool
unfolding window_mask_idx_from_id
id_flag_already_set w id =
    if ltb w.center_index id || not (id_within_window w id)
    then false
    else flag_at w (window_mask_idx_from_id w id)

-- The flags after a move to the right: the copy is built in a zeroed array of the largest size, of
-- which the first bytes are copied back.
unfoldable pub moved_flags : (center_increment : ℕ) → Window → Bitset
moved_flags center_increment w =
    let new_mask =
      copy_flags w.flags center_increment (w.flags_below + 1 - center_increment) center_increment
        (bitset_init (replicate max_window_bitset_size_bytes 0) max_window_bitset_size_bytes) in
    record w.flags {
      bytes = take w.flags.bytes_count new_mask.bytes ++ drop w.flags.bytes_count w.flags.bytes;
    }

-- The part of `nexus_util_window_set_id_flag` that moves the window to the right.
unfoldable pub move_window : ℕ → Window → Window
unfolding moved_flags
move_window id w =
    let center_increment = id - w.center_index in
    let moved =
      if ltb w.flags_below center_increment
      then bitset_clear w.flags
      else moved_flags center_increment w in
    record w { center_index = id; flags = bitset_add moved w.flags_below }

-- Its branch for an ID with an index.
abbrev set_flag_at : ℕ → Window → Option ℕ → Bool × Window
set_flag_at id w none = (false, w)
set_flag_at id w (some mask_id_index) =
    if leb id w.center_index
    then (true, record w { flags = bitset_add w.flags mask_id_index })
    else (true, move_window id w)

-- `nexus_util_window_set_id_flag`.
unfoldable pub set_id_flag : Window → ℕ → Bool × Window
unfolding window_mask_idx_from_id move_window
set_id_flag w id =
    if ltb (u32 (w.center_index + w.flags_above)) id
    then (false, w)
    else if ltb id (sub32 w.center_index w.flags_below)
    then (false, w)
    else set_flag_at id w (window_mask_idx_from_id w id)
