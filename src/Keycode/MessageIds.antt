-- ===== src/Keycode/MessageIds.antt =====
-- Which message IDs a unit has received: the window round `Pd` of nexus/src/nexus_keycode_pro.c.
pub mod Codec
pub mod Memory
pub mod Window
pub mod Shift
pub mod Receive
pub mod Marking
pub mod Infer
pub mod Corners
use nexus_embedded.Base.{
  ℕ, zero, suc, ◌+◌, ◌-◌, ◌*◌, ◌/◌, ◌%◌, Bool, true, false, ◌&&◌, not, List, [], ◌∷◌, ◌++◌, Option,
  none, some, bit_and, bit_or, drop, replicate, u8, u16, u32, sub32, ltb, leb, ◌==◌, if◌then◌else◌,
}
use nexus_embedded.Util.Bitset.{
  Bitset, bitset_init, bitset_add, bitset_contains, bitset_clear, copy_flags,
}
use nexus_embedded.Nv.{block_keycode_pro, nv_update, nv_read}
use nexus_embedded.Keycode.State.{
  Config, Product, Stored, Device, Event, notify_custom_flag_changed, stored_bytes, stored_of_bytes,
  emit,
}

abbrev pub window_before_pd : ℕ
window_before_pd = 23

abbrev pub window_after_pd : ℕ
window_after_pd = 40

-- `NEXUS_KEYCODE_PRO_MAX_MESSAGE_ID_BYTE`.
abbrev max_message_id_byte : ℕ
max_message_id_byte = 3

-- `NX_KEYCODE_CUSTOM_FLAG_RESTRICTED`.
abbrev pub custom_flag_restricted : ℕ
custom_flag_restricted = 1

-- The received flags as the bitset that the functions build over them.
abbrev pub received_ids : Stored → Bitset
received_ids s = bitset_init s.received_flags max_message_id_byte

-- `nexus_keycode_pro_is_message_id_within_window`, in 32-bit arithmetic.
unfoldable pub is_message_id_within_window : Stored → ℕ → Bool
is_message_id_within_window s full_message_id =
    leb (sub32 s.pd_index window_before_pd) full_message_id
    && leb full_message_id (u32 (s.pd_index + window_after_pd))

-- `nexus_keycode_pro_mask_idx_from_message_id`: `none` where it returns false.
unfoldable pub mask_idx_from_message_id : Stored → ℕ → Option ℕ
unfolding is_message_id_within_window
mask_idx_from_message_id s full_message_id =
    if not (is_message_id_within_window s full_message_id)
    then none
    else if leb full_message_id s.pd_index
    then some (u8 (sub32 window_before_pd (s.pd_index - full_message_id)))
    else some (u8 (window_before_pd + (full_message_id - s.pd_index)))

-- The loop of `nexus_keycode_pro_infer_full_message_id`; the first argument bounds its rounds.
unfoldable pub infer_from : ℕ → ℕ → ℕ → ℕ → ℕ
infer_from zero compressed_message_id last cur_id = cur_id
infer_from (suc rounds) compressed_message_id last cur_id =
    let rest = infer_from rounds compressed_message_id last (u32 (cur_id + 1)) in
    if leb cur_id last
    then if bit_and cur_id 0x3f == compressed_message_id then cur_id else rest
    else cur_id

unfoldable pub infer_full_message_id : ℕ → ℕ → ℕ → ℕ → ℕ
unfolding infer_from
infer_full_message_id compressed_message_id current_pd_index id_count_below id_count_above =
    infer_from (id_count_below + id_count_above + 2) compressed_message_id
      (u32 (current_pd_index + id_count_above)) (sub32 current_pd_index id_count_below)

-- `nexus_keycode_pro_reset_pd_index` and `nexus_keycode_pro_reset_test_code_count`: RAM only.
unfoldable pub reset_pd_index : {F : Type 0} → Device F → Device F
reset_pd_index d = record d { stored = record d.stored { pd_index = window_before_pd } }

unfoldable pub reset_test_code_count : {F : Type 0} → Device F → Device F
reset_test_code_count d = record d { stored = record d.stored { qc_test_codes_received = 0 } }

-- Puts changed flags into the stored data in RAM.
abbrev pub store_flags : {F : Type 0} → List ℕ → Device F → Device F
store_flags flags d = record d { stored = record d.stored { received_flags = flags } }

-- The flags that `nexus_keycode_pro_increase_pd_and_shift_window_right` copies back.
unfoldable pub shifted_flags : ℕ → List ℕ → List ℕ
shifted_flags pd_increment flags =
    (copy_flags (bitset_init flags max_message_id_byte) pd_increment
      (window_before_pd + 1 - pd_increment) pd_increment
      (bitset_init (replicate max_message_id_byte 0) max_message_id_byte)).bytes
    ++ drop max_message_id_byte flags

-- `nexus_keycode_pro_get_full_message_id_flag` after it has read the stored data.
unfoldable pub message_id_flag : Stored → ℕ → Bool
unfolding mask_idx_from_message_id
message_id_flag s full_message_id =
    if ltb s.pd_index full_message_id
    then false
    else elim (mask_idx_from_message_id s full_message_id) [
      | none ↦ false
      | some mask_id_index ↦ bitset_contains (bitset_init s.received_flags 12) mask_id_index
    ]

-- `for (i = 0; i <= mask_id_index; i++) nexus_bitset_add(...)`, with the rounds left.
unfoldable pub add_all_from : ℕ → ℕ → Bitset → Bitset
add_all_from zero i s = s
add_all_from (suc rounds) i s = add_all_from rounds (i + 1) (bitset_add s i)

module _ {F : Type 0} (p : Product F) where
  -- `_update_keycode_pro_nv_blocks`.
  unfoldable pub update_nv_blocks : Device F → Device F
  update_nv_blocks d = record d {
    flash = (nv_update p.nv block_keycode_pro (stored_bytes d.stored) d.flash).1;
  }

  -- `nexus_keycode_pro_wipe_message_ids_in_window`.
  unfoldable pub wipe_message_ids_in_window : Device F → Device F
  wipe_message_ids_in_window d =
      update_nv_blocks (store_flags (bitset_clear (received_ids d.stored)).bytes d)

  -- The end of `nexus_keycode_pro_increase_pd_and_shift_window_right`.
  unfoldable pub raise_pd : ℕ → Device F → Device F
  raise_pd pd_increment d =
      update_nv_blocks (record d {
        stored = record d.stored { pd_index = u32 (d.stored.pd_index + pd_increment) };
      })

  -- `nexus_keycode_pro_increase_pd_and_shift_window_right`.
  unfoldable pub increase_pd_and_shift_window_right : ℕ → Device F → Device F
  increase_pd_and_shift_window_right pd_increment d = raise_pd pd_increment (
      if ltb window_before_pd pd_increment
      then wipe_message_ids_in_window d
      else store_flags (shifted_flags pd_increment d.stored.received_flags) d)

  -- `nexus_keycode_pro_update_window_and_message_mask_id`: the mask index, whether `Pd` went up,
  -- and the device.
  unfoldable pub update_window_and_message_mask_id : ℕ → Device F → ℕ × Bool × Device F
  update_window_and_message_mask_id full_message_id d =
      let cur_pd = d.stored.pd_index in
      let index = u8 (sub32 window_before_pd (sub32 cur_pd full_message_id)) in
      if ltb cur_pd full_message_id
      then (window_before_pd, true, increase_pd_and_shift_window_right (full_message_id - cur_pd) d)
      else if leb (sub32 cur_pd window_before_pd) full_message_id
      then ((if ltb window_before_pd index then window_before_pd else index), false, d)
      else (window_before_pd, false, d)

  -- The read of the stored data that begins `nexus_keycode_pro_get_full_message_id_flag`.
  unfoldable pub load_stored : Device F → Device F
  load_stored d = record d {
    stored = stored_of_bytes (nv_read p.nv block_keycode_pro (stored_bytes d.stored) d.flash).1;
  }

  -- `nexus_keycode_pro_get_full_message_id_flag`.
  unfoldable pub get_full_message_id_flag : ℕ → Device F → Bool × Device F
  get_full_message_id_flag full_message_id d =
      let d1 = load_stored d in (message_id_flag d1.stored full_message_id, d1)

  -- `nexus_keycode_pro_set_full_message_id_flag`.
  unfoldable pub set_full_message_id_flag : ℕ → Device F → Device F
  set_full_message_id_flag full_message_id d =
      let (received, d1) = get_full_message_id_flag full_message_id d in
      let (mask_id_index, _, d2) = update_window_and_message_mask_id full_message_id d1 in
      if received
      then d1
      else update_nv_blocks
          (store_flags (bitset_add (received_ids d2.stored) mask_id_index).bytes d2)

  -- `nexus_keycode_pro_mask_below_message_id`.
  unfoldable pub mask_below_message_id : ℕ → Device F → Device F
  mask_below_message_id full_message_id d =
      let (mask_id_index, _, d1) =
        update_window_and_message_mask_id (u16 (full_message_id - 1)) d in
      if full_message_id == 0
      then d
      else if ltb full_message_id (sub32 d.stored.pd_index window_before_pd)
      then d
      else update_nv_blocks
          (store_flags (add_all_from (mask_id_index + 1) 0 (received_ids d1.stored)).bytes d1)

  -- `nx_keycode_set_custom_flag` and `nexus_keycode_pro_reset_custom_flag`.
  unfoldable pub set_custom_flag : ℕ → Device F → Device F
  set_custom_flag flag d = emit (notify_custom_flag_changed flag true) (
      update_nv_blocks (record d {
        stored = record d.stored { custom_flags = bit_or d.stored.custom_flags flag };
      }))

  unfoldable pub reset_custom_flag : ℕ → Device F → Device F
  reset_custom_flag flag d = emit (notify_custom_flag_changed flag false) (
      update_nv_blocks (record d {
        stored = record d.stored { custom_flags = bit_and d.stored.custom_flags (255 - flag) };
      }))

-- `nx_keycode_get_custom_flag`.
unfoldable pub get_custom_flag : ℕ → Stored → Bool
get_custom_flag flag s = not (bit_and s.custom_flags flag == 0)
