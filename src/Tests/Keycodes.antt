-- ===== src/Tests/Keycodes.antt =====
-- Keycode messages applied to concrete devices.
use nexus_embedded.Base.{u32, ◌*◌, ℕ, ◌+◌, ◌<◌, ◌≡◌, refl, arith, false}
use nexus_embedded.Keycode.State.{disabled, Device, valid_applied, valid_duplicate}
use nexus_embedded.Base.Bits.{test_bit}
use nexus_embedded.Nv.{
  nv_read, nv_block_valid, nv_update, new_block, nv_compute_crc, compute_crc_ccitt,
}
use nexus_embedded.Util.Bitset.{copy_flags, bitset_add, bitset_contains}
use nexus_embedded.Keycode.State.{stored_of_bytes, stored_bytes}
use nexus_embedded.Util.Check.{check_compute}
use nexus_embedded.Keycode.MessageIds.{
  update_nv_blocks, load_stored, message_id_flag, get_full_message_id_flag,
  set_full_message_id_flag, update_window_and_message_mask_id, increase_pd_and_shift_window_right,
  shifted_flags, raise_pd, reset_pd_index,
}
use nexus_embedded.Keycode.MessageIds.Memory.{IsDevice}
use nexus_embedded.Keycode.MessageIds.Window.{used}
use nexus_embedded.Keycode.Pro.Growth.{here, next}
use nexus_embedded.Keycode.Pro.Process.{init_device}
use nexus_embedded.Keycode.Pro.Small.{
  SmallMessage, small_apply, small_apply_activation, small_apply_add_credit, small_check_expected,
  small_compute_check, get_add_credit_increment_days, wipe_received,
}
use nexus_embedded.Keycode.Pro.Small.Laws.{IsInReach}
use nexus_embedded.Keycode.Pro.Small.Replay.{power_cycled, in_state, applied_once}
use nexus_embedded.Keycode.Pro.Full.{
  FullMessage, full_apply, full_apply_activation, full_compute_check,
}
use nexus_embedded.Keycode.Pro.Full.Replay.{full_power_cycled, full_applied_once}
use nexus_embedded.Keycode.Pro.Qc.{
  get_long_qc_code_count, get_short_qc_code_count, increment_long_qc_test_message_count,
}
use nexus_embedded.Keycode.Pro.Qc.Counts.{increment_long_counts}
use nexus_embedded.Keycode.Pro.Wipe.{wipe_received_lem}
use nexus_embedded.Base.{◌≤◌}
use nexus_embedded.Keycode.Pro.Small.{get_set_credit_increment_days}
use nexus_embedded.Keycode.Pro.Small.Days.{set_credit_days-bounds, add_credit_days-bounds}
use nexus_embedded.Keycode.State.{seconds_in_day}
use nexus_embedded.Tests.Devices.{
  Flash, memory, memory_reliable, product, config, new_device, new_device-IsDevice, used_device,
  used_device-IsDevice,
}

-- ADD CREDIT of ten days, with message ID 24.
abbrev ten_days : SmallMessage
ten_days = record { full_message_id = 24; type_code = 0; body = 9; check = 2501 }

in_reach : IsInReach new_device.stored 24
in_reach = record { from_bottom = omega arith; fits = omega arith }

first_time : (small_apply config product ten_days new_device).0 ≡ valid_applied
unfolding small_apply small_apply_activation small_apply_add_credit small_check_expected
    small_compute_check check_compute get_full_message_id_flag message_id_flag load_stored nv_read
    nv_block_valid stored_of_bytes stored_bytes get_add_credit_increment_days
first_time = refl

abbrev after_ten_days : Device Flash
after_ten_days = init_device product (small_apply config product ten_days new_device).1

pd_after : after_ten_days.stored.pd_index ≡ 24
unfolding small_apply small_apply_activation small_apply_add_credit small_check_expected
    small_compute_check check_compute get_full_message_id_flag set_full_message_id_flag
    update_window_and_message_mask_id increase_pd_and_shift_window_right shifted_flags copy_flags
    bitset_add bitset_contains raise_pd update_nv_blocks nv_update new_block nv_compute_crc
    compute_crc_ccitt message_id_flag load_stored nv_read nv_block_valid stored_of_bytes
    stored_bytes init_device reset_pd_index test_bit get_add_credit_increment_days
pd_after = refl

after_ten_days-IsInReach : IsInReach after_ten_days.stored 24
after_ten_days-IsInReach = record { from_bottom = rw pd_after (omega arith); fits = omega arith }

applied_once_example :
    small_apply config (in_state product disabled) ten_days after_ten_days
    ≡ (valid_duplicate, after_ten_days)
applied_once_example =
    applied_once config product memory_reliable ten_days refl new_device new_device-IsDevice
      in_reach first_time after_ten_days (next here power_cycled) after_ten_days-IsInReach disabled

-- ADD CREDIT of 48 hours, with message ID 24.
abbrev two_days : FullMessage
two_days = record { full_message_id = 24; type_code = 0; body = 48; check = 703728 }

full_first_time : (full_apply config product two_days new_device).0 ≡ valid_applied
unfolding full_apply full_apply_activation full_compute_check check_compute get_full_message_id_flag
    message_id_flag load_stored nv_read nv_block_valid stored_of_bytes stored_bytes
full_first_time = refl

abbrev after_two_days : Device Flash
after_two_days = init_device product (full_apply config product two_days new_device).1

full_pd_after : after_two_days.stored.pd_index ≡ 24
unfolding full_apply full_apply_activation full_compute_check check_compute get_full_message_id_flag
    set_full_message_id_flag update_window_and_message_mask_id increase_pd_and_shift_window_right
    shifted_flags copy_flags bitset_add bitset_contains raise_pd update_nv_blocks nv_update
    new_block nv_compute_crc compute_crc_ccitt message_id_flag load_stored nv_read nv_block_valid
    stored_of_bytes stored_bytes init_device reset_pd_index test_bit
full_pd_after = refl

after_two_days-IsInReach : IsInReach after_two_days.stored 24
after_two_days-IsInReach = record {
  from_bottom = rw full_pd_after (omega arith);
  fits = omega arith;
}

full_applied_once_example :
    full_apply config (in_state product disabled) two_days after_two_days
    ≡ (valid_duplicate, after_two_days)
full_applied_once_example =
    full_applied_once config product memory_reliable two_days refl refl refl new_device
      new_device-IsDevice in_reach full_first_time after_two_days (next here full_power_cycled)
      after_two_days-IsInReach disabled

long_allowed : get_long_qc_code_count used_device.stored < config.factory_qc_long_lifetime_max
long_allowed = unfold get_long_qc_code_count update_nv_blocks in omega arith

increment_long_example :
    IsDevice memory (increment_long_qc_test_message_count config product used_device)
    × (get_long_qc_code_count
          (increment_long_qc_test_message_count config product used_device).stored
        ≡ get_long_qc_code_count used_device.stored + 1)
    × (get_short_qc_code_count
          (increment_long_qc_test_message_count config product used_device).stored
        ≡ get_short_qc_code_count used_device.stored)
increment_long_example =
    increment_long_counts config product used_device used_device-IsDevice memory_reliable
      (omega arith) long_allowed

wipe_received_example :
    IsDevice memory (wipe_received product used_device)
    × ((j : ℕ) → used (wipe_received product used_device).stored j ≡ false)
    × ((wipe_received product used_device).stored.pd_index ≡ 23)
    × ((wipe_received product used_device).stored.qc_test_codes_received ≡ 0)
    × ((wipe_received product used_device).stored.custom_flags ≡ used_device.stored.custom_flags)
    × ((wipe_received product used_device).calls ≡ used_device.calls)
wipe_received_example = wipe_received_lem product used_device memory_reliable used_device-IsDevice

set_credit_days_example :
    (100 < get_set_credit_increment_days 100)
    × (get_set_credit_increment_days 100 ≤ 960)
    × (u32 (get_set_credit_increment_days 100 * seconds_in_day)
        ≡ get_set_credit_increment_days 100 * seconds_in_day)
    × ((j : ℕ)
        → 100 < j
        → j < 240
        → get_set_credit_increment_days 100 < get_set_credit_increment_days j)
set_credit_days_example = set_credit_days-bounds 100 (omega arith)

add_credit_days_example :
    (200 < get_add_credit_increment_days 200)
    × (get_add_credit_increment_days 200 ≤ 405)
    × (u32 (get_add_credit_increment_days 200 * seconds_in_day)
        ≡ get_add_credit_increment_days 200 * seconds_in_day)
    × ((j : ℕ)
        → 200 < j
        → j < 255
        → get_add_credit_increment_days 200 < get_add_credit_increment_days j)
add_credit_days_example = add_credit_days-bounds 200 (omega arith)
