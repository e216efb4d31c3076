-- ===== src/Tests/Extended.antt =====
-- Extended messages on a new device.
use nexus_embedded.Base.{◌+◌, ◌-◌, ◌<◌, ◌≡◌, refl, arith, true, []}
use nexus_embedded.Base.Bits.{test_bit}
use nexus_embedded.Util.Bitset.{bitset_contains, bitset_add, copy_flags}
use nexus_embedded.Util.Check.{check_compute, check_value_as_uint64}
use nexus_embedded.Util.Window.{Window, id_within_window, id_flag_already_set}
use nexus_embedded.Keycode.State.{Device}
use nexus_embedded.Keycode.MessageIds.{
  is_message_id_within_window, message_id_flag, mask_below_message_id,
  update_window_and_message_mask_id, increase_pd_and_shift_window_right, raise_pd,
  reset_custom_flag, update_nv_blocks, add_all_from, shifted_flags,
}
use nexus_embedded.Keycode.Pro.Growth.{here}
use nexus_embedded.Keycode.Pro.Extended.{
  ExtendedMessage, extended_small_apply, apply_inferred, credit_event, infer_windowed_message_id,
  infer_windowed_from, infer_inner_compute_auth, extended_small_auth_arbitrary_bytes,
  get_current_message_id_window,
}
use nexus_embedded.Keycode.Pro.Extended.Agree.{current, current-IsWindow, window_agrees}
use nexus_embedded.Keycode.Pro.Extended.Infer.{IsFirst, infer_windowed_message_id-IsFirst}
use nexus_embedded.Keycode.Pro.Extended.Apply.{Outcome, inferred, extended_small_apply-Outcome}
use nexus_embedded.Keycode.Pro.Small.Frames.{extended_in_order}
use nexus_embedded.Keycode.Pro.Extended.Order.{applies, applied_id}
use nexus_embedded.Keycode.MessageIds.Memory.{factory_stored-IsStored}
use nexus_embedded.Tests.Devices.{
  Flash, memory_reliable, product, config, new_device, new_device-IsDevice, secret_key,
}

-- Ten days with the ID 24, and an unlock with the ID 30.
abbrev ten_days : ExtendedMessage
ten_days = record {
  inferred_message_id = 0;
  type_code = 0;
  truncated_message_id = 0;
  increment_id = 9;
  check = 2576;
}

abbrev unlock : ExtendedMessage
unlock = record {
  inferred_message_id = 0;
  type_code = 0;
  truncated_message_id = 2;
  increment_id = 255;
  check = 3126;
}

abbrev new_window : Window
new_window = current new_device.stored

infer_windowed_message_id-IsFirst_example :
    IsFirst new_window secret_key ten_days
      (new_window.center_index - new_window.flags_below)
      (new_window.center_index + new_window.flags_above)
      (infer_windowed_message_id ten_days new_window secret_key)
infer_windowed_message_id-IsFirst_example =
    infer_windowed_message_id-IsFirst new_window secret_key ten_days
      (current-IsWindow new_device.stored factory_stored-IsStored)
      (unfold get_current_message_id_window in omega arith) refl

extended_small_apply-Outcome_example :
    Outcome product memory_reliable ten_days new_device
      (inferred product memory_reliable ten_days new_device)
      (extended_small_apply product ten_days new_device)
extended_small_apply-Outcome_example =
    extended_small_apply-Outcome product memory_reliable ten_days new_device new_device-IsDevice
      (omega arith) refl

window_agrees_example :
    (id_within_window new_window 30 ≡ is_message_id_within_window new_device.stored 30)
    × (id_flag_already_set new_window 30 ≡ message_id_flag new_device.stored 30)
window_agrees_example = window_agrees new_device.stored factory_stored-IsStored 30 (omega arith)

abbrev after : Device Flash
after = (extended_small_apply product ten_days new_device).1

ten_days-applies : applies product memory_reliable ten_days new_device ≡ true
unfolding infer_windowed_message_id infer_windowed_from id_within_window id_flag_already_set
    infer_inner_compute_auth extended_small_auth_arbitrary_bytes check_compute check_value_as_uint64
    get_current_message_id_window bitset_contains test_bit
ten_days-applies = refl

pd_after : after.stored.pd_index ≡ 24
unfolding extended_small_apply apply_inferred credit_event infer_windowed_message_id
    infer_windowed_from id_within_window id_flag_already_set infer_inner_compute_auth
    extended_small_auth_arbitrary_bytes check_compute check_value_as_uint64
    get_current_message_id_window bitset_contains test_bit mask_below_message_id
    update_window_and_message_mask_id increase_pd_and_shift_window_right raise_pd reset_custom_flag
    update_nv_blocks
pd_after = refl

unlock-applies : applies product memory_reliable unlock after ≡ true
unfolding extended_small_apply apply_inferred credit_event infer_windowed_message_id
    infer_windowed_from id_within_window id_flag_already_set infer_inner_compute_auth
    extended_small_auth_arbitrary_bytes check_compute check_value_as_uint64
    get_current_message_id_window bitset_contains test_bit mask_below_message_id
    update_window_and_message_mask_id increase_pd_and_shift_window_right raise_pd reset_custom_flag
    update_nv_blocks add_all_from bitset_add shifted_flags copy_flags
unlock-applies = refl

extended_in_order_example :
    applied_id product memory_reliable ten_days new_device
    < applied_id product memory_reliable unlock after
extended_in_order_example =
    extended_in_order config product [] [] 0 memory_reliable ten_days unlock new_device after
      new_device-IsDevice (omega arith) refl ten_days-applies here (rw pd_after (omega arith)) refl
      unlock-applies
