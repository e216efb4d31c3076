-- ===== src/Tests/FullFrames.antt =====
-- Frames of the full protocol, from their keys on.
use nexus_embedded.Base.{ℕ, ◌≡◌, refl, arith, some, List, [], ◌∷◌}
use nexus_embedded.Base.Bits.{test_bit}
use nexus_embedded.Util.Bitset.{copy_flags, bitset_contains, bitset_add}
use nexus_embedded.Nv.{nv_read, nv_block_valid, nv_update, new_block, nv_compute_crc}
use nexus_embedded.Util.Check.{check_compute, check_compute_pseudorandom_bytes}
use nexus_embedded.Util.Digits.{chars_to_uint32, digits_pull_uint8, digits_pull_uint32}
use nexus_embedded.Keycode.State.{
  stored_of_bytes, stored_bytes, disabled, Device, emit, payg_credit_set, valid_applied,
  valid_duplicate,
}
use nexus_embedded.Keycode.MessageIds.{
  infer_full_message_id, infer_from, update_nv_blocks, load_stored, message_id_flag,
  get_full_message_id_flag, set_full_message_id_flag, update_window_and_message_mask_id,
  increase_pd_and_shift_window_right, shifted_flags, raise_pd, reset_pd_index, window_before_pd,
  window_after_pd,
}
use nexus_embedded.Keycode.Pro.Growth.{here, next}
use nexus_embedded.Keycode.Pro.Process.{init_device}
use nexus_embedded.Keycode.Pro.Small.Replay.{in_state}
use nexus_embedded.Keycode.Pro.Full.{
  FullMessage, full_apply, full_apply_activation, full_compute_check,
}
use nexus_embedded.Keycode.Pro.Full.Parse.{
  full_parse, full_parse_activation, full_parse_and_apply, full_apply_parsed, full_deinterleave,
  mathmod10, deinterleave_digits, full_check_field_from_frame, skip_digits, pull_activation_body,
}
use nexus_embedded.Keycode.Pro.Full.RoundTrip.{activation_frame, full_parse_activation-frame}
use nexus_embedded.Keycode.Pro.Full.Short.{bare, short_frame, short_wipe_repeats}
use nexus_embedded.Keycode.Pro.Full.Frames.{full_frame_power_cycled, full_frame_applied_once}
use nexus_embedded.Tests.Devices.{
  Flash, memory_reliable, product, config, new_device, new_device-IsDevice, used_device,
  used_device-IsDevice,
}

-- ADD CREDIT of ten days, with message ID 24.
abbrev two_forty_hours : FullMessage
two_forty_hours = record { full_message_id = 24; type_code = 0; body = 240; check = 201982 }

abbrev keys : List ℕ
keys = 53 ∷ 49 ∷ 55 ∷ 52 ∷ 48 ∷ 57 ∷ 52 ∷ 55 ∷ 50 ∷ 48 ∷ 49 ∷ 57 ∷ 56 ∷ 50 ∷ []

keys_are_written : activation_frame 0 24 240 201982 ≡ keys
unfolding check_compute_pseudorandom_bytes check_compute
keys_are_written = refl

full_parse_activation-frame_example :
    full_parse_activation (activation_frame 0 24 240 201982) used_device.stored
    ≡ some (record {
      full_message_id =
          infer_full_message_id 24 used_device.stored.pd_index window_before_pd window_after_pd;
      type_code = 0;
      body = 240;
      check = 201982;
    })
full_parse_activation-frame_example =
    full_parse_activation-frame 0 24 240 201982 (omega arith) (omega arith) (omega arith)
      (omega arith) used_device.stored

parsed : full_parse_activation keys new_device.stored ≡ some two_forty_hours
unfolding full_parse_activation full_check_field_from_frame skip_digits digits_pull_uint8
    digits_pull_uint32 chars_to_uint32 full_deinterleave deinterleave_digits mathmod10
    check_compute_pseudorandom_bytes check_compute pull_activation_body infer_full_message_id
    infer_from
parsed = refl

abbrev after : Device Flash
after = init_device product (full_parse_and_apply config product [] keys new_device).1

first_time : (full_parse_and_apply config product [] keys new_device).0 ≡ valid_applied
unfolding full_parse_and_apply full_apply_parsed full_parse full_parse_activation
    full_check_field_from_frame skip_digits digits_pull_uint8 digits_pull_uint32 chars_to_uint32
    full_deinterleave deinterleave_digits mathmod10 check_compute_pseudorandom_bytes check_compute
    pull_activation_body infer_full_message_id infer_from full_apply full_apply_activation
    full_compute_check get_full_message_id_flag load_stored message_id_flag stored_of_bytes nv_read
    nv_block_valid stored_bytes
first_time = refl

pd_after : after.stored.pd_index ≡ 24
unfolding full_parse_and_apply full_apply_parsed full_parse full_parse_activation
    full_check_field_from_frame skip_digits digits_pull_uint8 digits_pull_uint32 chars_to_uint32
    full_deinterleave deinterleave_digits mathmod10 check_compute_pseudorandom_bytes check_compute
    pull_activation_body infer_full_message_id infer_from full_apply full_apply_activation
    full_compute_check get_full_message_id_flag load_stored message_id_flag set_full_message_id_flag
    update_window_and_message_mask_id increase_pd_and_shift_window_right raise_pd update_nv_blocks
    init_device reset_pd_index stored_of_bytes nv_read nv_block_valid stored_bytes nv_update
    new_block shifted_flags copy_flags bitset_contains test_bit bitset_add nv_compute_crc
pd_after = refl

parsed_at_24 :
    (d : Device Flash)
    → d.stored.pd_index ≡ 24
    → full_parse_activation keys d.stored ≡ some two_forty_hours
unfolding full_parse_activation full_check_field_from_frame skip_digits digits_pull_uint8
    digits_pull_uint32 chars_to_uint32 full_deinterleave deinterleave_digits mathmod10
    check_compute_pseudorandom_bytes check_compute pull_activation_body infer_full_message_id
    infer_from
parsed_at_24 d e = rw e refl

full_frame_applied_once_example :
    full_parse_and_apply config (in_state product disabled) [] keys after ≡ (valid_duplicate, after)
full_frame_applied_once_example =
    full_frame_applied_once config product memory_reliable [] [] keys two_forty_hours new_device
      new_device-IsDevice (omega arith) refl parsed refl refl refl first_time after
      (next here full_frame_power_cycled) (rw pd_after (omega arith)) (parsed_at_24 after pd_after)
      disabled

short_check : ◌≡◌ {A = ℕ} 506412 (full_compute_check (bare 2 506412) product.secret_key)
unfolding full_compute_check check_compute
short_check = refl

short_wipe_repeats_example :
    full_parse_and_apply config product [] (short_frame 2 506412) used_device
    ≡ (valid_applied, emit (payg_credit_set 0) used_device)
short_wipe_repeats_example =
    short_wipe_repeats config product memory_reliable [] used_device used_device-IsDevice
      (unfold update_nv_blocks in omega arith) 506412 short_check (omega arith)
