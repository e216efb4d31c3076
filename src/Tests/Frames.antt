-- ===== src/Tests/Frames.antt =====
-- A frame of the small protocol, from its keys on.
use nexus_embedded.Base.{ℕ, ◌≡◌, refl, arith, some, List, [], ◌∷◌}
use nexus_embedded.Base.Bits.{test_bit}
use nexus_embedded.Util.Bitset.{copy_flags, bitset_add, bitset_contains}
use nexus_embedded.Util.Bitstream.{
  Bitstream, push_bit, push_bits_from, push_uint8, pull_bit, pull_bits_from, pull_uint8,
  pull_uint16_be,
}
use nexus_embedded.Util.Check.{check_compute, check_compute_pseudorandom_bytes}
use nexus_embedded.Nv.{
  nv_read, nv_block_valid, nv_update, new_block, nv_compute_crc, compute_crc_ccitt,
}
use nexus_embedded.Keycode.State.{
  disabled, Device, valid_applied, valid_duplicate, stored_of_bytes, stored_bytes,
}
use nexus_embedded.Keycode.MessageIds.{
  infer_full_message_id, infer_from, update_nv_blocks, load_stored, message_id_flag,
  get_full_message_id_flag, set_full_message_id_flag, update_window_and_message_mask_id,
  increase_pd_and_shift_window_right, shifted_flags, raise_pd, reset_pd_index,
}
use nexus_embedded.Keycode.Pro.Growth.{here, next}
use nexus_embedded.Keycode.Pro.Process.{init_device}
use nexus_embedded.Keycode.Pro.Small.{
  SmallMessage, small_apply, small_apply_activation, small_apply_add_credit, small_check_expected,
  small_compute_check, get_add_credit_increment_days,
}
use nexus_embedded.Keycode.Pro.Small.Parse.{
  push_symbol, push_symbols, obfuscate_bits, copy_bits, reversibly_obfuscate, deobfuscate,
  read_message, small_parse, apply_parsed, small_parse_and_apply,
}
use nexus_embedded.Keycode.Pro.Small.Replay.{in_state}
use nexus_embedded.Keycode.Pro.Small.Frames.{
  parse, apply_frame, frame_power_cycled, frame_applied_once,
}
use nexus_embedded.Tests.Devices.{
  Flash, memory_reliable, product, config, new_device, new_device-IsDevice,
}

abbrev pub alphabet : List ℕ
alphabet = 50 ∷ 51 ∷ 52 ∷ 53 ∷ []

abbrev pub scratch : List ℕ
scratch = 0 ∷ 0 ∷ 0 ∷ 0 ∷ []

-- ADD CREDIT of ten days, with message ID 24, and its keys.
abbrev ten_days : SmallMessage
ten_days = record { full_message_id = 24; type_code = 0; body = 9; check = 2501 }

abbrev pub ten_days_frame : List ℕ
ten_days_frame = 50 ∷ 50 ∷ 53 ∷ 52 ∷ 51 ∷ 50 ∷ 51 ∷ 51 ∷ 52 ∷ 51 ∷ 53 ∷ 50 ∷ 51 ∷ 51 ∷ []

abbrev ten_days_clear : Bitstream
ten_days_clear = record {
  bytes = 96 ∷ 9 ∷ 156 ∷ 80 ∷ [];
  capacity = 32;
  length = 28;
  position = 28;
}

parsed : parse alphabet scratch ten_days_frame new_device ≡ some (ten_days, ten_days_clear)
unfolding small_parse push_symbols push_symbol push_uint8 push_bits_from push_bit deobfuscate
    reversibly_obfuscate obfuscate_bits copy_bits pull_bit pull_uint8 pull_bits_from pull_uint16_be
    check_compute_pseudorandom_bytes check_compute read_message infer_full_message_id infer_from
parsed = refl

abbrev after : Device Flash
after =
    init_device product (apply_frame alphabet scratch 0 config product ten_days_frame new_device).1

first_time :
    (apply_frame alphabet scratch 0 config product ten_days_frame new_device).0 ≡ valid_applied
unfolding apply_frame small_parse_and_apply apply_parsed small_parse push_symbols push_symbol
    push_uint8 push_bits_from push_bit deobfuscate reversibly_obfuscate obfuscate_bits copy_bits
    pull_bit pull_uint8 pull_bits_from pull_uint16_be check_compute_pseudorandom_bytes check_compute
    read_message infer_full_message_id infer_from small_apply small_apply_activation
    small_apply_add_credit small_check_expected small_compute_check get_full_message_id_flag
    message_id_flag load_stored nv_read nv_block_valid stored_of_bytes stored_bytes
    get_add_credit_increment_days
first_time = refl

pd_after : after.stored.pd_index ≡ 24
unfolding apply_frame small_parse_and_apply apply_parsed small_parse push_symbols push_symbol
    push_uint8 push_bits_from push_bit deobfuscate reversibly_obfuscate obfuscate_bits copy_bits
    pull_bit pull_uint8 pull_bits_from pull_uint16_be check_compute_pseudorandom_bytes check_compute
    read_message infer_full_message_id infer_from small_apply small_apply_activation
    small_apply_add_credit small_check_expected small_compute_check get_full_message_id_flag
    message_id_flag load_stored nv_read nv_block_valid stored_of_bytes stored_bytes
    get_add_credit_increment_days set_full_message_id_flag update_window_and_message_mask_id
    increase_pd_and_shift_window_right shifted_flags copy_flags bitset_add bitset_contains raise_pd
    update_nv_blocks nv_update new_block nv_compute_crc compute_crc_ccitt init_device reset_pd_index
    test_bit
pd_after = refl

-- A frame is parsed alike on all devices with the same `Pd`.
parsed_at_24 :
    (d : Device Flash)
    → d.stored.pd_index ≡ 24
    → parse alphabet scratch ten_days_frame d ≡ some (ten_days, ten_days_clear)
unfolding small_parse push_symbols push_symbol push_uint8 push_bits_from push_bit deobfuscate
    reversibly_obfuscate obfuscate_bits copy_bits pull_bit pull_uint8 pull_bits_from pull_uint16_be
    check_compute_pseudorandom_bytes check_compute read_message infer_full_message_id infer_from
parsed_at_24 d e = rw e refl

frame_applied_once_example :
    apply_frame alphabet scratch 0 config (in_state product disabled) ten_days_frame after
    ≡ (valid_duplicate, after)
frame_applied_once_example =
    frame_applied_once config product alphabet scratch 0 memory_reliable ten_days_frame ten_days
      ten_days_clear ten_days_clear new_device new_device-IsDevice (omega arith) parsed refl refl
      first_time after (next here frame_power_cycled) (rw pd_after (omega arith))
      (parsed_at_24 after pd_after) disabled
