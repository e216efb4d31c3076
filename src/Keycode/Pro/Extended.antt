-- ===== src/Keycode/Pro/Extended.antt =====
-- The extended small protocol: nexus/src/nexus_keycode_pro_extended.c, and the passthrough of
-- nexus/src/nexus_keycode_pro.c that hands frames over to it.
pub mod Agree
pub mod Infer
pub mod Apply
pub mod Order
use nexus_embedded.Base.{
  ℕ, zero, suc, ◌+◌, ◌*◌, ◌/◌, ◌^◌, Bool, true, false, ◌&&◌, not, List, [], ◌∷◌, ◌++◌, Option, none,
  some, bit_and, u8, u16, u32, sub32, le32, ◌==◌, if◌then◌else◌,
}
use nexus_embedded.Util.Check.{check_compute, check_value_as_uint64}
use nexus_embedded.Util.Bitstream.{Bitstream, pull_bit, pull_uint8, pull_uint16_be}
use nexus_embedded.Util.Window.{Window, window_init, id_within_window, id_flag_already_set}
use nexus_embedded.Keycode.State.{
  Product, Stored, Device, Event, feedback_start, message_invalid, message_applied, payg_credit_set,
  payg_credit_unlock, Response, invalid, valid_applied, Applied, emit, seconds_in_day,
}
use nexus_embedded.Keycode.MessageIds.{
  mask_below_message_id, reset_custom_flag, custom_flag_restricted, window_before_pd,
  window_after_pd,
}
use nexus_embedded.Keycode.Pro.Small.{get_set_credit_increment_days, unlock_increment}

-- `struct nexus_keycode_pro_extended_small_message`, with the two fields of its one body.
pub record ExtendedMessage : Type 0 where
  pub inferred_message_id : ℕ
  pub type_code : ℕ
  pub truncated_message_id : ℕ
  pub increment_id : ℕ
  pub check : ℕ

-- `NEXUS_KEYCODE_PRO_EXTENDED_SMALL_TYPE_SET_CREDIT_AND_WIPE_FLAG`.
abbrev pub set_credit_and_wipe_flag : ℕ
set_credit_and_wipe_flag = 0

-- `nexus_keycode_pro_extended_small_parse`: `none` where it returns false. What the message's ID
-- holds at first is the argument `scratch_id`.
unfoldable pub extended_small_parse : (scratch_id : ℕ) → Bitstream → Option ExtendedMessage
extended_small_parse scratch_id command_bitstream =
    let (type_code, s1) = pull_uint8 3 command_bitstream in
    let (truncated_message_id, s2) = pull_uint8 2 s1 in
    let (increment_id, s3) = pull_uint8 8 s2 in
    let (check, s4) = pull_uint16_be 12 s3 in
    if not (type_code == set_credit_and_wipe_flag)
    then none
    else some (record {
      inferred_message_id = scratch_id;
      type_code = type_code;
      truncated_message_id = truncated_message_id;
      increment_id = increment_id;
      check = check;
    })

-- `_nexus_keycode_pro_extended_small_auth_arbitrary_bytes`: the upper 12 bits of the hash.
unfoldable pub extended_small_auth_arbitrary_bytes : (bytes key : List ℕ) → ℕ
extended_small_auth_arbitrary_bytes bytes key =
    u16 (check_value_as_uint64 (check_compute key bytes) / 2 ^ 52)

-- The bytes that a message is authenticated by.
abbrev pub extended_compute_bytes : ExtendedMessage → List ℕ
extended_compute_bytes m =
    le32 m.inferred_message_id ++ (m.type_code ∷ m.increment_id ∷ m.truncated_message_id ∷ [])

-- `_nexus_keycode_pro_extended_small_message_infer_inner_compute_auth`.
unfoldable pub infer_inner_compute_auth : ExtendedMessage → (secret_key : List ℕ) → Bool
unfolding extended_small_auth_arbitrary_bytes
infer_inner_compute_auth m secret_key =
    if m.type_code == set_credit_and_wipe_flag
    then extended_small_auth_arbitrary_bytes (extended_compute_bytes m) secret_key == m.check
    else false

-- The loop of `nexus_keycode_pro_extended_small_infer_windowed_message_id`, with its rounds.
unfoldable pub infer_windowed_from :
    (rounds : ℕ) → Window → (secret_key : List ℕ) → ExtendedMessage → Bool × ExtendedMessage
infer_windowed_from zero window secret_key m = (false, m)
infer_windowed_from (suc rounds) window secret_key m =
    let rest =
      infer_windowed_from rounds window secret_key
        (record m { inferred_message_id = u32 (m.inferred_message_id + 1) }) in
    if not (id_within_window window m.inferred_message_id)
    then (false, m)
    else if (bit_and m.inferred_message_id 0x03 == m.truncated_message_id)
        && (not (id_flag_already_set window m.inferred_message_id)
            && infer_inner_compute_auth m secret_key)
    then (true, m)
    else rest

-- `nexus_keycode_pro_extended_small_infer_windowed_message_id`.
unfoldable pub infer_windowed_message_id :
    ExtendedMessage → Window → (secret_key : List ℕ) → Bool × ExtendedMessage
infer_windowed_message_id m window secret_key =
    let bottom = record m { inferred_message_id = sub32 window.center_index window.flags_below } in
    if not (m.type_code == set_credit_and_wipe_flag)
    then (false, bottom)
    else infer_windowed_from (window.flags_below + window.flags_above + 2) window secret_key bottom

-- `nexus_keycode_pro_get_current_message_id_window`.
unfoldable pub get_current_message_id_window : Stored → Window
unfolding window_init
get_current_message_id_window s =
    window_init s.received_flags 3 s.pd_index window_before_pd window_after_pd

abbrev pub is_applied : Response → Bool
is_applied valid_applied = true
is_applied _ = false

-- What an applied message tells the product about the credit.
unfoldable pub credit_event : ExtendedMessage → Event
credit_event m =
    let increment_days = u16 (get_set_credit_increment_days (u8 m.increment_id)) in
    if not (increment_days == unlock_increment)
    then payg_credit_set (u32 (increment_days * seconds_in_day))
    else payg_credit_unlock

module _ {F : Type 0} (p : Product F) where
  -- The part of `nexus_keycode_pro_extended_small_apply` behind the inference of the ID.
  unfoldable pub apply_inferred : ExtendedMessage → Device F → Device F
  apply_inferred m d = emit (feedback_start message_applied) (
      reset_custom_flag p custom_flag_restricted
        (mask_below_message_id p (u16 (u16 m.inferred_message_id + 1)) (emit (credit_event m) d)))

  -- What it does with the outcome of the inference.
  abbrev pub apply_outcome : Device F → Bool × ExtendedMessage → Applied F
  apply_outcome d (false, m) = (invalid, emit (feedback_start message_invalid) d)
  apply_outcome d (true, m) = (valid_applied, apply_inferred m d)

  -- `nexus_keycode_pro_extended_small_apply`.
  unfoldable pub extended_small_apply : ExtendedMessage → Device F → Applied F
  unfolding apply_inferred infer_windowed_message_id get_current_message_id_window
  extended_small_apply m d =
      apply_outcome d
        (infer_windowed_message_id m (get_current_message_id_window d.stored) p.secret_key)

  -- What `nexus_keycode_pro_extended_small_parse_and_apply_keycode` does with a parsed message.
  abbrev pub apply_extended : Device F → Option ExtendedMessage → Bool × Device F
  apply_extended d none = (false, emit (feedback_start message_invalid) d)
  apply_extended d (some m) =
      let (response, d1) = extended_small_apply m d in (is_applied response, d1)

  -- `nexus_keycode_pro_extended_small_parse_and_apply_keycode`.
  unfoldable pub extended_small_parse_and_apply_keycode :
      (scratch_id : ℕ) → Bitstream → Device F → Bool × Device F
  unfolding extended_small_parse extended_small_apply
  extended_small_parse_and_apply_keycode scratch_id passthrough_command_bitstream d =
      apply_extended d (extended_small_parse scratch_id passthrough_command_bitstream)

  -- `nexus_keycode_pro_small_internal_bitstream_passthrough`: whether it reports no error.
  unfoldable pub small_internal_bitstream_passthrough :
      (scratch_id : ℕ) → Bitstream → Device F → Bool × Device F
  unfolding extended_small_parse_and_apply_keycode
  small_internal_bitstream_passthrough scratch_id passthrough_bitstream d =
      let (application, s1) = pull_bit passthrough_bitstream in
      if not (application == 1)
      then (false, d)
      else (true, (extended_small_parse_and_apply_keycode scratch_id s1 d).1)
