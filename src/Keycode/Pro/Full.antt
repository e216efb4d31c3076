-- ===== src/Keycode/Pro/Full.antt =====
-- The full protocol of nexus/src/nexus_keycode_pro.c, from a parsed message on.
pub mod Once
pub mod Replay
pub mod Parse
pub mod Deinterleave
pub mod Frames
pub mod RoundTrip
pub mod Short
use nexus_embedded.Base.{
  ℕ, zero, suc, ◌+◌, ◌-◌, ◌*◌, ◌/◌, ◌%◌, ◌^◌, Bool, true, false, ◌&&◌, ◌||◌, not, List, [], ◌∷◌,
  ◌++◌, bit_and, bit_or, get_or, u8, u16, u32, le32, ltb, leb, ◌==◌, if◌then◌else◌,
}
use nexus_embedded.Util.Check.{check_compute, integrity_check_fixed_00_key, u8to64_le}
use nexus_embedded.Keycode.State.{
  Config, Product, Stored, Device, Event, payg_credit_add, payg_credit_set, payg_credit_unlock,
  PaygState, Response, invalid, valid_duplicate, valid_applied, display_device_id, Applied, emit,
  seconds_in_hour, qc_short_test_message_seconds, universal_short_test_seconds,
}
use nexus_embedded.Keycode.MessageIds.{
  get_full_message_id_flag, set_full_message_id_flag, mask_below_message_id, reset_pd_index,
  reset_test_code_count, wipe_message_ids_in_window, reset_custom_flag, custom_flag_restricted,
}
use nexus_embedded.Keycode.Pro.Qc.{
  can_unit_accept_qc_code, increment_long_qc_test_message_count,
  increment_short_qc_test_message_count, is_unlocked, is_disabled,
}
use nexus_embedded.Keycode.Pro.Small.{wipe_received}

-- `struct nexus_keycode_pro_full_message`; `body` is the four-byte union: hours, wipe target,
-- minutes or device identifier.
pub record FullMessage : Type 0 where
  pub full_message_id : ℕ
  pub type_code : ℕ
  pub body : ℕ
  pub check : ℕ

-- `enum nexus_keycode_pro_full_message_type_codes`.
abbrev pub activation_add_credit : ℕ
activation_add_credit = 0

abbrev pub activation_set_credit : ℕ
activation_set_credit = 1

abbrev pub activation_wipe_state : ℕ
activation_wipe_state = 2

abbrev pub activation_demo_code : ℕ
activation_demo_code = 3

abbrev pub factory_allow_test : ℕ
factory_allow_test = 4

abbrev pub factory_qc_test : ℕ
factory_qc_test = 5

abbrev pub factory_device_id_display : ℕ
factory_device_id_display = 6

abbrev pub factory_nomac_device_id_confirmation : ℕ
factory_nomac_device_id_confirmation = 7

abbrev pub passthrough_command : ℕ
passthrough_command = 8

-- `NEXUS_KEYCODE_PRO_FULL_UNLOCK_INCREMENT`, a number of hours.
abbrev pub unlock_hours : ℕ
unlock_hours = 99999

-- `nexus_keycode_pro_full_compute_check`: six decimal digits of the hash of the first nine bytes.
unfoldable pub full_compute_check : FullMessage → List ℕ → ℕ
full_compute_check m key =
    let value = check_compute key (le32 m.full_message_id ++ (m.type_code ∷ le32 m.body)) in
    bit_and (u8to64_le value) 0xffffffff % 1000000

module _ {F : Type 0} (p : Product F) where
  -- The `switch` over the wipe target.
  unfoldable pub full_apply_wipe : ℕ → Device F → Applied F
  full_apply_wipe target d =
      if target == 1
      then (valid_applied, emit (payg_credit_set 0) (wipe_received p d))
      else if target == 0
      then (valid_applied, emit (payg_credit_set 0) d)
      else if target == 2
      then (valid_applied, wipe_received p d)
      else if target == 3
      then (valid_applied, reset_custom_flag p custom_flag_restricted d)
      else (invalid, d)

  -- `nexus_keycode_pro_full_apply_activation`.
  unfoldable pub full_apply_activation : FullMessage → Device F → Applied F
  full_apply_activation m d =
      let (received, d1) = get_full_message_id_flag p (u16 m.full_message_id) d in
      let credit_increment_seconds = u32 (m.body * seconds_in_hour) in
      let set_id = set_full_message_id_flag p (u16 m.full_message_id) d1 in
      let mask_ids = mask_below_message_id p (u16 (m.full_message_id + 1)) d1 in
      if received
      then (valid_duplicate, d1)
      else if m.type_code == activation_add_credit
      then if not (is_unlocked p.payg_state)
        then (valid_applied, emit (payg_credit_add credit_increment_seconds) set_id)
        else (valid_duplicate, set_id)
      else if m.type_code == activation_demo_code
      then if not (is_unlocked p.payg_state)
        then (valid_applied, emit (payg_credit_add (u32 (m.body * 60))) d1)
        else (valid_applied, d1)
      else if m.type_code == activation_set_credit
      then if m.body == unlock_hours
        then (valid_applied, emit payg_credit_unlock mask_ids)
        else (valid_applied, emit (payg_credit_set credit_increment_seconds) mask_ids)
      else if m.type_code == activation_wipe_state
      then full_apply_wipe m.body mask_ids
      else (invalid, d1)

module _ {F : Type 0} (c : Config) (p : Product F) where
  -- The QC test of `nexus_keycode_pro_full_apply_factory`.
  unfoldable pub full_apply_qc_test : ℕ → Device F → Applied F
  full_apply_qc_test minutes d =
      let qc_credit_seconds = u32 (minutes * 60) in
      let d1 = emit (payg_credit_add qc_credit_seconds) d in
      if can_unit_accept_qc_code c p d.stored qc_credit_seconds
      then if leb qc_credit_seconds qc_short_test_message_seconds
        then (valid_applied, increment_short_qc_test_message_count c p d1)
        else (valid_applied, increment_long_qc_test_message_count c p d1)
      else (valid_duplicate, d)

  -- `nexus_keycode_pro_full_apply_factory`.
  unfoldable pub full_apply_factory : FullMessage → Device F → Applied F
  full_apply_factory m d =
      if m.type_code == factory_allow_test
      then if is_disabled p.payg_state
        then (valid_applied, emit (payg_credit_add universal_short_test_seconds) d)
        else (valid_duplicate, d)
      else if m.type_code == factory_qc_test
      then full_apply_qc_test m.body d
      else if m.type_code == factory_device_id_display
      then (display_device_id, d)
      else if m.type_code == factory_nomac_device_id_confirmation
      then if m.body == p.user_facing_id then (valid_applied, d) else (valid_duplicate, d)
      else (invalid, d)

  -- `nexus_keycode_pro_full_apply`.
  unfoldable pub full_apply : FullMessage → Device F → Applied F
  full_apply m d =
      let key =
        (if ltb m.type_code factory_allow_test
          then p.secret_key
          else integrity_check_fixed_00_key) in
      if not (m.check == full_compute_check m key)
        && ltb m.type_code factory_nomac_device_id_confirmation
      then (invalid, d)
      else if ltb m.type_code factory_allow_test
      then full_apply_activation p m d
      else full_apply_factory m d
