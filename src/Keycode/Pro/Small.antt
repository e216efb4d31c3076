-- ===== src/Keycode/Pro/Small.antt =====
-- The small protocol of nexus/src/nexus_keycode_pro.c, from a parsed message on.
pub mod Laws
pub mod Once
pub mod Parse
pub mod Frames
pub mod Days
pub mod Replay
pub mod Persist
use nexus_embedded.Base.{
  ℕ, zero, suc, ◌+◌, ◌-◌, ◌*◌, ◌/◌, ◌%◌, ◌^◌, Bool, true, false, ◌&&◌, ◌||◌, not, List, [], ◌∷◌,
  ◌++◌, bit_and, bit_or, get_or, u8, u16, u32, le32, ltb, leb, ◌==◌, if◌then◌else◌,
}
use nexus_embedded.Util.Check.{check_compute, integrity_check_fixed_ff_key}
use nexus_embedded.Keycode.State.{
  Config, Product, Stored, Device, Event, payg_credit_add, payg_credit_set, payg_credit_unlock,
  PaygState, Response, invalid, valid_duplicate, valid_applied, Applied, emit, seconds_in_day,
  qc_long_test_message_seconds, universal_short_test_seconds,
}
use nexus_embedded.Keycode.MessageIds.{
  get_full_message_id_flag, set_full_message_id_flag, mask_below_message_id, reset_pd_index,
  reset_test_code_count, wipe_message_ids_in_window, reset_custom_flag, custom_flag_restricted,
}
use nexus_embedded.Keycode.Pro.Qc.{
  get_long_qc_code_count, increment_long_qc_test_message_count, is_unlocked, is_disabled,
}

-- `struct nexus_keycode_pro_small_message`; `body` is the one byte of the union, an increment or a
-- function identifier.
pub record SmallMessage : Type 0 where
  pub full_message_id : ℕ
  pub type_code : ℕ
  pub body : ℕ
  pub check : ℕ

-- `enum nexus_keycode_pro_small_type_codes`.
abbrev pub add_credit_type : ℕ
add_credit_type = 0

abbrev pub passthrough_type : ℕ
passthrough_type = 1

abbrev pub set_credit_type : ℕ
set_credit_type = 2

abbrev pub maintenance_or_test_type : ℕ
maintenance_or_test_type = 3

abbrev pub max_test_function_id : ℕ
max_test_function_id = 127

-- `NEXUS_KEYCODE_PRO_SMALL_UNLOCK_INCREMENT`, a number of days.
abbrev pub unlock_increment : ℕ
unlock_increment = 65535

-- `nexus_keycode_pro_small_compute_check`: 12 bits of the hash of the message's first six bytes.
unfoldable pub small_compute_check : SmallMessage → List ℕ → ℕ
small_compute_check m key =
    let value = check_compute key (le32 m.full_message_id ++ (m.type_code ∷ m.body ∷ [])) in
    u16 (bit_or (get_or value 7 0 * 2 ^ 4) (get_or value 6 0 / 2 ^ 4))

-- `nexus_keycode_pro_small_get_add_credit_increment_days`.
unfoldable pub get_add_credit_increment_days : ℕ → ℕ
get_add_credit_increment_days increment_id =
    if increment_id == 255
    then unlock_increment
    else if ltb increment_id 180
    then u16 (increment_id + 1)
    else u16 ((increment_id - 179) * 3 + 180)

-- `nexus_keycode_pro_small_get_set_credit_increment_days`.
unfoldable pub get_set_credit_increment_days : ℕ → ℕ
get_set_credit_increment_days increment_id =
    if ltb increment_id 90
    then u16 (increment_id + 1)
    else if ltb increment_id 135
    then u16 ((increment_id - 89) * 2 + 90)
    else if ltb increment_id 180
    then u16 ((increment_id - 134) * 4 + 180)
    else if ltb increment_id 225
    then u16 ((increment_id - 179) * 8 + 360)
    else if ltb increment_id 240
    then u16 ((increment_id - 224) * 16 + 720)
    else if increment_id == 254
    then 0
    else if increment_id == 255
    then unlock_increment
    else 0

module _ {F : Type 0} (p : Product F) where
  -- The check that `nexus_keycode_pro_small_apply` expects of a message.
  unfoldable pub small_check_expected : SmallMessage → ℕ
  small_check_expected m =
      if (m.type_code == maintenance_or_test_type) && leb m.body max_test_function_id
      then small_compute_check m integrity_check_fixed_ff_key
      else small_compute_check m p.secret_key

  -- The branch for a new SET CREDIT message.
  unfoldable pub small_apply_set_credit : SmallMessage → Device F → Applied F
  small_apply_set_credit m d =
      let d1 = mask_below_message_id p (u16 (m.full_message_id + 1)) d in
      if m.body == 255
      then (valid_applied, emit payg_credit_unlock d1)
      else if m.body == 254
      then (valid_applied, emit (payg_credit_set 0) d1)
      else if m.body == 253
      then (valid_applied, reset_custom_flag p custom_flag_restricted d1)
      else (
        valid_applied,
        emit (payg_credit_set (u32 (get_set_credit_increment_days m.body * seconds_in_day))) d1,
      )

  -- The branch for a new ADD CREDIT message.
  unfoldable pub small_apply_add_credit : SmallMessage → Device F → Applied F
  small_apply_add_credit m d =
      let d1 = set_full_message_id_flag p (u16 m.full_message_id) d in
      let increment_days = get_add_credit_increment_days m.body in
      if not (is_unlocked p.payg_state)
      then if increment_days == unlock_increment
        then (valid_applied, emit payg_credit_unlock d1)
        else (valid_applied, emit (payg_credit_add (u32 (increment_days * seconds_in_day))) d1)
      else (valid_duplicate, d1)

  -- Activation messages: type codes below `maintenance_or_test_type`.
  unfoldable pub small_apply_activation : SmallMessage → Device F → Applied F
  small_apply_activation m d =
      let (received, d1) = get_full_message_id_flag p (u16 m.full_message_id) d in
      if received
      then (valid_duplicate, d1)
      else if m.type_code == set_credit_type
      then small_apply_set_credit m d1
      else if m.type_code == add_credit_type
      then small_apply_add_credit m d1
      else (invalid, d1)

  -- The wipe of message IDs that maintenance messages ask for.
  unfoldable pub wipe_received : Device F → Device F
  wipe_received d = wipe_message_ids_in_window p (reset_test_code_count (reset_pd_index d))

  -- Maintenance messages: function identifiers above `max_test_function_id`.
  unfoldable pub small_apply_maintenance : SmallMessage → Device F → Applied F
  small_apply_maintenance m d =
      let target = bit_and m.body 0x7F in
      if target == 1
      then (valid_applied, emit (payg_credit_set 0) (wipe_received d))
      else if target == 0
      then (valid_applied, emit (payg_credit_set 0) d)
      else if target == 2
      then (valid_applied, wipe_received d)
      else (invalid, d)

module _ {F : Type 0} (c : Config) (p : Product F) where
  -- Test messages: the universal short test and the long QC test.
  unfoldable pub small_apply_test : SmallMessage → Device F → Applied F
  small_apply_test m d =
      if m.body == 0
      then if is_disabled p.payg_state
        then (valid_applied, emit (payg_credit_add universal_short_test_seconds) d)
        else (valid_duplicate, d)
      else if m.body == 1
      then if (ltb 0 c.factory_qc_long_lifetime_max
            && ltb (get_long_qc_code_count d.stored) c.factory_qc_long_lifetime_max)
          && not (is_unlocked p.payg_state)
        then (
          valid_applied,
          increment_long_qc_test_message_count c p
              (emit (payg_credit_add qc_long_test_message_seconds) d),
        )
        else (valid_duplicate, d)
      else (invalid, d)

  -- `nexus_keycode_pro_small_apply`.
  unfoldable pub small_apply : SmallMessage → Device F → Applied F
  small_apply m d =
      if not (m.check == small_check_expected p m)
      then (invalid, d)
      else if ltb m.type_code maintenance_or_test_type
      then small_apply_activation p m d
      else if ltb max_test_function_id m.body
      then small_apply_maintenance p m d
      else small_apply_test m d
