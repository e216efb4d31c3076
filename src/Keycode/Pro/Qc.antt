-- ===== src/Keycode/Pro/Qc.antt =====
-- The counts of factory test codes of nexus/src/nexus_keycode_pro.c: two nibbles of one byte.
pub mod Counts
use nexus_embedded.Base.{
  ℕ, ◌+◌, ◌-◌, ◌*◌, ◌/◌, ◌%◌, ◌^◌, Bool, true, false, ◌&&◌, ◌||◌, not, bit_and, bit_or, u8, ltb,
  leb, ◌==◌, if◌then◌else◌,
}
use nexus_embedded.Keycode.State.{
  Config, Product, Stored, Device, PaygState, disabled, enabled, unlocked,
  qc_long_test_message_seconds, qc_short_test_message_seconds,
}
use nexus_embedded.Keycode.MessageIds.{update_nv_blocks}

-- `nexus_keycode_pro_get_long_qc_code_count` and its short sibling.
unfoldable pub get_long_qc_code_count : Stored → ℕ
get_long_qc_code_count s = u8 (bit_and s.qc_test_codes_received 0xF0 / 2 ^ 4)

unfoldable pub get_short_qc_code_count : Stored → ℕ
get_short_qc_code_count s = bit_and s.qc_test_codes_received 0x0F

abbrev pub is_unlocked : PaygState → Bool
is_unlocked unlocked = true
is_unlocked _ = false

abbrev pub is_disabled : PaygState → Bool
is_disabled disabled = true
is_disabled _ = false

abbrev pub store_qc : {F : Type 0} → ℕ → Device F → Device F
store_qc n d = record d { stored = record d.stored { qc_test_codes_received = n } }

module _ {F : Type 0} (c : Config) (p : Product F) where
  -- `nexus_keycode_pro_can_unit_accept_qc_code`.
  unfoldable pub can_unit_accept_qc_code : Stored → ℕ → Bool
  can_unit_accept_qc_code s qc_credit_seconds =
      let is_short_code = leb qc_credit_seconds qc_short_test_message_seconds in
      if is_unlocked p.payg_state
      then false
      else if not (qc_credit_seconds == qc_long_test_message_seconds)
          && not (is_disabled p.payg_state)
      then false
      else if is_short_code
          && (ltb 0 c.factory_qc_short_lifetime_max
              && ltb (get_short_qc_code_count s) c.factory_qc_short_lifetime_max)
      then true
      else not is_short_code
        && (ltb 0 c.factory_qc_long_lifetime_max
            && ltb (get_long_qc_code_count s) c.factory_qc_long_lifetime_max)

  -- `nexus_keycode_pro_increment_long_qc_test_message_count` and its short sibling.
  unfoldable pub increment_long_qc_test_message_count : Device F → Device F
  increment_long_qc_test_message_count d =
      let new_long_code_count = u8 (get_long_qc_code_count d.stored + 1) in
      if ltb 15 new_long_code_count || ltb c.factory_qc_long_lifetime_max new_long_code_count
      then d
      else update_nv_blocks p (
          store_qc
            (bit_or (bit_and d.stored.qc_test_codes_received 0x0F)
              (u8 (new_long_code_count * 2 ^ 4)))
            d)

  unfoldable pub increment_short_qc_test_message_count : Device F → Device F
  increment_short_qc_test_message_count d =
      let new_short_code_count = u8 (get_short_qc_code_count d.stored + 1) in
      if ltb 15 new_short_code_count || ltb c.factory_qc_short_lifetime_max new_short_code_count
      then d
      else update_nv_blocks p
          (store_qc (bit_or (bit_and d.stored.qc_test_codes_received 0xF0) new_short_code_count) d)
