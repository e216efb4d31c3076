-- ===== src/Keycode/State.antt =====
-- What the keycode modules keep, what they ask of the product, and what they tell it.
use nexus_embedded.Base.{ℕ, ◌+◌, ◌*◌, Bool, List, [], ◌∷◌, ◌++◌, get_or, take, le32}
use nexus_embedded.Nv.{Nvm}

-- The options of nexus/src/internal_keycode_config.h that the code tests.
pub record Config : Type 0 where
  pub rate_limit_bucket_max : ℕ
  pub rate_limit_bucket_initial_count : ℕ
  pub rate_limit_refill_seconds_per_attempt : ℕ
  pub entry_timeout_seconds : ℕ
  pub factory_qc_long_lifetime_max : ℕ
  pub factory_qc_short_lifetime_max : ℕ

-- `enum nxp_keycode_feedback_type`.
pub data Feedback : Type 0 where
  no_feedback message_invalid message_valid message_applied : Feedback
  key_rejected key_accepted display_serial_id : Feedback

-- `enum nxp_common_payg_state`.
pub data PaygState : Type 0 where
  disabled enabled unlocked : PaygState

-- The calls that the modules make into the product, other than reads.
pub data Event : Type 0 where
  feedback_start : Feedback → Event
  payg_credit_add : ℕ → Event
  payg_credit_set : ℕ → Event
  payg_credit_unlock : Event
  notify_custom_flag_changed : ℕ → Bool → Event
  request_processing : Event
  passthrough_keycode : List ℕ → Event

-- What the product answers while one entry point of the library runs: its memory, its secret key,
-- its identifier, the PAYG state that it reports and whether it takes a passthrough keycode.
pub record Product (F : Type 0) : Type 0 where
  pub nv : Nvm F
  pub secret_key : List ℕ
  pub user_facing_id : ℕ
  pub payg_state : PaygState
  pub takes_passthrough : List ℕ → Bool

-- `_nexus_keycode_stored` of nexus_keycode_pro.c.
pub record Stored : Type 0 where
  pub received_flags : List ℕ
  pub qc_test_codes_received : ℕ
  pub pd_index : ℕ
  pub custom_flags : ℕ
  pub pad : ℕ

-- Its twelve bytes in memory, packed, and the record that twelve bytes hold.
unfoldable pub stored_bytes : Stored → List ℕ
stored_bytes s =
    s.received_flags
    ++ (s.qc_test_codes_received ∷ (le32 s.pd_index ++ (s.custom_flags ∷ s.pad ∷ [])))

unfoldable pub stored_of_bytes : List ℕ → Stored
stored_of_bytes b = record {
  received_flags = take 5 b;
  qc_test_codes_received = get_or b 5 0;
  pd_index = get_or b 6 0 + get_or b 7 0 * 256 + get_or b 8 0 * 65536 + get_or b 9 0 * 16777216;
  custom_flags = get_or b 10 0;
  pad = get_or b 11 0;
}

-- The part of the state that keycode messages act on: the stored data in RAM, the memory of the
-- product, and the calls made so far, the latest last.
pub record Device (F : Type 0) : Type 0 where
  pub stored : Stored
  pub flash : F
  pub calls : List Event

abbrev pub emit : {F : Type 0} → Event → Device F → Device F
emit e d = record d { calls = d.calls ++ (e ∷ []) }

-- `enum nexus_keycode_pro_response`.
pub data Response : Type 0 where
  invalid valid_duplicate valid_applied display_device_id no_response : Response

-- A response for a device that stays as it is, or after a change of it.
abbrev pub Applied : Type 0 → Type 0
Applied F = Response × Device F

abbrev pub seconds_in_hour : ℕ
seconds_in_hour = 3600

abbrev pub seconds_in_day : ℕ
seconds_in_day = 86400

-- `NEXUS_KEYCODE_PRO_QC_LONG_TEST_MESSAGE_SECONDS` and the two shorter ones.
abbrev pub qc_long_test_message_seconds : ℕ
qc_long_test_message_seconds = 3600

abbrev pub qc_short_test_message_seconds : ℕ
qc_short_test_message_seconds = 600

abbrev pub universal_short_test_seconds : ℕ
universal_short_test_seconds = 127
