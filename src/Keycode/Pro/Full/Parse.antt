-- ===== src/Keycode/Pro/Full/Parse.antt =====
-- Parsing of the full protocol in nexus/src/nexus_keycode_pro.c, and its parse-and-apply.
use nexus_embedded.Base.{
  ℕ, zero, suc, ◌+◌, ◌-◌, ◌%◌, Bool, false, ◌&&◌, ◌||◌, not, Option, none, some, List, [], ◌∷◌,
  ◌++◌, length, drop, le32, u8, ltb, ◌==◌, if◌then◌else◌,
}
use nexus_embedded.Util.Check.{check_compute_pseudorandom_bytes, integrity_check_fixed_00_key}
use nexus_embedded.Util.Digits.{
  Digits, digits_init, digits_pull_uint32, digits_try_pull_uint32, digits_pull_uint8,
}
use nexus_embedded.Keycode.State.{
  Config, Product, Stored, Device, emit, passthrough_keycode, invalid, no_response, Applied,
}
use nexus_embedded.Keycode.MessageIds.{infer_full_message_id, window_before_pd, window_after_pd}
use nexus_embedded.Keycode.Pro.Full.{
  FullMessage, full_apply, activation_add_credit, activation_set_credit, activation_wipe_state,
  activation_demo_code, factory_qc_test, factory_nomac_device_id_confirmation, passthrough_command,
}

abbrev pub activation_message_length : ℕ
activation_message_length = 14

abbrev pub max_digits_full : ℕ
max_digits_full = 30

abbrev pub check_character_count : ℕ
check_character_count = 6

abbrev pub activation_body_character_count : ℕ
activation_body_character_count = 8

abbrev device_id_min_character_count : ℕ
device_id_min_character_count = 8

abbrev device_id_max_character_count : ℕ
device_id_max_character_count = 10

-- `_mathmod10` of `a - b`: the loop adds 10 while the number is negative.
unfoldable pub mathmod10 : (rounds a b : ℕ) → ℕ
mathmod10 zero a b = u8 ((a - b) % 10)
mathmod10 (suc rounds) a b =
    let more = mathmod10 rounds (a + 10) b in if ltb a b then more else u8 ((a - b) % 10)

-- The loop of `nexus_keycode_pro_full_deinterleave` over the characters of the body; a byte is less
-- than 256, so that 26 rounds bring any difference above zero.
unfoldable pub deinterleave_digits : (keys prng_bytes : List ℕ) → List ℕ
unfolding mathmod10
deinterleave_digits [] prng_bytes = []
deinterleave_digits (key ∷ keys) [] = key ∷ keys
deinterleave_digits (body_char ∷ keys) (perturbation ∷ prng_bytes) =
    (mathmod10 26 (u8 (body_char + 256 - b'0')) perturbation + b'0')
    ∷ deinterleave_digits keys prng_bytes

-- `nexus_keycode_pro_full_deinterleave`.
unfoldable pub full_deinterleave : (frame : List ℕ) (check_value : ℕ) → List ℕ
unfolding deinterleave_digits
full_deinterleave frame check_value = deinterleave_digits frame (
    check_compute_pseudorandom_bytes integrity_check_fixed_00_key (le32 check_value)
      activation_body_character_count)

-- The loop of `nexus_keycode_pro_full_check_field_from_frame` past the other digits.
unfoldable pub skip_digits : (rounds : ℕ) → Digits → Digits
skip_digits zero digits = digits
skip_digits (suc rounds) digits = skip_digits rounds (digits_pull_uint8 1 digits).1

-- `nexus_keycode_pro_full_check_field_from_frame`.
unfoldable pub full_check_field_from_frame : (frame : List ℕ) → ℕ
unfolding skip_digits
full_check_field_from_frame frame =
    if ltb (length frame) check_character_count
    then 0
    else (digits_pull_uint32 check_character_count
        (skip_digits (length frame - check_character_count) (digits_init frame (length frame)))).0

-- The body of an activation message by its type, and the stream behind it; `none` for a type that
-- is not known.
unfoldable pub pull_activation_body : (type_code : ℕ) → Digits → Option (ℕ × Digits)
pull_activation_body type_code digits =
    if ((type_code == activation_add_credit) || (type_code == activation_demo_code))
      || (type_code == activation_set_credit)
    then some (digits_pull_uint32 5 digits)
    else if type_code == activation_wipe_state
    then some (digits_pull_uint8 1 (digits_pull_uint32 4 digits).1)
    else none

-- The end of `nexus_keycode_pro_full_parse_activation`: every digit has to be consumed.
abbrev pub finish_activation :
    (full_message_id type_code check : ℕ) → Option (ℕ × Digits) → Option FullMessage
finish_activation full_message_id type_code check none = none
finish_activation full_message_id type_code check (some (body, digits)) =
    let d1 = (digits_pull_uint32 check_character_count digits).1 in
    if d1.length == d1.position
    then some (record {
      full_message_id = full_message_id;
      type_code = type_code;
      body = body;
      check = check;
    })
    else none

-- `nexus_keycode_pro_full_parse_activation`: `none` where it returns false.
unfoldable pub full_parse_activation : (frame : List ℕ) → Stored → Option FullMessage
full_parse_activation frame stored =
    let check = full_check_field_from_frame frame in
    let keys = full_deinterleave frame check in
    let (type_code, s1) = digits_pull_uint8 1 (digits_init keys (length keys)) in
    let (received_message_id, s2) = digits_pull_uint8 2 s1 in
    if ltb (window_after_pd + window_before_pd) received_message_id
    then none
    else finish_activation
        (infer_full_message_id received_message_id stored.pd_index window_before_pd window_after_pd)
        type_code check (pull_activation_body type_code s2)

-- The body of a factory message with a check, from behind its type code on.
unfoldable pub pull_factory_body : (type_code : ℕ) → Digits → ℕ × Digits
pull_factory_body type_code digits =
    if type_code == factory_qc_test
    then digits_pull_uint8 2 (digits_pull_uint32 3 digits).1
    else (0, digits)

-- The end of `nexus_keycode_pro_full_parse_factory_and_passthrough`.
abbrev pub consumed : (underrun : Bool) → Digits → FullMessage → Option FullMessage
consumed underrun digits m =
    if not underrun && (digits.length == digits.position) then some m else none

module _ {F : Type 0} (p : Product F) where
  -- The handling of passthrough commands: the product is handed the keys behind the first.
  unfoldable pub full_passthrough :
      (frame : List ℕ) → FullMessage → Device F → Option FullMessage × Device F
  full_passthrough frame m d =
      let keys = drop 1 frame in
      if ltb 2 (length frame) && not (length frame == activation_message_length)
      then (if p.takes_passthrough keys then some m else none, emit (passthrough_keycode keys) d)
      else (none, d)

  -- `nexus_keycode_pro_full_parse_factory_and_passthrough`: the message, `none` where it returns
  -- false, and the device. `stray` is what its array of characters holds behind those of the frame.
  unfoldable pub full_parse_factory_and_passthrough :
      (stray frame : List ℕ) → Device F → Option FullMessage × Device F
  full_parse_factory_and_passthrough stray frame d =
      let digits = digits_init (frame ++ stray) (length frame) in
      let (type_code_u32, underrun, s1) = digits_try_pull_uint32 1 false digits in
      let type_code = u8 type_code_u32 in
      let (body, s2) = pull_factory_body type_code s1 in
      let (check, underrun2, s3) = digits_try_pull_uint32 check_character_count underrun s2 in
      let serial_id_length = u8 (length frame + 255) in
      let (device_id, underrun4, s4) = digits_try_pull_uint32 serial_id_length underrun s1 in
      let m : FullMessage = record {
        full_message_id = 0;
        type_code = type_code;
        body = 0;
        check = 0;
      } in
      if ltb max_digits_full (length frame)
      then (none, d)
      else if ltb type_code factory_nomac_device_id_confirmation
      then (consumed underrun2 s3 (record m { body = body; check = check }), d)
      else if type_code == factory_nomac_device_id_confirmation
      then if ltb serial_id_length device_id_min_character_count
          || ltb device_id_max_character_count serial_id_length
        then (none, d)
        else (consumed underrun4 s4 (record m { body = device_id }), d)
      else if type_code == passthrough_command
      then full_passthrough frame m d
      else (consumed underrun s1 m, d)

  -- `nexus_keycode_pro_full_parse`.
  unfoldable pub full_parse : (stray frame : List ℕ) → Device F → Option FullMessage × Device F
  full_parse stray frame d =
      if length frame == activation_message_length
      then (full_parse_activation frame d.stored, d)
      else full_parse_factory_and_passthrough stray frame d

-- What `nexus_keycode_pro_full_parse_and_apply` does with the outcome of parsing.
unfoldable pub full_apply_parsed :
    {F : Type 0} → Config → Product F → Option FullMessage × Device F → Applied F
full_apply_parsed c p (none, d) = (invalid, d)
full_apply_parsed c p (some m, d) =
    if m.type_code == passthrough_command then (no_response, d) else full_apply c p m d

-- `nexus_keycode_pro_full_parse_and_apply`.
unfoldable pub full_parse_and_apply :
    {F : Type 0} → Config → Product F → (stray frame : List ℕ) → Device F → Applied F
full_parse_and_apply c p stray frame d = full_apply_parsed c p (full_parse p stray frame d)
