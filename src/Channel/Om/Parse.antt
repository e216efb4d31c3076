-- ===== src/Channel/Om/Parse.antt =====
-- Parsing of origin commands in nexus/src/nexus_channel_om.c, and the entry point for them.
use nexus_embedded.Base.{
  ℕ, ◌-◌, Bool, true, false, ◌&&◌, ◌||◌, not, Option, none, some, List, [], ◌∷◌, ◌++◌, length, take,
  drop, le32, u8, u16, ltb, leb, ◌==◌, if◌then◌else◌,
}
use nexus_embedded.Util.Check.{check_compute_pseudorandom_bytes, integrity_check_fixed_00_key}
use nexus_embedded.Util.Digits.{
  Digits, digits_init, digits_remaining, digits_try_pull_uint32, digits_pull_uint8,
}
use nexus_embedded.Keycode.Pro.Full.Parse.{deinterleave_digits}
use nexus_embedded.Channel.Om.{
  CommandBody, controller_action, accessory_action, create_link, OmMessage,
  generic_controller_action, accessory_action_unlock, accessory_action_unlink,
  create_accessory_link_mode_3, invalid_command_type, Controller, OmState, om_apply_message,
}

-- `NEXUS_CHANNEL_OM_COMMAND_ASCII_DIGITS_MAX_LENGTH`.
abbrev pub ascii_digits_max_length : ℕ
ascii_digits_max_length = 20

abbrev pub fixed_mac_digit_count : ℕ
fixed_mac_digit_count = 6

-- `_nexus_channel_om_ascii_validate_command_type`.
unfoldable pub validate_command_type : ℕ → ℕ
validate_command_type type_int =
    if ltb accessory_action_unlink type_int && not (type_int == create_accessory_link_mode_3)
    then invalid_command_type
    else type_int

-- The three functions that extract a body: whether they succeed, the body and the stream.
unfoldable pub extract_body_controller_action : Digits → Bool × CommandBody × Digits
extract_body_controller_action command_digits =
    let (action_type, d1) = digits_pull_uint8 2 command_digits in
    (not (action_type == 255) && ltb 0 (digits_remaining d1), controller_action action_type, d1)

unfoldable pub extract_body_accessory_action : Digits → Bool × CommandBody × Digits
extract_body_accessory_action command_digits =
    let (digits_int, underrun, d1) = digits_try_pull_uint32 1 false command_digits in
    (
      not underrun && ltb 0 (digits_remaining d1),
      accessory_action digits_int 1 (record { authority_id = 0; device_id = 0 }),
      d1,
    )

unfoldable pub extract_body_create_link : Digits → Bool × CommandBody × Digits
extract_body_create_link command_digits =
    let (six_int_digits, underrun, d1) = digits_try_pull_uint32 6 false command_digits in
    (not underrun && ltb 0 (digits_remaining d1), create_link six_int_digits, d1)

-- The `switch` of `_nexus_channel_om_ascii_parse_message` over the type of the command.
unfoldable pub extract_body : (command_type : ℕ) → Digits → Bool × CommandBody × Digits
extract_body command_type digits =
    if command_type == generic_controller_action
    then extract_body_controller_action digits
    else if (command_type == accessory_action_unlock) || (command_type == accessory_action_unlink)
    then extract_body_accessory_action digits
    else if command_type == create_accessory_link_mode_3
    then extract_body_create_link digits
    else (false, controller_action 0, digits)

-- `_nexus_channel_om_deinterleave_digits`. The pseudorandom bytes are those of a check value, eight
-- of them; the code asks for as many as there are digits before the MAC, and for more than eight
-- reads `stray`, what lies behind the check value.
unfoldable pub om_deinterleave_digits : (stray chars : List ℕ) (check_value : ℕ) → List ℕ
om_deinterleave_digits stray chars check_value =
    let non_mac_digit_count = length chars - fixed_mac_digit_count in
    let prng_bytes = take non_mac_digit_count (
      check_compute_pseudorandom_bytes integrity_check_fixed_00_key (le32 check_value) 8
      ++ stray) in
    deinterleave_digits (take non_mac_digit_count chars) prng_bytes
    ++ drop non_mac_digit_count chars

-- `_nexus_channel_om_ascii_parse_message`: `none` where it returns false.
unfoldable pub om_parse_message : (stray chars : List ℕ) → Option OmMessage
om_parse_message stray chars =
    let count = length chars in
    let mac = record (digits_init chars count) { position = u16 (count - fixed_mac_digit_count) } in
    let (auth, underrun, _) = digits_try_pull_uint32 fixed_mac_digit_count false mac in
    let digits = digits_init (om_deinterleave_digits stray chars auth) count in
    let (command_type_int, d1) = digits_pull_uint8 1 digits in
    let command_type = validate_command_type command_type_int in
    let (parsed, body, d2) = extract_body command_type d1 in
    if leb (u8 (digits_remaining (digits_init chars count))) fixed_mac_digit_count
    then none
    else if (not underrun && parsed) && (digits_remaining d2 == fixed_mac_digit_count)
    then some
        (record { command_type = command_type; body = body; auth = auth; computed_command_id = 0 })
    else none

-- The loop of `_nexus_channel_om_handle_ascii_origin_command` over the characters.
unfoldable pub all_ascii_digits : List ℕ → Bool
all_ascii_digits [] = true
all_ascii_digits (val ∷ chars) = not (ltb val 0x30 || ltb 0x39 val) && all_ascii_digits chars

module _ {F C : Type 0} (k : Controller F C) where
  -- What it does with the outcome of parsing.
  unfoldable pub om_apply_parsed : OmState F C → Option OmMessage → Bool × OmState F C
  om_apply_parsed s none = (false, s)
  om_apply_parsed s (some m) = om_apply_message k m s

  -- `_nexus_channel_om_handle_ascii_origin_command`.
  unfoldable pub handle_ascii_origin_command :
      (stray command_data : List ℕ) → OmState F C → Bool × OmState F C
  handle_ascii_origin_command stray command_data s =
      if ltb ascii_digits_max_length (length command_data)
      then (false, s)
      else if not (all_ascii_digits command_data)
      then (false, s)
      else om_apply_parsed s (om_parse_message stray command_data)

  -- `nx_channel_handle_origin_command`: whether it reports no error, or that the action was
  -- rejected. The ASCII bearer is the only one there is.
  unfoldable pub handle_origin_command :
      (is_ascii_bearer : Bool) (stray command_data : List ℕ) → OmState F C → Bool × OmState F C
  handle_origin_command is_ascii_bearer stray command_data s =
      if is_ascii_bearer then handle_ascii_origin_command stray command_data s else (false, s)
