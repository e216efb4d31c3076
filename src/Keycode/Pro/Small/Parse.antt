-- ===== src/Keycode/Pro/Small/Parse.antt =====
-- Parsing of the small protocol in nexus/src/nexus_keycode_pro.c, and its parse-and-apply.
use nexus_embedded.Base.{
  ℕ, zero, suc, ◌+◌, ◌-◌, ◌*◌, ◌/◌, ◌^◌, Bool, ◌||◌, not, Option, none, some, List, [], ◌∷◌, length,
  bit_xor, u8, ◌==◌, if◌then◌else◌,
}
use nexus_embedded.Util.Check.{check_compute_pseudorandom_bytes, integrity_check_fixed_00_key}
use nexus_embedded.Util.Bitstream.{
  Bitstream, bitstream_init, set_bit_position, push_bit, push_uint8, pull_bit, pull_uint8,
  pull_uint16_be,
}
use nexus_embedded.Keycode.State.{Config, Product, Stored, Device, invalid, no_response, Applied}
use nexus_embedded.Keycode.MessageIds.{infer_full_message_id, window_before_pd, window_after_pd}
use nexus_embedded.Keycode.Pro.Small.{
  SmallMessage, small_apply, add_credit_type, passthrough_type, set_credit_type,
}

abbrev pub message_digits : ℕ
message_digits = 14

abbrev obfuscated_message_bits_count : ℕ
obfuscated_message_bits_count = 16

abbrev mac_bits_count : ℕ
mac_bits_count = 12

-- The loop over the alphabet for one key: the place of the key is pushed, if it has one.
unfoldable pub push_symbol : (key : ℕ) (alphabet : List ℕ) (j : ℕ) → Bitstream → Bitstream
push_symbol key [] j s = s
push_symbol key (symbol ∷ alphabet) j s =
    let rest = push_symbol key alphabet (j + 1) s in
    if key == symbol then push_uint8 j 2 s else rest

-- The loop over the keys of the frame, from the place `i` on.
unfoldable pub push_symbols : (alphabet keys : List ℕ) (i : ℕ) → Bitstream → Option Bitstream
push_symbols alphabet [] i s = some s
push_symbols alphabet (key ∷ keys) i s =
    let s1 = push_symbol key alphabet 0 s in
    let rest = push_symbols alphabet keys (i + 1) s1 in
    if not (s1.length == (i + 1) * 2) then none else rest

-- The two loops of `nexus_keycode_pro_small_reversibly_obfuscate`: the first bits are combined with
-- those of the pseudorandom stream, the rest are copied. The output comes last.
unfoldable pub obfuscate_bits : (rounds : ℕ) (input prng output : Bitstream) → Bitstream × Bitstream
obfuscate_bits zero input prng output = (input, output)
obfuscate_bits (suc rounds) input prng output =
    let (a, input1) = pull_bit input in
    let (b, prng1) = pull_bit prng in
    obfuscate_bits rounds input1 prng1 (push_bit (bit_xor a b) output)

unfoldable pub copy_bits : (rounds : ℕ) (input output : Bitstream) → Bitstream × Bitstream
copy_bits zero input output = (input, output)
copy_bits (suc rounds) input output =
    let (bit, input1) = pull_bit input in copy_bits rounds input1 (push_bit bit output)

unfoldable pub reversibly_obfuscate :
    (input output prng : Bitstream) (obfuscation_bit_count : ℕ) → Bitstream
reversibly_obfuscate input output prng obfuscation_bit_count =
    let (input1, output1) =
      obfuscate_bits obfuscation_bit_count (set_bit_position 0 input) (set_bit_position 0 prng)
        (set_bit_position 0 output) in
    (copy_bits (input1.length - input1.position) input1 output1).1

-- The check field of the message, and the message with its first 16 bits in the clear. `scratch`
-- is what the array for the latter holds at first.
unfoldable pub deobfuscate : (scratch : List ℕ) → Bitstream → ℕ × Bitstream
deobfuscate scratch message =
    let (check, message1) =
      pull_uint16_be mac_bits_count (set_bit_position obfuscated_message_bits_count message) in
    let prng_bytes =
      check_compute_pseudorandom_bytes integrity_check_fixed_00_key
        (u8 (check / 2 ^ 8) ∷ u8 check ∷ []) 4 in
    (
      check,
      reversibly_obfuscate message1 (bitstream_init scratch 32 0) (bitstream_init prng_bytes 32 32)
          obfuscated_message_bits_count,
    )

-- The fields of the deobfuscated message, read one after the other; the ID of an ADD or SET CREDIT
-- message is expanded.
unfoldable pub read_message : Stored → (check : ℕ) → Bitstream → SmallMessage
read_message stored check clear =
    let (received_message_id, s1) = pull_uint8 6 (set_bit_position 0 clear) in
    let (type_code, s2) = pull_uint8 2 s1 in
    let (body, s3) = pull_uint8 8 s2 in
    record {
      full_message_id =
          (if (type_code == add_credit_type) || (type_code == set_credit_type)
            then infer_full_message_id received_message_id stored.pd_index window_before_pd
                window_after_pd
            else received_message_id);
      type_code = type_code;
      body = body;
      check = check;
    }

-- `nexus_keycode_pro_small_parse` up to the handling of passthrough messages, with the message in
-- the clear that these take on. `scratch` is what its two arrays of four bytes hold at first.
unfoldable pub small_parse :
    (alphabet scratch : List ℕ) → (frame : List ℕ) → Stored → Option (SmallMessage × Bitstream)
small_parse alphabet scratch frame stored =
    if not (length frame == message_digits)
    then none
    else elim (push_symbols alphabet frame 0 (bitstream_init scratch 32 0)) [
      | none ↦ none
      | some message ↦
          (let (check, clear) = deobfuscate scratch message in
            some (read_message stored check clear, clear))
    ]

-- `_nexus_keycode_pro_small_internal_extract_passthrough_message`: the bits but those of the type.
unfoldable pub extract_passthrough_message : (passthrough clear : Bitstream) → Bitstream
extract_passthrough_message passthrough clear =
    let (clear1, out1) = copy_bits 6 (set_bit_position 0 clear) (set_bit_position 0 passthrough) in
    (copy_bits 20 (set_bit_position 8 clear1) out1).1

-- What `nexus_keycode_pro_small_parse_and_apply` does with the outcome of parsing. `passthrough`
-- stands for `nexus_keycode_pro_small_internal_bitstream_passthrough`, and returns whether it
-- reports no error.
unfoldable pub apply_parsed :
    {F : Type 0} (c : Config) (p : Product F) (scratch : List ℕ)
    → (passthrough : Bitstream → Device F → Bool × Device F) → Device F
    → Option (SmallMessage × Bitstream)
    → Applied F
apply_parsed c p scratch passthrough d none = (invalid, d)
apply_parsed c p scratch passthrough d (some (m, clear)) =
    let bits = extract_passthrough_message (bitstream_init scratch 32 0) clear in
    let (taken, d1) = passthrough (set_bit_position 0 bits) d in
    if m.type_code == passthrough_type
    then if taken then (no_response, d1) else (invalid, d1)
    else small_apply c p m d

-- `nexus_keycode_pro_small_parse_and_apply`.
unfoldable pub small_parse_and_apply :
    {F : Type 0} (c : Config) (p : Product F) (alphabet scratch : List ℕ)
    → (passthrough : Bitstream → Device F → Bool × Device F) → (frame : List ℕ) → Device F
    → Applied F
small_parse_and_apply c p alphabet scratch passthrough frame d =
    apply_parsed c p scratch passthrough d (small_parse alphabet scratch frame d.stored)
