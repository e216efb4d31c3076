-- ===== src/Channel/Om/Rejects.antt =====
-- What nexus/src/nexus_channel_om.c reads behind a check value never decides about a command.
use nexus_embedded.Base.{
  ℕ, zero, suc, [], ◌∷◌, drop, ◌+◌, ◌-◌, ◌≤◌, ◌<◌, ◌≡◌, refl, sym, ap, ◌∙◌, Bool, true, false, none,
  List, ◌++◌, length, take, ltb, ◌==◌, le32, arith, u16, Bool-cases, inl, inr,
}
use nexus_embedded.Util.Check.{
  check_compute_pseudorandom_bytes, integrity_check_fixed_00_key, length-pseudorandom_8,
}
use nexus_embedded.Util.Digits.{
  Digits, digits_init, digits_remaining, digits_try_pull_uint32, digits_pull_uint8,
}
use nexus_embedded.Keycode.Pro.Full.Parse.{deinterleave_digits}
use nexus_embedded.Channel.Om.{Controller, OmState}
use nexus_embedded.Channel.Om.Parse.{
  extract_body, extract_body_controller_action, extract_body_accessory_action,
  extract_body_create_link, om_deinterleave_digits, om_parse_message, validate_command_type,
  handle_ascii_origin_command, handle_origin_command,
}

-- A stream after at most `count` digits were pulled.
record Moved (count : ℕ) (d d' : Digits) : Type 0 where
  same_length : d'.length ≡ d.length
  not_far : d'.position ≤ count + d.position

pull_uint8-Moved : (count : ℕ) (d : Digits) → Moved count d (digits_pull_uint8 count d).1
unfolding digits_pull_uint8
pull_uint8-Moved count d = ground arith

try_pull-Moved : (count : ℕ) (d : Digits) → Moved count d (digits_try_pull_uint32 count false d).2
unfolding digits_try_pull_uint32
try_pull-Moved count d = ground arith

extract_body-Moved : (command_type : ℕ) (d : Digits) → Moved 6 d (extract_body command_type d).2
unfolding extract_body extract_body_controller_action extract_body_accessory_action
    extract_body_create_link
extract_body-Moved command_type d =
    let two = pull_uint8-Moved 2 d in
    let one = try_pull-Moved 1 d in
    let six = try_pull-Moved 6 d in
    ground (
      arith, two.same_length, two.not_far, one.same_length, one.not_far, six.same_length,
      six.not_far,
    )

-- A command of more than fourteen digits leaves too many behind any body.
long_rejected :
    (stray chars : List ℕ)
    → 14 < length chars
    → length chars ≤ 20
    → om_parse_message stray chars ≡ none
unfolding om_parse_message
long_rejected stray chars h k =
    let mac = record (digits_init chars (length chars)) { position = u16 (length chars - 6) } in
    let auth = (digits_try_pull_uint32 6 false mac).0 in
    let digits = digits_init (om_deinterleave_digits stray chars auth) (length chars) in
    let first = digits_pull_uint8 1 digits in
    let one = pull_uint8-Moved 1 digits in
    let rest = extract_body-Moved (validate_command_type first.0) first.1 in
    let left : (digits_remaining (extract_body (validate_command_type first.0) first.1).2 == 6)
        ≡ false =
      ground (arith, one.same_length, one.not_far, rest.same_length, rest.not_far) in
    ground (arith, left)

take_front : (n : ℕ) (xs ys zs : List ℕ) → n ≤ length xs → take n (xs ++ ys) ≡ take n (xs ++ zs)
take_front zero xs ys zs h = refl
take_front (suc n) [] ys zs h = absurd (omega arith)
take_front (suc n) (x ∷ xs) ys zs h = ap (λ t. x ∷ t) (take_front n xs ys zs (omega arith))

om_deinterleave_digits-stray :
    (stray stray2 chars : List ℕ) (check_value : ℕ)
    → length chars ≤ 14
    → om_deinterleave_digits stray chars check_value
      ≡ om_deinterleave_digits stray2 chars check_value
unfolding om_deinterleave_digits
om_deinterleave_digits-stray stray stray2 chars check_value h =
    let n = length chars - 6 in
    let prng = check_compute_pseudorandom_bytes integrity_check_fixed_00_key (le32 check_value) 8 in
    ap (λ t. deinterleave_digits (take n chars) t ++ drop n chars)
      (take_front n prng stray stray2
        (omega (arith, length-pseudorandom_8 integrity_check_fixed_00_key (le32 check_value))))

om_parse_message-stray :
    (stray stray2 chars : List ℕ)
    → length chars ≤ 20
    → om_parse_message stray chars ≡ om_parse_message stray2 chars
unfolding om_parse_message
om_parse_message-stray stray stray2 chars h = elim (Bool-cases (ltb 14 (length chars))) [
  | inl e ↦
      long_rejected stray chars (ground (arith, e)) h
      ∙ sym (long_rejected stray2 chars (ground (arith, e)) h)
  | inr e ↦
      (let mac = record (digits_init chars (length chars)) { position = u16 (length chars - 6) } in
        let auth = (digits_try_pull_uint32 6 false mac).0 in
        rw (om_deinterleave_digits-stray stray stray2 chars auth (ground (arith, e))) refl)
]

module _ {F C : Type 0} (k : Controller F C) where
  -- Whatever bytes come in as an origin command, the answer and the state after it do not depend on
  -- what lies in memory behind the eight bytes of the check value, although deinterleaving reads
  -- there for commands of more than fourteen digits.
  pub handle_origin_command-stray :
      (is_ascii_bearer : Bool) (stray stray2 command_data : List ℕ) (s : OmState F C)
      → handle_origin_command k is_ascii_bearer stray command_data s
        ≡ handle_origin_command k is_ascii_bearer stray2 command_data s
  unfolding handle_origin_command handle_ascii_origin_command
  handle_origin_command-stray false stray stray2 command_data s = refl
  handle_origin_command-stray true stray stray2 command_data s =
      elim (Bool-cases (ltb 20 (length command_data))) [
        | inl e ↦ rw e refl
        | inr e ↦ rw (om_parse_message-stray stray stray2 command_data (ground (arith, e))) refl
      ]
