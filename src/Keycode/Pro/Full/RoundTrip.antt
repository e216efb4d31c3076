-- ===== src/Keycode/Pro/Full/RoundTrip.antt =====
-- An activation message written out as its origin does it, digits added and all, parses back.
use nexus_embedded.Base.{
  ℕ, zero, suc, ◌+◌, ◌/◌, ◌%◌, ◌≤◌, ◌≡◌, refl, ap, ◌∙◌, some, List, [], ◌∷◌, ◌++◌, arith, le32,
  IsBytes, ltb, ◌==◌, ◌||◌, Bool-cases, inl, inr, true, false, length, drop, if◌then◌else◌,
  take-IsBytes,
}
use nexus_embedded.Util.Check.{
  check_compute, check_compute_pseudorandom_bytes, integrity_check_fixed_00_key,
  check_compute-IsBytes, length-pseudorandom_8,
}
use nexus_embedded.Util.Digits.{Digits, digits_init, digits_pull_uint8}
use nexus_embedded.Util.Digits.Laws.{IsDigits, written, pull-written, pull_uint8-written}
use nexus_embedded.Keycode.State.{Stored}
use nexus_embedded.Keycode.MessageIds.{infer_full_message_id, window_before_pd, window_after_pd}
use nexus_embedded.Keycode.Pro.Full.Parse.{
  full_deinterleave, full_check_field_from_frame, full_parse_activation, skip_digits,
  pull_activation_body,
}
use nexus_embedded.Keycode.Pro.Full.Deinterleave.{interleave_digits, deinterleave-interleave}

-- The pseudorandom bytes of a check field.
abbrev prng : ℕ → List ℕ
prng check = check_compute_pseudorandom_bytes integrity_check_fixed_00_key (le32 check) 8

prng-IsBytes : (check : ℕ) → IsBytes (prng check)
unfolding check_compute_pseudorandom_bytes
prng-IsBytes check =
    take-IsBytes 8 (check_compute integrity_check_fixed_00_key (0 ∷ le32 check))
      (check_compute-IsBytes integrity_check_fixed_00_key (0 ∷ le32 check))

length-prng : (check : ℕ) → length (prng check) ≡ 8
length-prng check = length-pseudorandom_8 integrity_check_fixed_00_key (le32 check)

-- The digits of an activation message: type, compressed ID, five digits of body and the check.
abbrev pub activation_digits : (type_code id hours check : ℕ) → List ℕ
activation_digits type_code id hours check =
    written 1 type_code ++ (written 2 id ++ (written 5 hours ++ written 6 check))

abbrev pub activation_frame : (type_code id hours check : ℕ) → List ℕ
activation_frame type_code id hours check =
    interleave_digits (activation_digits type_code id hours check) (prng check)

length-interleave : (keys bytes : List ℕ) → length (interleave_digits keys bytes) ≡ length keys
length-interleave [] bytes = refl
length-interleave (key ∷ keys) [] = refl
length-interleave (key ∷ keys) (b ∷ bytes) = ap suc (length-interleave keys bytes)

drop-interleave :
    (n : ℕ) (keys bytes : List ℕ)
    → length bytes ≤ n
    → drop n (interleave_digits keys bytes) ≡ drop n keys
drop-interleave n [] bytes h = refl
drop-interleave n (key ∷ keys) [] h = refl
drop-interleave zero (key ∷ keys) (b ∷ bytes) h = absurd (omega arith)
drop-interleave (suc n) (key ∷ keys) (b ∷ bytes) h = drop-interleave n keys bytes (omega arith)

pulled_one :
    (d : Digits)
    → 1 + d.position ≤ d.length
    → d.length ≤ 65535
    → (digits_pull_uint8 1 d).1 ≡ record d { position = 1 + d.position }
unfolding digits_pull_uint8
pulled_one d h k = ground arith

-- Skipping digits moves the position on, one a round.
skip_digits_lem :
    (rounds : ℕ) (d : Digits)
    → rounds + d.position ≤ d.length
    → d.length ≤ 65535
    → skip_digits rounds d ≡ record d { position = rounds + d.position }
unfolding skip_digits
skip_digits_lem zero d h k = ground arith
skip_digits_lem (suc rounds) d h k =
    rw (pulled_one d (omega arith) k) (
      skip_digits_lem rounds (record d { position = 1 + d.position }) (omega arith) k
      ∙ ground arith)

module _ (type_code id hours check : ℕ) (t : type_code ≤ 3) (i : id ≤ 63) (h : hours ≤ 99999)
    (k : check ≤ 999999) where
  abbrev digits : List ℕ
  digits = activation_digits type_code id hours check

  abbrev frame : List ℕ
  frame = activation_frame type_code id hours check

  digits-IsDigits : IsDigits digits
  digits-IsDigits = omega arith

  length-frame : length frame ≡ 14
  length-frame = length-interleave digits (prng check)

  deinterleaved : full_deinterleave frame check ≡ digits
  unfolding full_deinterleave
  deinterleaved = deinterleave-interleave digits (prng check) digits-IsDigits (prng-IsBytes check)

  check_field : full_check_field_from_frame frame ≡ check
  unfolding full_check_field_from_frame
  check_field =
      let start = digits_init frame 14 in
      let skipped = skip_digits_lem 8 start (omega arith) (omega arith) in
      let pulled =
        pull-written 6 check [] (record start { position = 8 })
          (drop-interleave 8 digits (prng check) (omega (arith, length-prng check))) (omega arith)
          (omega arith) (omega arith) in
      rw length-frame (rw skipped (ap (λ x. x.0) pulled))

  -- What the five digits of the body stand for.
  abbrev body_value : ℕ
  body_value = if type_code == 2 then hours % 10 else hours

  stream : (position : ℕ) → Digits
  stream position = record { chars = digits; length = 14; position = position }

  pulled_body :
      pull_activation_body type_code (record { chars = digits; length = 14; position = 3 })
      ≡ some (body_value, record { chars = digits; length = 14; position = 8 })
  unfolding pull_activation_body
  pulled_body =
      let at3 : Digits = record { chars = digits; length = 14; position = 3 } in
      let at7 : Digits = record { chars = digits; length = 14; position = 7 } in
      let whole =
        pull-written 5 hours (written 6 check) at3 refl (omega arith) (omega arith) (omega arith) in
      let front =
        pull-written 4 (hours / 10) (written 1 hours ++ written 6 check) at3 refl (omega arith)
          (omega arith) (omega arith) in
      let last =
        pull_uint8-written 1 (hours % 10) (written 6 check) at7 (ground arith) (omega arith)
          (omega arith) (omega arith) (omega arith) in
      elim (Bool-cases (type_code == 2)) [
        | inl e ↦
            (let other : (((type_code == 0) || (type_code == 3)) || (type_code == 1)) ≡ false =
                ground (arith, e) in
              rw (other, e, front, last) refl)
        | inr e ↦
            (let credit : (((type_code == 0) || (type_code == 3)) || (type_code == 1)) ≡ true =
                ground (arith, e) in
              rw (credit, e, whole) refl)
      ]

  -- An activation message of one of the four activation types, with an ID of at most 63, a body of
  -- five digits and a check of six, that is written out in digits with the pseudorandom digits of
  -- its check added, parses back to its type, its body (the last digit of it for a wipe), its
  -- check, and its ID expanded in the window.
  pub full_parse_activation-frame :
      (stored : Stored)
      → full_parse_activation frame stored
        ≡ some (record {
          full_message_id =
              infer_full_message_id id stored.pd_index window_before_pd window_after_pd;
          type_code = type_code;
          body = body_value;
          check = check;
        })
  unfolding full_parse_activation
  full_parse_activation-frame stored =
      let at0 : Digits = record { chars = digits; length = 14; position = 0 } in
      let at1 : Digits = record { chars = digits; length = 14; position = 1 } in
      let at8 : Digits = record { chars = digits; length = 14; position = 8 } in
      let first =
        pull_uint8-written 1 type_code (written 2 id ++ (written 5 hours ++ written 6 check)) at0
          refl (omega arith) (omega arith) (omega arith) (omega arith) in
      let second =
        pull_uint8-written 2 id (written 5 hours ++ written 6 check) at1 refl (omega arith)
          (omega arith) (omega arith) (omega arith) in
      let last = pull-written 6 check [] at8 refl (omega arith) (omega arith) (omega arith) in
      let in_window : ltb 63 id ≡ false = ground arith in
      rw (check_field, deinterleaved) (rw first (rw (second, in_window, pulled_body, last) refl))
