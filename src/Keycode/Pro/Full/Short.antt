-- ===== src/Keycode/Pro/Full/Short.antt =====
-- Frames of the full protocol that are shorter than fourteen digits: what they read, and that the
-- activation types among them are not told apart.
use nexus_embedded.Base.{
  ℕ, ◌+◌, ◌≤◌, ◌≡◌, refl, arith, true, false, ◌&&◌, some, List, ◌++◌, leb, ltb, ◌==◌, sub32, u8,
}
use nexus_embedded.Nv.Laws.{IsReliable}
use nexus_embedded.Util.Digits.{Digits}
use nexus_embedded.Util.Digits.Laws.{written, try_pull-written}
use nexus_embedded.Keycode.State.{Config, Product, Device, emit, payg_credit_set, valid_applied}
use nexus_embedded.Keycode.MessageIds.{mask_below_message_id}
use nexus_embedded.Keycode.MessageIds.Memory.{IsDevice}
use nexus_embedded.Keycode.MessageIds.Window.{used}
use nexus_embedded.Keycode.MessageIds.Receive.{get_full_message_id_flag_eq}
use nexus_embedded.Keycode.Pro.Full.{
  FullMessage, full_compute_check, full_apply, full_apply_activation, full_apply_wipe,
}
use nexus_embedded.Keycode.Pro.Full.Parse.{
  full_parse, full_parse_factory_and_passthrough, full_parse_and_apply, full_apply_parsed,
  pull_factory_body,
}

-- A message of a type, with the ID 0 and the body 0.
abbrev pub bare : (type_code check : ℕ) → FullMessage
bare type_code check = record {
  full_message_id = 0;
  type_code = type_code;
  body = 0;
  check = check;
}

abbrev pub short_frame : (type_code check : ℕ) → List ℕ
short_frame type_code check = written 1 type_code ++ written 6 check

module _ {F : Type 0} (p : Product F) (stray : List ℕ) (d : Device F) (type_code check : ℕ)
    (t : type_code ≤ 3) (k : check ≤ 999999) where
  short_frame_parses :
      full_parse p stray (short_frame type_code check) d ≡ (some (bare type_code check), d)
  unfolding full_parse full_parse_factory_and_passthrough pull_factory_body
  short_frame_parses =
      let chars = short_frame type_code check ++ stray in
      let at0 : Digits = record { chars = chars; length = 7; position = 0 } in
      let at1 : Digits = record { chars = chars; length = 7; position = 1 } in
      let first =
        try_pull-written 1 type_code (written 6 check ++ stray) at0 refl (omega arith) (omega arith)
          (omega arith) (omega arith) in
      let last =
        try_pull-written 6 check stray at1 refl (omega arith) (omega arith) (omega arith)
          (omega arith) in
      let small : ltb type_code 7 ≡ true = ground arith in
      let qc : (type_code == 5) ≡ false = ground arith in
      let byte : u8 type_code ≡ type_code = omega arith in
      rw (first, byte) (rw (small, qc) (rw last refl))

module _ {F : Type 0} (c : Config) (p : Product F) (r : IsReliable p.nv) where
  -- On a proper device with Pd at least 25, a seven-digit frame of type WIPE_STATE whose six check
  -- digits are the check of that message with ID 0 and target 0 is applied, sets the credit to
  -- zero, and changes nothing else on the device, so that it is applied again as often as it is
  -- entered.
  pub short_wipe_repeats :
      (stray : List ℕ) (d : Device F)
      → IsDevice p.nv d
      → 25 ≤ d.stored.pd_index
      → (check : ℕ) → check ≡ full_compute_check (bare 2 check) p.secret_key
      → check ≤ 999999
      → full_parse_and_apply c p stray (short_frame 2 check) d
        ≡ (valid_applied, emit (payg_credit_set 0) d)
  unfolding full_parse_and_apply full_apply_parsed full_apply full_apply_activation full_apply_wipe
      mask_below_message_id
  short_wipe_repeats stray d v pd check e k =
      let below : (leb d.stored.pd_index (0 + 23) && used d.stored 0) ≡ false =
        ground (arith, pd) in
      let same : (check == full_compute_check (bare 2 check) p.secret_key) ≡ true =
        ground (arith, e) in
      let out : ltb 1 (sub32 d.stored.pd_index 23) ≡ true = ground (arith, v.valid.pd_high) in
      rw (short_frame_parses p stray d 2 check (omega arith) k)
        (rw (same, get_full_message_id_flag_eq p r d 0 v (omega arith)) (rw (below, out) refl))
