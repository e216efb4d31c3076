-- ===== src/Keycode/Pro/Process.antt =====
-- Initialisation, the pending frame and the feedback of nexus/src/nexus_keycode_pro.c.
use nexus_embedded.Base.{
  ℕ, ◌/◌, ◌^◌, ◌≡◌, ap, ◌∙◌, Bool, true, false, not, List, [], ◌∷◌, if◌then◌else◌,
}
use nexus_embedded.Keycode.State.{
  Config, Product, Stored, stored_of_bytes, Device, emit, feedback_start, request_processing,
  Feedback, no_feedback, message_invalid, message_valid, message_applied, display_serial_id,
  Response, invalid, valid_duplicate, valid_applied, display_device_id, no_response, Applied,
}
use nexus_embedded.Keycode.MessageIds.{reset_pd_index, get_full_message_id_flag, load_stored}
use nexus_embedded.Keycode.MessageIds.Memory.{IsDevice}
use nexus_embedded.Keycode.MessageIds.Codec.{stored_of_bytes-stored_bytes}

-- `_this_core`: the frame that waits, if `pending`; and the device.
pub record Pro (F : Type 0) : Type 0 where
  pub pending : Bool
  pub frame : List ℕ
  pub device : Device F

abbrev zeroed : Stored
zeroed = record {
  received_flags = 0 ∷ 0 ∷ 0 ∷ 0 ∷ 0 ∷ [];
  qc_test_codes_received = 0;
  pd_index = 0;
  custom_flags = 0;
  pad = 0;
}

-- What `nexus_keycode_pro_init` does to the stored data: zeros, the default `Pd`, then a read of
-- memory by way of the flag of message 0.
unfoldable pub init_device : {F : Type 0} → Product F → Device F → Device F
init_device p d = (get_full_message_id_flag p 0 (reset_pd_index (record d { stored = zeroed }))).1

-- `nexus_keycode_pro_init`.
unfoldable pub pro_init : {F : Type 0} → Product F → Pro F → Pro F
pro_init p s = record s { pending = false; device = init_device p s.device }

-- `nexus_keycode_pro_enqueue`.
unfoldable pub pro_enqueue : {F : Type 0} → List ℕ → Pro F → Pro F
pro_enqueue mas_message s =
    let s1 = (if not s.pending then record s { frame = mas_message; pending = true } else s) in
    record s1 { device = emit request_processing s1.device }

-- The `switch` of `nexus_keycode_pro_process`.
unfoldable pub feedback_of : Response → Feedback
feedback_of invalid = message_invalid
feedback_of valid_duplicate = message_valid
feedback_of valid_applied = message_applied
feedback_of display_device_id = display_serial_id
feedback_of no_response = no_feedback

abbrev start_feedback : {F : Type 0} → Feedback → Device F → Device F
start_feedback no_feedback d = d
start_feedback f d = emit (feedback_start f) d

-- `nexus_keycode_pro_process`: the seconds until the next call, and the state. `parse_and_apply` is
-- the function of the protocol in use.
unfoldable pub pro_process :
    {F : Type 0} → Config → (parse_and_apply : List ℕ → Device F → Applied F) → Pro F → ℕ × Pro F
pro_process c parse_and_apply s =
    let (response, d1) = parse_and_apply s.frame s.device in
    if not s.pending then (240, s) else (
      c.entry_timeout_seconds / 2 ^ 1,
      record s { pending = false; device = start_feedback (feedback_of response) d1 },
    )

-- Initialisation of the protocol module after a power cycle gives a proper device back exactly as
-- it was.
pub init_device_lem :
    {F : Type 0} (p : Product F) (d : Device F) → IsDevice p.nv d → init_device p d ≡ d
unfolding init_device get_full_message_id_flag reset_pd_index load_stored
init_device_lem p d v =
    ap (λ s. record d { stored = s })
      (ap stored_of_bytes v.restart ∙ stored_of_bytes-stored_bytes d.stored v.valid)
