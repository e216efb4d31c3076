-- ===== src/Tests/Assembly.antt =====
-- Message assembly with a handler that counts the frames it is given.
use nexus_embedded.Base.{
  ℕ, ◌+◌, ◌*◌, ◌≤◌, ◌<◌, ◌≡◌, refl, arith, true, false, List, [], ◌∷◌, ◌++◌, u32_max, ◌==◌,
}
use nexus_embedded.Keycode.Mas.{
  Env, Mas, refill, max_rate_limit_seconds, is_rate_limited, rate_limit_attempts_remaining,
  rate_limit_deduct_msg, handle_complete_keycode,
}
use nexus_embedded.Keycode.Mas.Rate.{
  Input, key_pressed, keycode_entered, time_passed, seconds_of, handle_all, IsCount,
  handle_all-spent, attempts_remaining-bounds,
}
use nexus_embedded.Keycode.Mas.Bounds.{IsBounded, handle_all-IsBounded}
use nexus_embedded.Keycode.Mas.Entry.{push_all, accepted_keys, are_plain, entered_alike}
use nexus_embedded.Keycode.State.{request_processing}
use nexus_embedded.Tests.Devices.{config}

abbrev counting : Env ℕ
counting = record {
  handler = λ f w. w + 1;
  call = λ e w. w;
  nv_update = λ b w. w;
  nv_read = λ b w. b;
}

counting-IsCount : IsCount config counting (λ w. w)
counting-IsCount = record { handled = λ f w. refl; called = λ e w. refl; stored = λ b w. refl }

-- Two keycodes fit into the bucket; the keys are those of the small protocol.
abbrev assembly : Mas ℕ
assembly = record {
  graceperiod_keycodes = 6;
  pad = 0 ∷ 0 ∷ 0 ∷ [];
  partial = [];
  max_length_exceeded = false;
  rl_bucket = 1500;
  start_key = 49;
  end_key = 63;
  stop_length = 3;
  start_seen = false;
  latest_uptime = u32_max;
  world = 0;
}

abbrev inputs : List Input
inputs =
    key_pressed 49
    ∷ key_pressed 50
    ∷ key_pressed 51
    ∷ key_pressed 52
    ∷ keycode_entered true (49 ∷ 50 ∷ 50 ∷ 50 ∷ []) 4
    ∷ keycode_entered true (49 ∷ 50 ∷ 50 ∷ 50 ∷ []) 4
    ∷ time_passed 100 100
    ∷ []

rate_limit_example :
    (handle_all config counting inputs assembly).world * refill config counting
    ≤ assembly.world * refill config counting + assembly.rl_bucket + seconds_of inputs
rate_limit_example =
    handle_all-spent config counting (λ w. w) counting-IsCount (omega arith) (omega arith) inputs
      assembly

assembly-IsBounded : IsBounded (max_rate_limit_seconds config counting) assembly
assembly-IsBounded = record { short = omega arith; bucket = omega arith }

bounds_example :
    IsBounded (max_rate_limit_seconds config counting) (handle_all config counting inputs assembly)
bounds_example = handle_all-IsBounded config counting inputs assembly assembly-IsBounded

attempts_example :
    (rate_limit_attempts_remaining config counting assembly * refill config counting
      ≤ assembly.rl_bucket)
    × (assembly.rl_bucket
        < rate_limit_attempts_remaining config counting assembly * refill config counting
          + refill config counting)
    × (is_rate_limited config counting assembly
        ≡ (rate_limit_attempts_remaining config counting assembly == 0))
attempts_example = attempts_remaining-bounds config counting assembly (omega arith) (omega arith)

-- Keys of the full protocol: `*`, digits, `#`.
abbrev keypad : Mas ℕ
keypad = record assembly { start_key = 42; end_key = 35; stop_length = 255 }

abbrev digits : List ℕ
digits = 49 ∷ 50 ∷ 51 ∷ []

keypad_open : is_rate_limited config counting keypad ≡ false
unfolding is_rate_limited
keypad_open = refl

plain_digits : are_plain config counting keypad keypad_open refl digits ≡ true
unfolding are_plain
plain_digits = refl

entered_alike_example :
    (push_all config counting (42 ∷ (digits ++ (35 ∷ []))) keypad
      ≡ record (rate_limit_deduct_msg config counting keypad) {
        partial = [];
        max_length_exceeded = false;
        start_seen = false;
        latest_uptime = u32_max;
        world =
            counting.handler digits
              (counting.call request_processing (accepted_keys config counting (42 ∷ digits) 0));
      })
    × (handle_complete_keycode config counting false (42 ∷ (digits ++ (35 ∷ []))) 5 keypad
        ≡ record (rate_limit_deduct_msg config counting keypad) {
          partial = [];
          max_length_exceeded = false;
          start_seen = false;
          latest_uptime = u32_max;
          world = counting.handler digits 0;
        })
entered_alike_example =
    entered_alike config counting keypad keypad_open refl digits plain_digits refl (omega arith)
      (omega arith)
