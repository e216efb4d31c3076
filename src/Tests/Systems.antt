-- ===== src/Tests/Systems.antt =====
-- The whole system on a used device, with the keys of the full protocol.
use nexus_embedded.Base.{◌≤◌, ◌≡◌, refl, arith, true, false, [], ◌∷◌, ◌++◌, u32_max}
use nexus_embedded.Keycode.State.{emit, request_processing, no_response}
use nexus_embedded.Keycode.Mas.{is_rate_limited}
use nexus_embedded.Keycode.Core.{
  HandlingConfig, System, mas_env, common_init, common_process, handle_keycode,
}
use nexus_embedded.Keycode.Core.Wiring.{
  common_init-device, common_process-idle, handle_keycode-pending,
}
use nexus_embedded.Tests.Devices.{Flash, product, config, used_device, used_device-IsDevice}

-- A handling configuration whose applier takes no keycode.
abbrev full_keys : HandlingConfig Flash
full_keys = record {
  parse_and_apply = λ keys d. (no_response, d);
  stop_length = 255;
  start_char = 42;
  end_char = 35;
  is_small = false;
}

abbrev system : System Flash
system = record {
  uptime_s = 100;
  common_init_completed = false;
  pending_init = true;
  core_init_completed = true;
  mas = record {
    graceperiod_keycodes = 6;
    pad = 0 ∷ 0 ∷ 0 ∷ [];
    partial = [];
    max_length_exceeded = false;
    rl_bucket = 4320;
    start_key = 42;
    end_key = 35;
    stop_length = 255;
    start_seen = false;
    latest_uptime = u32_max;
    world = record { pending = false; frame = []; device = used_device };
  };
}

gate_open : is_rate_limited config (mas_env config product full_keys) system.mas ≡ false
unfolding is_rate_limited
gate_open = refl

common_init_example :
    ((common_init config product full_keys 5 system).mas.world ≡ record system.mas.world {
      pending = false;
      device = emit request_processing system.mas.world.device;
    })
    × ((common_init config product full_keys 5 system).mas.partial ≡ [])
    × ((common_init config product full_keys 5 system).mas.start_seen ≡ false)
    × ((common_init config product full_keys 5 system).core_init_completed ≡ true)
    × ((common_init config product full_keys 5 system).common_init_completed ≡ false)
common_init_example = common_init-device config product full_keys 5 system used_device-IsDevice

common_process_example :
    ((common_process config product full_keys 160 system).1.mas.world.pending ≡ false)
    × ((common_process config product full_keys 160 system).1.uptime_s ≡ 160)
    × ((common_process config product full_keys 160 system).0 ≤ 240)
    × (system.pending_init ≡ true
        → (common_process config product full_keys 160 system).1.common_init_completed ≡ true)
common_process_example = common_process-idle config product full_keys 160 system (omega arith)

handle_keycode_example :
    (handle_keycode config product full_keys
      (42 ∷ ((49 ∷ 50 ∷ []) ++ (35 ∷ [])))
      4
      system).1.mas.world
    ≡ record system.mas.world {
      frame = 49 ∷ 50 ∷ [];
      pending = true;
      device = emit request_processing system.mas.world.device;
    }
handle_keycode_example =
    handle_keycode-pending config product full_keys system (49 ∷ 50 ∷ []) refl refl refl gate_open
      refl (omega arith) (omega arith)
