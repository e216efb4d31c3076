-- ===== src/Tests/Origin.antt =====
-- Origin commands to a new controller.
use nexus_embedded.Base.{
  ℕ, ◌+◌, ◌-◌, ◌≢◌, ◌≡◌, refl, arith, true, false, List, [], ◌∷◌, replicate, replicate-IsBytes,
}
use nexus_embedded.Base.Bits.{test_bit}
use nexus_embedded.Util.Bitset.{bitset_contains, bitset_add}
use nexus_embedded.Util.Check.{check_compute, check_value_as_uint64}
use nexus_embedded.Util.Window.{id_within_window, id_flag_already_set, set_id_flag}
use nexus_embedded.Nv.{nv_read, nv_block_valid, nv_update, new_block, nv_compute_crc}
use nexus_embedded.Channel.Om.{
  OmMessage, controller_action, Controller, OmState, OmStored, om_window, om_apply_message,
  om_apply_inferred, om_init, om_bytes, om_load, om_of_bytes, infer_fields_compute_auth,
  infer_fields_from, inner_auth, auth_arbitrary_bytes, apply_origin_command,
  apply_controller_action, om_record,
}
use nexus_embedded.Channel.Om.Memory.{IsOmStored, IsOmState, om_window-IsWindow}
use nexus_embedded.Channel.Om.Infer.{IsFirstCommand, infer_fields_compute_auth-IsFirst}
use nexus_embedded.Channel.Om.Apply.{OmOutcome, found_for, om_apply_message-OmOutcome}
use nexus_embedded.Channel.Om.Once.{
  same_state, one_more, om_power_cycled, command_id, commands_differ,
}
use nexus_embedded.Channel.Om.Parse.{handle_origin_command}
use nexus_embedded.Channel.Om.Rejects.{handle_origin_command-stray}
use nexus_embedded.Tests.Devices.{Flash, memory, memory_reliable, empty_flash, secret_key}

-- The channel counts how often all links were cleared.
abbrev controller : Controller Flash ℕ
controller = record {
  nv = memory;
  origin_key = secret_key;
  link_mode_3 = λ challenge links. (true, links + 1);
  clear_all_links = λ links. 0;
}

abbrev new_stored : OmStored
new_stored = record { command_index = 31; received_ids = replicate 4 0 }

abbrev new_controller : OmState Flash ℕ
new_controller = record { stored = new_stored; flash = empty_flash; channel = 7 }

new_stored-IsOmStored : IsOmStored new_stored
new_stored-IsOmStored = record {
  four = refl;
  are_bytes = replicate-IsBytes 4 0 (omega arith);
  low = omega arith;
  high = omega arith;
}

new_controller-IsOmState : IsOmState controller new_controller
new_controller-IsOmState = record {
  valid = new_stored-IsOmStored;
  synced = unfold nv_read nv_block_valid in refl;
  intact = λ e. absurd (no e);
  restart = unfold nv_read nv_block_valid in refl;
}
  where
    no : false ≡ true → ⊥
    no e = cc

-- Two commands to unlink all accessories, with the IDs 5 and 33.
abbrev unlink_all : (auth : ℕ) → OmMessage
unlink_all auth = record {
  command_type = 0;
  body = controller_action 0;
  auth = auth;
  computed_command_id = 0;
}

infer_fields_compute_auth-IsFirst_example :
    IsFirstCommand
      (om_window new_stored)
      secret_key
      (unlink_all 620586)
      ((om_window new_stored).center_index - (om_window new_stored).flags_below)
      ((om_window new_stored).center_index + (om_window new_stored).flags_above)
      (infer_fields_compute_auth (unlink_all 620586) (om_window new_stored) secret_key)
infer_fields_compute_auth-IsFirst_example =
    infer_fields_compute_auth-IsFirst (om_window new_stored) secret_key (unlink_all 620586)
      (om_window-IsWindow new_stored new_stored-IsOmStored) (unfold om_window in omega arith)

om_apply_message-OmOutcome_example :
    OmOutcome controller memory_reliable new_controller
      (found_for controller memory_reliable (unlink_all 620586) new_controller)
      (om_apply_message controller (unlink_all 620586) new_controller)
om_apply_message-OmOutcome_example =
    om_apply_message-OmOutcome controller memory_reliable (unlink_all 620586) new_controller
      new_controller-IsOmState (omega arith)

keys : List ℕ
keys = 52 ∷ 55 ∷ 54 ∷ 54 ∷ 50 ∷ 48 ∷ 53 ∷ 56 ∷ 54 ∷ []

handle_origin_command-stray_example :
    handle_origin_command controller true (1 ∷ []) keys new_controller
    ≡ handle_origin_command controller true [] keys new_controller
handle_origin_command-stray_example =
    handle_origin_command-stray controller true (1 ∷ []) [] keys new_controller

first_applied : (om_apply_message controller (unlink_all 620586) new_controller).0 ≡ true
unfolding om_apply_message om_apply_inferred infer_fields_compute_auth infer_fields_from inner_auth
    auth_arbitrary_bytes apply_origin_command apply_controller_action om_load check_compute
    check_value_as_uint64 om_window id_within_window om_of_bytes nv_read nv_block_valid om_bytes
    id_flag_already_set bitset_contains test_bit
first_applied = refl

abbrev after : OmState Flash ℕ
after = om_init controller (om_apply_message controller (unlink_all 620586) new_controller).1

index_after : after.stored.command_index ≡ 31
unfolding om_apply_message om_apply_inferred infer_fields_compute_auth infer_fields_from inner_auth
    auth_arbitrary_bytes apply_origin_command apply_controller_action om_load check_compute
    check_value_as_uint64 om_window id_within_window om_of_bytes nv_read nv_block_valid om_bytes
    id_flag_already_set bitset_contains test_bit om_init om_record nv_update new_block set_id_flag
    bitset_add nv_compute_crc
index_after = refl

second_applied : (om_apply_message controller (unlink_all 427528) after).0 ≡ true
unfolding om_apply_message om_apply_inferred infer_fields_compute_auth infer_fields_from inner_auth
    auth_arbitrary_bytes apply_origin_command apply_controller_action om_load check_compute
    check_value_as_uint64 om_window id_within_window om_of_bytes nv_read nv_block_valid om_bytes
    id_flag_already_set bitset_contains test_bit om_init om_record nv_update new_block set_id_flag
    bitset_add nv_compute_crc
second_applied = refl

commands_differ_example :
    command_id controller memory_reliable (unlink_all 620586) new_controller
    ≢ command_id controller memory_reliable (unlink_all 427528) after
commands_differ_example =
    commands_differ controller memory_reliable (unlink_all 620586) (unlink_all 427528)
      new_controller after new_controller-IsOmState (omega arith) first_applied
      (one_more same_state om_power_cycled) (rw index_after (omega arith)) second_applied
