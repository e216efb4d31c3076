-- ===== src/Tests/Devices.antt =====
-- A product over a memory that keeps one block for each identifier, and a new device.
use nexus_embedded.Base.{ℕ, ◌≡◌, refl, arith, Bool, true, false, List, [], ◌∷◌, ◌==◌, if◌then◌else◌}
use nexus_embedded.Nv.{Nvm, nv_read, nv_block_valid}
use nexus_embedded.Nv.Laws.{IsReliable}
use nexus_embedded.Keycode.State.{Config, Product, enabled, Stored, Device}
use nexus_embedded.Keycode.MessageIds.{update_nv_blocks}
use nexus_embedded.Keycode.MessageIds.Codec.{IsStored}
use nexus_embedded.Keycode.MessageIds.Memory.{
  IsDevice, update_nv_blocks-IsDevice, factory_stored, factory_stored-IsStored,
}

-- Whether a block has been written, and its bytes.
abbrev pub Flash : Type 0
Flash = ℕ → Bool × List ℕ

abbrev pub memory : Nvm Flash
memory = record {
  read = λ meta f. f meta.block_id;
  write = λ meta b f. (true, λ i. if i == meta.block_id then (true, b) else f i);
}

same_block : (i : ℕ) → (i == i) ≡ true
same_block i = ground arith

pub memory_reliable : IsReliable memory
memory_reliable = record {
  succeeds = λ meta b f. refl;
  honest = record { read_back = λ meta b f e. rw (same_block meta.block_id) (refl, refl) };
}

abbrev pub empty_flash : Flash
empty_flash = λ i. (false, [])

abbrev pub secret_key : List ℕ
secret_key =
    0xde ∷ 0xad ∷ 0xbe ∷ 0xef ∷ 0x10 ∷ 0x20 ∷ 0x04 ∷ 0x04 ∷ 0xde ∷ 0xad ∷ 0xbe ∷ 0xef ∷ 0x10 ∷ 0x20
    ∷ 0x04 ∷ 0x04 ∷ []

abbrev pub product : Product Flash
product = record {
  nv = memory;
  secret_key = secret_key;
  user_facing_id = 12345678;
  payg_state = enabled;
  takes_passthrough = λ keys. false;
}

abbrev pub config : Config
config = record {
  rate_limit_bucket_max = 128;
  rate_limit_bucket_initial_count = 6;
  rate_limit_refill_seconds_per_attempt = 720;
  entry_timeout_seconds = 16;
  factory_qc_long_lifetime_max = 5;
  factory_qc_short_lifetime_max = 10;
}

abbrev pub new_device : Device Flash
new_device = record { stored = factory_stored; flash = empty_flash; calls = [] }

pub new_device-IsDevice : IsDevice memory new_device
new_device-IsDevice = record {
  valid = factory_stored-IsStored;
  synced = unfold nv_read nv_block_valid in refl;
  intact = λ e. absurd (no e);
  restart = unfold nv_read nv_block_valid in refl;
}
  where
    no : false ≡ true → ⊥
    no e = cc

-- A device that has received messages: `Pd` is 60, two long QC codes and one short one are counted,
-- and one custom flag is set.
abbrev pub used_stored : Stored
used_stored = record {
  received_flags = 7 ∷ 0 ∷ 128 ∷ 0 ∷ 0 ∷ [];
  qc_test_codes_received = 33;
  pd_index = 60;
  custom_flags = 1;
  pad = 0;
}

pub used_stored-IsStored : IsStored used_stored
used_stored-IsStored = record {
  five = refl;
  are_bytes = (omega arith, (omega arith, (omega arith, (omega arith, (omega arith, tt)))));
  pd_low = omega arith;
  pd_high = omega arith;
  qc_byte = omega arith;
  custom_byte = omega arith;
  pad_byte = omega arith;
}

abbrev pub used_device : Device Flash
used_device = update_nv_blocks product (record new_device { stored = used_stored })

pub used_device-IsDevice : IsDevice memory used_device
used_device-IsDevice =
    update_nv_blocks-IsDevice product (record new_device { stored = used_stored }) memory_reliable
      used_stored-IsStored new_device-IsDevice.intact
