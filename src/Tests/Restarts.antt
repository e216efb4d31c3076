-- ===== src/Tests/Restarts.antt =====
-- Power cycles of a new unit that has received a frame, and of a unit with a damaged block.
use nexus_embedded.Base.{ℕ, ◌≡◌, refl, arith, true, false, [], ◌∷◌}
use nexus_embedded.Nv.{nv_read, nv_block_valid, nv_compute_crc}
use nexus_embedded.Keycode.State.{Device, disabled, stored_bytes, stored_of_bytes}
use nexus_embedded.Keycode.MessageIds.{
  update_nv_blocks, get_full_message_id_flag, reset_pd_index, load_stored,
}
use nexus_embedded.Keycode.MessageIds.Memory.{factory_stored}
use nexus_embedded.Keycode.MessageIds.Window.{used}
use nexus_embedded.Keycode.Pro.Growth.{here, next}
use nexus_embedded.Keycode.Pro.Process.{init_device}
use nexus_embedded.Keycode.Pro.Restart.{IsBlank, IsDamaged, damaged-forgets}
use nexus_embedded.Keycode.Pro.Small.Replay.{in_state}
use nexus_embedded.Keycode.Pro.Small.Frames.{apply_frame}
use nexus_embedded.Keycode.Pro.Small.Persist.{any_frame, any_power_cycle, nothing_is_lost}
use nexus_embedded.Tests.Devices.{
  Flash, memory, memory_reliable, empty_flash, product, config, new_device, used_stored-IsStored,
  used_stored,
}
use nexus_embedded.Tests.Frames.{alphabet, scratch, ten_days_frame}

empty_IsBlank : IsBlank memory empty_flash
unfolding nv_block_valid
empty_IsBlank = record { not_found = refl; not_valid = refl }

first_pd : (init_device product new_device).stored.pd_index ≡ 23
unfolding init_device get_full_message_id_flag reset_pd_index load_stored nv_read nv_block_valid
    stored_bytes stored_of_bytes
first_pd = refl

abbrev received : Device Flash
received =
    (apply_frame alphabet scratch 0 config (in_state product disabled) ten_days_frame
      (init_device product new_device)).1

nothing_is_lost_example :
    init_device product (init_device product received) ≡ init_device product received
nothing_is_lost_example =
    nothing_is_lost config product memory_reliable alphabet scratch 0 new_device
      (init_device product received) empty_IsBlank
      (next (next here (any_frame ten_days_frame disabled (rw first_pd (omega arith))))
        any_power_cycle)

-- The block of a used device, with a CRC of 1, 2.
abbrev damaged_flash : Flash
damaged_flash i = (true, 1 ∷ 0 ∷ 7 ∷ 0 ∷ 128 ∷ 0 ∷ 0 ∷ 33 ∷ 60 ∷ 0 ∷ 0 ∷ 0 ∷ 1 ∷ 0 ∷ 1 ∷ 2 ∷ [])

abbrev damaged_device : Device Flash
damaged_device = record { stored = used_stored; flash = damaged_flash; calls = [] }

damaged_flash-IsDamaged : IsDamaged memory used_stored damaged_flash
unfolding nv_block_valid nv_compute_crc stored_bytes
damaged_flash-IsDamaged = record { found = refl; not_valid = refl; same_data = refl }

damaged-forgets_example :
    ((init_device product (update_nv_blocks product damaged_device)).stored ≡ factory_stored)
    × ((j : ℕ)
        → used (init_device product (update_nv_blocks product damaged_device)).stored j ≡ false)
damaged-forgets_example =
    damaged-forgets product damaged_device used_stored-IsStored damaged_flash-IsDamaged
