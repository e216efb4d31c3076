-- ===== src/Keycode/Pro/Restart.antt =====
-- Power cycles at the edges: of a new unit, and of a unit whose block in memory is damaged.
use nexus_embedded.Base.{ℕ, ◌+◌, ◌-◌, ◌≡◌, refl, sym, ap, ◌∙◌, arith, true, false, take, drop, []}
use nexus_embedded.Nv.{Nvm, block_keycode_pro, nv_read, nv_block_valid}
use nexus_embedded.Nv.Laws.{Holds}
use nexus_embedded.Nv.RoundTrip.{damaged-update}
use nexus_embedded.Util.Bitset.Laws.{contains-zeros}
use nexus_embedded.Keycode.State.{Product, Stored, Device, stored_bytes}
use nexus_embedded.Keycode.MessageIds.{
  update_nv_blocks, get_full_message_id_flag, reset_pd_index, load_stored,
}
use nexus_embedded.Keycode.MessageIds.Codec.{
  IsStored, length-stored_bytes, stored_of_bytes-stored_bytes,
}
use nexus_embedded.Keycode.MessageIds.Memory.{IsDevice, factory_stored, factory_stored-IsStored}
use nexus_embedded.Keycode.MessageIds.Window.{used}
use nexus_embedded.Keycode.Pro.Process.{init_device}

-- The memory of a unit that has stored nothing: a read finds no block, and what it leaves in the
-- buffer is no valid one.
pub record IsBlank {F : Type 0} (nv : Nvm F) (flash : F) : Type 0 where
  pub not_found : (nv.read block_keycode_pro flash).0 ≡ false
  pub not_valid : nv_block_valid block_keycode_pro (nv.read block_keycode_pro flash).1 ≡ false

-- The block of the stored data is found in memory with the data `s`, but its identifier or its CRC
-- is wrong.
pub record IsDamaged {F : Type 0} (nv : Nvm F) (s : Stored) (flash : F) : Type 0 where
  pub found : (nv.read block_keycode_pro flash).0 ≡ true
  pub not_valid : nv_block_valid block_keycode_pro (nv.read block_keycode_pro flash).1 ≡ false
  pub same_data : take 12 (drop 2 (nv.read block_keycode_pro flash).1) ≡ stored_bytes s

module _ {F : Type 0} (p : Product F) where
  -- Initialisation over a block that is not valid gives the factory data.
  init_device-factory :
      (d : Device F)
      → nv_block_valid block_keycode_pro (p.nv.read block_keycode_pro d.flash).1 ≡ false
      → init_device p d ≡ record d { stored = factory_stored }
  unfolding init_device get_full_message_id_flag reset_pd_index load_stored nv_read
  init_device-factory d bad = rw bad (
      ap (λ s. record d { stored = s })
        (stored_of_bytes-stored_bytes factory_stored factory_stored-IsStored))

  -- A new unit is a proper device with the factory data once it is initialised.
  pub init_blank-IsDevice : (d : Device F) → IsBlank p.nv d.flash → IsDevice p.nv (init_device p d)
  unfolding nv_read
  init_blank-IsDevice d b = rw (init_device-factory d b.not_valid) (record {
    valid = factory_stored-IsStored;
    synced = rw b.not_valid refl;
    intact = λ e. absurd (clash (sym b.not_found ∙ e));
    restart = rw b.not_valid refl;
  })
    where
      clash : false ≡ true → ⊥
      clash e = cc

  -- No ID of the factory data is used.
  factory_unused : (j : ℕ) → used factory_stored j ≡ false
  factory_unused j = ground (arith, contains-zeros 5 3 (j + 23 - 23))

  -- If memory holds the well-formed stored data of a device in a block whose identifier or CRC is
  -- damaged, writing the stored data out does not repair it: after a power cycle the device has the
  -- factory data again, on which no message ID is used.
  pub damaged-forgets :
      (d : Device F)
      → IsStored d.stored
      → IsDamaged p.nv d.stored d.flash
      → ((init_device p (update_nv_blocks p d)).stored ≡ factory_stored)
        × ((j : ℕ) → used (init_device p (update_nv_blocks p d)).stored j ≡ false)
  unfolding update_nv_blocks
  damaged-forgets d v x =
      let holds : Holds block_keycode_pro (stored_bytes d.stored) = record {
        block = omega arith;
        size = length-stored_bytes d.stored v;
      } in
      let written =
        damaged-update p.nv block_keycode_pro (stored_bytes d.stored) holds d.flash [] x.found
          x.not_valid x.same_data in
      let back : init_device p (update_nv_blocks p d) ≡ record d { stored = factory_stored } =
        ap (λ a. init_device p (record d { flash = a.1 })) written.0
        ∙ init_device-factory d x.not_valid in
      (ap (λ e. e.stored) back, λ j. ap (λ e. used e.stored j) back ∙ factory_unused j)
