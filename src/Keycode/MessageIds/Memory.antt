-- ===== src/Keycode/MessageIds/Memory.antt =====
-- RAM and nonvolatile memory agree on the stored data.
use nexus_embedded.Base.{◌≡◌, refl, replicate-IsBytes, [], ◌∷◌, ap, ◌∙◌, arith}
use nexus_embedded.Nv.{Nvm, block_keycode_pro, nv_read}
use nexus_embedded.Nv.Laws.{IsReliable, Holds}
use nexus_embedded.Nv.RoundTrip.{IsIntact, read-update, read-update_restart, update-IsIntact}
use nexus_embedded.Keycode.State.{Product, Stored, Device, stored_bytes, stored_of_bytes}
use nexus_embedded.Keycode.MessageIds.{update_nv_blocks, load_stored}
use nexus_embedded.Keycode.MessageIds.Codec.{
  IsStored, length-stored_bytes, stored_of_bytes-stored_bytes,
}

-- The stored data of a unit whose memory is empty, as `nexus_keycode_pro_init` sets them.
abbrev pub factory_stored : Stored
factory_stored = record {
  received_flags = 0 ∷ 0 ∷ 0 ∷ 0 ∷ 0 ∷ [];
  qc_test_codes_received = 0;
  pd_index = 23;
  custom_flags = 0;
  pad = 0;
}

pub factory_stored-IsStored : IsStored factory_stored
factory_stored-IsStored = record {
  five = refl;
  are_bytes = replicate-IsBytes 5 0 (omega arith);
  pd_low = omega arith;
  pd_high = omega arith;
  qc_byte = omega arith;
  custom_byte = omega arith;
  pad_byte = omega arith;
}

module _ {F : Type 0} (nv : Nvm F) where
  -- A read into the stored data gives them back: memory holds them, or no valid block.
  abbrev InMemory : Stored → F → Type 0
  InMemory s flash = (nv_read nv block_keycode_pro (stored_bytes s) flash).1 ≡ stored_bytes s

  -- The block of the stored data is intact, if there is one.
  abbrev pub IsSound : F → Type 0
  IsSound flash = IsIntact nv block_keycode_pro flash

  -- A device between two calls: its stored data are well formed and agree with memory.
  pub record IsDevice (d : Device F) : Type 0 where
    pub valid : IsStored d.stored
    pub synced : InMemory d.stored d.flash
    pub intact : IsSound d.flash
    pub restart :
        (nv_read nv block_keycode_pro (stored_bytes factory_stored) d.flash).1
        ≡ stored_bytes d.stored

module _ {F : Type 0} (p : Product F) where
  pub load_stored_eq : (d : Device F) → IsDevice p.nv d → load_stored p d ≡ d
  unfolding load_stored
  load_stored_eq d v =
      ap (λ s. record d { stored = s })
        (ap stored_of_bytes v.synced ∙ stored_of_bytes-stored_bytes d.stored v.valid)

  -- Writing well-formed stored data out brings memory up to date.
  pub update_nv_blocks-IsDevice :
      (d : Device F)
      → IsReliable p.nv
      → IsStored d.stored
      → IsSound p.nv d.flash
      → IsDevice p.nv (update_nv_blocks p d)
  unfolding update_nv_blocks
  update_nv_blocks-IsDevice d r v i =
      let holds : Holds block_keycode_pro (stored_bytes d.stored) = record {
        block = omega arith;
        size = length-stored_bytes d.stored v;
      } in
      record {
        valid = v;
        synced = read-update p.nv r block_keycode_pro (stored_bytes d.stored) holds d.flash;
        intact = update-IsIntact p.nv r block_keycode_pro (stored_bytes d.stored) holds d.flash i;
        restart =
            ap (λ a. a.1)
              (read-update_restart p.nv r block_keycode_pro (stored_bytes d.stored) holds d.flash
                (stored_bytes factory_stored) i).1;
      }

  pub update_nv_blocks-IsSound :
      (d : Device F)
      → IsReliable p.nv
      → IsStored d.stored
      → IsSound p.nv d.flash
      → IsSound p.nv (update_nv_blocks p d).flash
  update_nv_blocks-IsSound d r v i = (update_nv_blocks-IsDevice d r v i).intact
