-- ===== src/Keycode/Pro/Wipe.antt =====
-- The wipe of the received IDs that maintenance and wipe messages ask for.
use nexus_embedded.Base.{ℕ, ◌+◌, ◌-◌, ◌≡◌, refl, arith, false}
use nexus_embedded.Nv.Laws.{IsReliable}
use nexus_embedded.Util.Bitset.{bitset_clear}
use nexus_embedded.Keycode.State.{Product, Stored, Device}
use nexus_embedded.Keycode.MessageIds.{
  received_ids, reset_pd_index, reset_test_code_count, wipe_message_ids_in_window, update_nv_blocks,
}
use nexus_embedded.Keycode.MessageIds.Codec.{IsStored}
use nexus_embedded.Keycode.MessageIds.Memory.{IsDevice, update_nv_blocks-IsDevice}
use nexus_embedded.Keycode.MessageIds.Window.{used}
use nexus_embedded.Keycode.MessageIds.Shift.{stored-IsFlags, cleared-IsFlags, contains-cleared}
use nexus_embedded.Keycode.Pro.Small.{wipe_received}

-- The wipe of a proper device leaves a proper device on which no ID is used, with Pd at 23 and no
-- QC code counted, and keeps custom flags and calls.
pub wipe_received_lem :
    {F : Type 0} (p : Product F) (d : Device F)
    → IsReliable p.nv
    → IsDevice p.nv d
    → IsDevice p.nv (wipe_received p d)
      × ((j : ℕ) → used (wipe_received p d).stored j ≡ false)
      × ((wipe_received p d).stored.pd_index ≡ 23)
      × ((wipe_received p d).stored.qc_test_codes_received ≡ 0)
      × ((wipe_received p d).stored.custom_flags ≡ d.stored.custom_flags)
      × ((wipe_received p d).calls ≡ d.calls)
unfolding wipe_received wipe_message_ids_in_window reset_pd_index reset_test_code_count
wipe_received_lem p d r v =
    let flags = (bitset_clear (received_ids d.stored)).bytes in
    let f = cleared-IsFlags d.stored.received_flags (stored-IsFlags d.stored v.valid) in
    let s : Stored = record d.stored {
      received_flags = flags;
      qc_test_codes_received = 0;
      pd_index = 23;
    } in
    let w : IsStored s = record {
      five = f.five;
      are_bytes = f.are_bytes;
      pd_low = omega arith;
      pd_high = omega arith;
      qc_byte = omega arith;
      custom_byte = v.valid.custom_byte;
      pad_byte = v.valid.pad_byte;
    } in
    (
      update_nv_blocks-IsDevice p (record d { stored = s }) r w v.intact,
      λ j. unfold update_nv_blocks in none_used j,
      unfold update_nv_blocks in refl,
      unfold update_nv_blocks in refl,
      unfold update_nv_blocks in refl,
      unfold update_nv_blocks in refl,
    )
  where
    none_used :
        (j : ℕ)
        → used
            (record d.stored {
              received_flags = (bitset_clear (received_ids d.stored)).bytes;
              qc_test_codes_received = 0;
              pd_index = 23;
            })
            j
          ≡ false
    none_used j = ground (arith, contains-cleared d.stored.received_flags (j + 23 - 23))
