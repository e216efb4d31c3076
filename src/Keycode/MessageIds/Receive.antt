-- ===== src/Keycode/MessageIds/Receive.antt =====
-- Marking message IDs as received: `set_full_message_id_flag` and `mask_below_message_id` against
-- the set of used IDs.
use nexus_embedded.Base.{
  ℕ, ◌+◌, ◌-◌, ◌≤◌, ◌<◌, ◌≡◌, refl, ◌∙◌, Bool, ◌&&◌, ◌||◌, List, arith, ltb, leb, ◌==◌,
}
use nexus_embedded.Nv.{Nvm}
use nexus_embedded.Nv.Laws.{IsReliable}
use nexus_embedded.Util.Bitset.{bitset_init, bitset_add, bitset_contains}
use nexus_embedded.Util.Bitset.Laws.{contains-add, contains-count}
use nexus_embedded.Keycode.State.{Product, Stored, Device}
use nexus_embedded.Keycode.MessageIds.{
  received_ids, store_flags, update_nv_blocks, add_all_from, get_full_message_id_flag,
}
use nexus_embedded.Keycode.MessageIds.Memory.{IsDevice, load_stored_eq, update_nv_blocks-IsDevice}
use nexus_embedded.Keycode.MessageIds.Window.{
  used, IsFlags, IsFlags-IsBitset, add-IsFlags, message_id_flag_eq, contains-add_all_from,
  add_all_from-IsFlags,
}
use nexus_embedded.Keycode.MessageIds.Shift.{IsShifted, stored-IsFlags, with_flags-IsStored}

-- The IDs of the window whose flag index satisfies a test.
abbrev pub at_index : ℕ → (ℕ → Bool) → ℕ → Bool
at_index pd new j = (leb j pd && leb pd (j + 23)) && new (j + 23 - pd)

-- More flags are more used IDs.
used_with_flags :
    (s : Stored) (flags : List ℕ) (new : ℕ → Bool)
    → ((k : ℕ)
        → k < 24
        → bitset_contains (bitset_init flags 3) k ≡ (new k || bitset_contains (received_ids s) k))
    → (j : ℕ)
    → used (record s { received_flags = flags }) j ≡ (at_index s.pd_index new j || used s j)
used_with_flags s flags new law j = ground (arith, law (j + 23 - s.pd_index))

contains-added :
    (flags : List ℕ) (m k : ℕ)
    → IsFlags flags
    → m < 24
    → k < 24
    → bitset_contains (bitset_init (bitset_add (bitset_init flags 3) m).bytes 3) k
      ≡ ((m == k) || bitset_contains (bitset_init flags 3) k)
contains-added flags m k f hm hk = same (
    contains-add (bitset_init flags 3) m k (IsFlags-IsBitset flags 3 f) (omega (arith, f.five))
      (omega arith))
  where
    same :
        bitset_contains (bitset_add (bitset_init flags 3) m) k
          ≡ ((m == k) || bitset_contains (bitset_init flags 3) k)
        → bitset_contains (bitset_init (bitset_add (bitset_init flags 3) m).bytes 3) k
          ≡ ((m == k) || bitset_contains (bitset_init flags 3) k)
    same e = unfold bitset_add in e

contains-added_all :
    (flags : List ℕ) (m k : ℕ)
    → IsFlags flags
    → m < 24
    → k < 24
    → bitset_contains (bitset_init (add_all_from (m + 1) 0 (bitset_init flags 3)).bytes 3) k
      ≡ (leb k m || bitset_contains (bitset_init flags 3) k)
contains-added_all flags m k f hm hk =
    let all = add_all_from (m + 1) 0 (bitset_init flags 3) in
    contains-count all.bytes 3 all.bytes_count k
    ∙ contains-add_all_from (m + 1) 0 (bitset_init flags 3) k (IsFlags-IsBitset flags 3 f)
        (omega (arith, f.five)) (omega arith)
    ∙ ground arith

module _ {F : Type 0} (nv : Nvm F) where
  -- `d'` is `d` with exactly the IDs that satisfy `now` marked as used besides; nothing else that
  -- the product can see has changed, and the window has not moved down.
  pub record IsMarked (now : ℕ → Bool) (d d' : Device F) : Type 0 where
    pub device : IsDevice nv d'
    pub marks : (j : ℕ) → used d'.stored j ≡ (now j || used d.stored j)
    pub pd : d.stored.pd_index ≤ d'.stored.pd_index
    pub qc : d'.stored.qc_test_codes_received ≡ d.stored.qc_test_codes_received
    pub custom : d'.stored.custom_flags ≡ d.stored.custom_flags
    pub calls : d'.calls ≡ d.calls

module _ {F : Type 0} (p : Product F) where
  module _ (r : IsReliable p.nv) where
    -- Writing out flags that have new elements.
    more_flags-IsMarked :
        (d : Device F) (flags : List ℕ) (new : ℕ → Bool)
        → IsDevice p.nv d
        → IsFlags flags
        → ((k : ℕ)
            → k < 24
            → bitset_contains (bitset_init flags 3) k
              ≡ (new k || bitset_contains (received_ids d.stored) k))
        → IsMarked p.nv
            (at_index d.stored.pd_index new)
            d
            (update_nv_blocks p (store_flags flags d))
    unfolding update_nv_blocks
    more_flags-IsMarked d flags new v f law = record {
      device =
          update_nv_blocks-IsDevice p (store_flags flags d) r
            (with_flags-IsStored d.stored flags d.stored.pd_index v.valid f v.valid.pd_low
              v.valid.pd_high)
            v.intact;
      marks = used_with_flags d.stored flags new law;
      pd = omega arith;
      qc = refl;
      custom = refl;
      calls = refl;
    }

    abbrev pub add_flag : ℕ → Device F → Device F
    add_flag m d = update_nv_blocks p (store_flags (bitset_add (received_ids d.stored) m).bytes d)

    pub add_flag-IsMarked :
        (m : ℕ) (d : Device F)
        → IsDevice p.nv d
        → m < 24
        → IsMarked p.nv (at_index d.stored.pd_index (λ k. m == k)) d (add_flag m d)
    add_flag-IsMarked m d v h =
        let f = stored-IsFlags d.stored v.valid in
        more_flags-IsMarked d (bitset_add (received_ids d.stored) m).bytes (λ k. m == k) v
          (add-IsFlags d.stored.received_flags 3 m h f)
          (λ k hk. contains-added d.stored.received_flags m k f h hk)

    abbrev pub add_flags : ℕ → Device F → Device F
    add_flags m d =
        update_nv_blocks p (store_flags (add_all_from (m + 1) 0 (received_ids d.stored)).bytes d)

    pub add_flags-IsMarked :
        (m : ℕ) (d : Device F)
        → IsDevice p.nv d
        → m < 24
        → IsMarked p.nv (at_index d.stored.pd_index (λ k. leb k m)) d (add_flags m d)
    add_flags-IsMarked m d v h =
        let f = stored-IsFlags d.stored v.valid in
        more_flags-IsMarked d (add_all_from (m + 1) 0 (received_ids d.stored)).bytes (λ k. leb k m)
          v (add_all_from-IsFlags (m + 1) 0 d.stored.received_flags 3 f (omega arith))
          (λ k hk. contains-added_all d.stored.received_flags m k f h hk)

    -- For a proper device and a 16-bit ID, the flag that is read is false below the window and
    -- otherwise whether the ID is used, and the device stays as it is.
    pub get_full_message_id_flag_eq :
        (d : Device F) (id : ℕ)
        → IsDevice p.nv d
        → id ≤ 65535
        → get_full_message_id_flag p id d
          ≡ ((leb d.stored.pd_index (id + 23) && used d.stored id), d)
    unfolding get_full_message_id_flag
    get_full_message_id_flag_eq d id v h =
        rw (load_stored_eq p d v, message_id_flag_eq d.stored id v.valid h)

    -- The window is moved up to an ID above it; below that, nothing changes but what falls out.
    pub shifted_used :
        (inc : ℕ) (d d' : Device F) (j : ℕ)
        → IsShifted p r inc d d'
        → used d'.stored j ≡ (ltb (j + 23) (d.stored.pd_index + inc) || used d.stored j)
    shifted_used inc d d' j sh = ground (arith, sh.pd, sh.flags (j + 23 - d'.stored.pd_index))
