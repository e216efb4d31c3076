-- ===== src/Keycode/Pro/Growth.antt =====
-- Changes of a device that forget no received message ID.
use nexus_embedded.Base.{
  ℕ, ◌+◌, ◌<◌, ◌≡◌, refl, arith, Bool, true, ◌||◌, bit_and, bit_or, u8, ◌*◌, ◌^◌, if-cases,
  all_below, all_below_sound, ltb,
}
use nexus_embedded.Nv.{Nvm}
use nexus_embedded.Nv.Laws.{IsReliable}
use nexus_embedded.Keycode.State.{Config, Product, Device, Event, emit}
use nexus_embedded.Keycode.Pro.Qc.{
  get_long_qc_code_count, get_short_qc_code_count, increment_long_qc_test_message_count,
  increment_short_qc_test_message_count, store_qc,
}
use nexus_embedded.Keycode.Pro.Qc.Counts.{with_qc-IsStored, long_byte_lt, short_byte_lt}
use nexus_embedded.Keycode.MessageIds.{reset_custom_flag, custom_flag_restricted, update_nv_blocks}
use nexus_embedded.Keycode.MessageIds.Codec.{IsStored}
use nexus_embedded.Keycode.MessageIds.Memory.{IsDevice, IsSound, update_nv_blocks-IsDevice}
use nexus_embedded.Keycode.MessageIds.Window.{used}
use nexus_embedded.Keycode.MessageIds.Receive.{IsMarked}

module _ {F : Type 0} (nv : Nvm F) where
  -- `d'` is a proper device that knows of every ID that `d` knows of.
  pub record IsGrown (d d' : Device F) : Type 0 where
    pub device : IsDevice nv d'
    pub keeps : (j : ℕ) → used d.stored j ≡ true → used d'.stored j ≡ true

  pub IsGrown-refl : (d : Device F) → IsDevice nv d → IsGrown d d
  IsGrown-refl d v = record { device = v; keeps = λ j u. u }

  pub IsGrown-trans : (d d1 d2 : Device F) → IsGrown d d1 → IsGrown d1 d2 → IsGrown d d2
  IsGrown-trans d d1 d2 a b = record { device = b.device; keeps = λ j u. b.keeps j (a.keeps j u) }

  pub emit-IsDevice : (e : Event) (d : Device F) → IsDevice nv d → IsDevice nv (emit e d)
  emit-IsDevice e d v = record {
    valid = v.valid;
    synced = v.synced;
    intact = v.intact;
    restart = v.restart;
  }

  pub emit-IsGrown : (e : Event) (d d' : Device F) → IsGrown d d' → IsGrown d (emit e d')
  emit-IsGrown e d d' g = record { device = emit-IsDevice e d' g.device; keeps = g.keeps }

  pub IsMarked-IsGrown : (now : ℕ → Bool) (d d' : Device F) → IsMarked nv now d d' → IsGrown d d'
  IsMarked-IsGrown now d d' m = record {
    device = m.device;
    keeps = λ j u. ground (arith, m.marks j, u);
  }

mask_table : all_below 256 (λ x. ltb (bit_and x 254) 256) ≡ true
unfolding all_below
mask_table = refl

module _ {F : Type 0} (p : Product F) (r : IsReliable p.nv) where
  -- The stored data change in what is no flag and no `Pd`, and are written out.
  same_ids-IsGrown :
      (d d1 : Device F)
      → IsStored d1.stored
      → d1.stored.received_flags ≡ d.stored.received_flags
      → d1.stored.pd_index ≡ d.stored.pd_index
      → IsSound p.nv d1.flash
      → IsGrown p.nv d (update_nv_blocks p d1)
  same_ids-IsGrown d d1 v f e i = record {
    device = update_nv_blocks-IsDevice p d1 r v i;
    keeps = λ j u. unfold update_nv_blocks in (rw (f, e) u);
  }

  pub reset_custom_flag-IsGrown :
      (d : Device F)
      → IsDevice p.nv d
      → IsGrown p.nv d (reset_custom_flag p custom_flag_restricted d)
  unfolding reset_custom_flag
  reset_custom_flag-IsGrown d v =
      let byte : bit_and d.stored.custom_flags 254 < 256 =
        ground
          (arith, all_below_sound 256 _ d.stored.custom_flags mask_table v.valid.custom_byte) in
      let d1 : Device F = record d {
        stored = record d.stored { custom_flags = bit_and d.stored.custom_flags 254 };
      } in
      let w : IsStored d1.stored = record {
        five = v.valid.five;
        are_bytes = v.valid.are_bytes;
        pd_low = v.valid.pd_low;
        pd_high = v.valid.pd_high;
        qc_byte = v.valid.qc_byte;
        custom_byte = byte;
        pad_byte = v.valid.pad_byte;
      } in
      emit-IsGrown p.nv _ d (update_nv_blocks p d1) (same_ids-IsGrown d d1 w refl refl v.intact)

module _ {F : Type 0} (c : Config) (p : Product F) (r : IsReliable p.nv) (d : Device F)
    (v : IsDevice p.nv d) where
  stored_qc-IsGrown : (n : ℕ) → n < 256 → IsGrown p.nv d (update_nv_blocks p (store_qc n d))
  stored_qc-IsGrown n h =
      same_ids-IsGrown p r d (store_qc n d) (with_qc-IsStored d.stored n v.valid h) refl refl
        v.intact

  abbrev GrownFrom : Device F → Type 0
  GrownFrom d' = IsGrown p.nv d d'

  pub increment_long-IsGrown : IsGrown p.nv d (increment_long_qc_test_message_count c p d)
  unfolding increment_long_qc_test_message_count
  increment_long-IsGrown =
      let new_count = u8 (get_long_qc_code_count d.stored + 1) in
      if-cases GrownFrom (ltb 15 new_count || ltb c.factory_qc_long_lifetime_max new_count) _ _
        (λ _. IsGrown-refl p.nv d v)
        (λ e.
          stored_qc-IsGrown
            (bit_or (bit_and d.stored.qc_test_codes_received 0x0F) (u8 (new_count * 2 ^ 4)))
            (long_byte_lt d.stored.qc_test_codes_received new_count v.valid.qc_byte
              (ground (arith, e))))

  pub increment_short-IsGrown : IsGrown p.nv d (increment_short_qc_test_message_count c p d)
  unfolding increment_short_qc_test_message_count
  increment_short-IsGrown =
      let new_count = u8 (get_short_qc_code_count d.stored + 1) in
      if-cases GrownFrom (ltb 15 new_count || ltb c.factory_qc_short_lifetime_max new_count) _ _
        (λ _. IsGrown-refl p.nv d v)
        (λ e. stored_qc-IsGrown (bit_or (bit_and d.stored.qc_test_codes_received 0xF0) new_count) (
          short_byte_lt d.stored.qc_test_codes_received new_count v.valid.qc_byte
            (ground (arith, e))))

-- A later state of a device: any number of steps.
pub data Later {F : Type 0} (Step : Device F → Device F → Type 0) (d : Device F)
    : Device F → Type 0 where
  here : Later Step d d
  next : {d1 d2 : Device F} → Later Step d d1 → Step d1 d2 → Later Step d d2

-- If no step forgets an ID, no history does.
pub Later-IsGrown :
    {F : Type 0} {nv : Nvm F} {Step : Device F → Device F → Type 0}
    → ((d1 d2 : Device F) → IsDevice nv d1 → Step d1 d2 → IsGrown nv d1 d2)
    → {d d' : Device F} → IsDevice nv d
    → Later Step d d'
    → IsGrown nv d d'
Later-IsGrown {nv} step {d} v here = IsGrown-refl nv d v
Later-IsGrown {nv} step {d} v (next {d1} {d2} l s) =
    let g = Later-IsGrown step v l in IsGrown-trans nv d d1 d2 g (step d1 d2 g.device s)
