-- ===== src/Keycode/MessageIds/Corners.antt =====
-- Message IDs below the window, where the header of nexus_keycode_pro.c promises otherwise.
use nexus_embedded.Base.{
  ℕ, ◌+◌, ◌-◌, ◌≤◌, ◌<◌, ◌≡◌, refl, arith, u16, sub32, leb, ltb, ◌==◌, false, ◌&&◌,
}
use nexus_embedded.Nv.Laws.{IsReliable}
use nexus_embedded.Keycode.State.{Product, Device}
use nexus_embedded.Keycode.MessageIds.{
  get_full_message_id_flag, set_full_message_id_flag, mask_below_message_id,
  update_window_and_message_mask_id,
}
use nexus_embedded.Keycode.MessageIds.Memory.{IsDevice}
use nexus_embedded.Keycode.MessageIds.Window.{used}
use nexus_embedded.Keycode.MessageIds.Receive.{
  IsMarked, add_flag, add_flag-IsMarked, add_flags, add_flags-IsMarked, get_full_message_id_flag_eq,
}
use nexus_embedded.Keycode.MessageIds.Marking.{same_marks}

module _ {F : Type 0} (p : Product F) where
  update_below :
      (id : ℕ) (d : Device F)
      → IsDevice p.nv d
      → id + 23 < d.stored.pd_index
      → update_window_and_message_mask_id p id d ≡ (23, false, d)
  unfolding update_window_and_message_mask_id
  update_below id d v h =
      let b : leb (sub32 d.stored.pd_index 23) id ≡ false =
        ground (arith, v.valid.pd_low, v.valid.pd_high) in
      rw b (ground arith)

  module _ (r : IsReliable p.nv) where
    -- On a proper device, an ID below the window reads as not received, and setting its flag makes
    -- the ID at Pd used and no other.
    pub below-set_full_message_id_flag :
        (id : ℕ) (d : Device F)
        → IsDevice p.nv d
        → id + 23 < d.stored.pd_index
        → ((get_full_message_id_flag p id d).0 ≡ false)
          × IsMarked p.nv (λ j. d.stored.pd_index == j) d (set_full_message_id_flag p id d)
    unfolding set_full_message_id_flag
    below-set_full_message_id_flag id d v h =
        let small : id ≤ 65535 = omega (arith, v.valid.pd_high) in
        let b : (leb d.stored.pd_index (id + 23) && used d.stored id) ≡ false = ground arith in
        rw (get_full_message_id_flag_eq p r d id v small, b)
          (
            refl,
            rw (update_below id d v h) (
                same_marks p r _ (λ j. d.stored.pd_index == j) d (add_flag p r 23 d)
                  (λ j. ground arith) (add_flag-IsMarked p r 23 d v (omega arith))),
          )

    -- On a proper device, masking below the lowest ID of the window, if that is not 0, makes every
    -- ID up to Pd used.
    pub bottom-mask_below_message_id :
        (id : ℕ) (d : Device F)
        → IsDevice p.nv d
        → 1 ≤ id
        → id + 23 ≡ d.stored.pd_index
        → IsMarked p.nv (λ j. leb j d.stored.pd_index) d (mask_below_message_id p id d)
    unfolding mask_below_message_id
    bottom-mask_below_message_id id d v o e =
        let w : u16 (id - 1) ≡ id - 1 = omega (arith, v.valid.pd_high) in
        let z : (id == 0) ≡ false = ground arith in
        let b : ltb id (sub32 d.stored.pd_index 23) ≡ false =
          ground (arith, v.valid.pd_low, v.valid.pd_high) in
        rw (w, z, b, update_below (id - 1) d v (omega arith))
          (same_marks p r _ (λ j. leb j d.stored.pd_index) d (add_flags p r 23 d)
            (λ j. ground arith) (add_flags-IsMarked p r 23 d v (omega arith)))
