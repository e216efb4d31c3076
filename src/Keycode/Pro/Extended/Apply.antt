-- ===== src/Keycode/Pro/Extended/Apply.antt =====
-- What an extended message does to a device, and that such messages take effect in order.
use nexus_embedded.Base.{
  ℕ, ◌+◌, ◌-◌, ◌≤◌, ◌≡◌, refl, ap, ◌∙◌, Bool, true, false, ◌||◌, [], ◌∷◌, ◌++◌, bit_and, u16, leb,
  arith,
}
use mathlib.Core.Path.{subst}
use nexus_embedded.Nv.Laws.{IsReliable}
use nexus_embedded.Keycode.State.{
  Product, Device, Event, emit, feedback_start, message_applied, message_invalid,
  notify_custom_flag_changed, valid_applied, invalid, Applied,
}
use nexus_embedded.Keycode.MessageIds.{
  mask_below_message_id, reset_custom_flag, custom_flag_restricted, update_nv_blocks,
}
use nexus_embedded.Keycode.MessageIds.Memory.{IsDevice}
use nexus_embedded.Keycode.MessageIds.Window.{used}
use nexus_embedded.Keycode.Pro.Growth.{IsGrown, emit-IsDevice, reset_custom_flag-IsGrown}
use nexus_embedded.Keycode.Pro.Small.Laws.{IsInReach, marked_below-IsMarked}
use nexus_embedded.Keycode.Pro.Extended.{
  ExtendedMessage, set_credit_and_wipe_flag, apply_inferred, apply_outcome, extended_small_apply,
  get_current_message_id_window, infer_windowed_message_id, credit_event,
}
use nexus_embedded.Keycode.Pro.Extended.Agree.{current, current-IsWindow, already_set-used}
use nexus_embedded.Keycode.Pro.Extended.Infer.{IsFirst, infer_windowed_message_id-IsFirst}

module _ {F : Type 0} (p : Product F) where
  -- What applying a message with the ID `id` makes of a device: exactly the IDs up to `id` are used
  -- besides, the restricted flag is cleared, and the product is told the credit, the flag and that
  -- the keycode was applied.
  pub record HasApplied (credit : Event) (id : ℕ) (d d' : Device F) : Type 0 where
    pub device : IsDevice p.nv d'
    pub marks : (j : ℕ) → used d'.stored j ≡ (leb j id || used d.stored j)
    pub qc : d'.stored.qc_test_codes_received ≡ d.stored.qc_test_codes_received
    pub custom : d'.stored.custom_flags ≡ bit_and d.stored.custom_flags 254
    pub calls : d'.calls ≡ (
        ((d.calls ++ (credit ∷ []))
          ++ (notify_custom_flag_changed custom_flag_restricted false ∷ []))
        ++ (feedback_start message_applied ∷ []))

  reset_fields :
      (d : Device F)
      → let d' = reset_custom_flag p custom_flag_restricted d in
        ((j : ℕ) → used d'.stored j ≡ used d.stored j)
        × (d'.stored.qc_test_codes_received ≡ d.stored.qc_test_codes_received)
        × (d'.stored.custom_flags ≡ bit_and d.stored.custom_flags 254)
        × (d'.calls ≡ d.calls ++ (notify_custom_flag_changed custom_flag_restricted false ∷ []))
  unfolding reset_custom_flag update_nv_blocks
  reset_fields d = (λ j. refl, refl, refl, refl)

  module _ (r : IsReliable p.nv) where
    apply_inferred-HasApplied :
        (m : ExtendedMessage) (d : Device F)
        → IsDevice p.nv d
        → IsInReach d.stored m.inferred_message_id
        → HasApplied (credit_event m) m.inferred_message_id d (apply_inferred p m d)
    unfolding apply_inferred
    apply_inferred-HasApplied m d v k =
        let id = m.inferred_message_id in
        let d1 = emit (credit_event m) d in
        let v1 = emit-IsDevice p.nv (credit_event m) d v in
        let k1 : IsInReach d1.stored id = record { from_bottom = k.from_bottom; fits = k.fits } in
        let e : u16 id ≡ id = omega (arith, k.fits) in
        let marked = marked_below-IsMarked p r id d1 v1 k1 in
        let d2 = mask_below_message_id p (u16 (id + 1)) d1 in
        let done =
          emit (feedback_start message_applied) (reset_custom_flag p custom_flag_restricted d2) in
        let whole : HasApplied (credit_event m) id d done = record {
          device = emit-IsDevice p.nv _ _ (reset_custom_flag-IsGrown p r d2 marked.device).device;
          marks = λ j. (reset_fields d2).0 j ∙ marked.marks j ∙ ground arith;
          qc = (reset_fields d2).1 ∙ marked.qc;
          custom = (reset_fields d2).2 ∙ ap (λ t. bit_and t 254) marked.custom;
          calls =
              ap (λ t. t ++ (feedback_start message_applied ∷ []))
                ((reset_fields d2).3
                  ∙ ap (λ t. t ++ (notify_custom_flag_changed custom_flag_restricted false ∷ []))
                      marked.calls);
        } in
        rw e whole

    pub HasApplied-IsGrown :
        (credit : Event) (id : ℕ) (d d' : Device F) → HasApplied credit id d d' → IsGrown p.nv d d'
    HasApplied-IsGrown credit id d d' h = record {
      device = h.device;
      keeps = λ j u. ground (arith, h.marks j, u);
    }

    -- What applying makes of a device: a message whose ID was found, or one that was not.
    abbrev pub Outcome : ExtendedMessage → Device F → Bool × ExtendedMessage → Applied F → Type 0
    Outcome m d (true, found) a =
        (a.0 ≡ valid_applied)
        × (used d.stored found.inferred_message_id ≡ false)
        × (d.stored.pd_index ≤ found.inferred_message_id + 23)
        × (found.inferred_message_id ≤ d.stored.pd_index + 40)
        × HasApplied (credit_event m) found.inferred_message_id d a.1
    Outcome m d (false, found) a = a ≡ (invalid, emit (feedback_start message_invalid) d)

    same_credit :
        (m : ExtendedMessage) (id : ℕ)
        → credit_event (record m { inferred_message_id = id }) ≡ credit_event m
    unfolding credit_event
    same_credit m id = refl

    apply_outcome-Outcome :
        (m : ExtendedMessage) (d : Device F) (x : Bool × ExtendedMessage)
        → IsDevice p.nv d
        → d.stored.pd_index ≤ 65494
        → IsFirst
            (current d.stored)
            p.secret_key
            m
            (d.stored.pd_index - 23)
            (d.stored.pd_index + 40)
            x
        → Outcome m d x (apply_outcome p d x)
    apply_outcome-Outcome m d (true, found) v hi f =
        let id = found.inferred_message_id in
        let from : d.stored.pd_index ≤ id + 23 = omega (arith, f.1) in
        let reach : IsInReach d.stored id = record {
          from_bottom = from;
          fits = omega (arith, f.2, hi);
        } in
        let credit = ap credit_event f.0 ∙ same_credit m id in
        (
          refl,
          ground (arith, f.3, already_set-used d.stored v.valid id, from),
          from,
          f.2,
          subst (λ e. HasApplied e id d (apply_inferred p found d)) credit
              (apply_inferred-HasApplied found d v reach),
        )
    apply_outcome-Outcome m d (false, found) v hi f = refl

    abbrev pub inferred : ExtendedMessage → Device F → Bool × ExtendedMessage
    inferred m d = infer_windowed_message_id m (current d.stored) p.secret_key

    -- On a proper device with Pd at most 65494, applying an extended message does one of two
    -- things. If an ID was found for it, that ID lies in the window and was not used, the answer is
    -- VALID_APPLIED, exactly the IDs up to it are used besides, the restricted flag is cleared, and
    -- the product is told the credit of the message, the flag and the feedback. Otherwise the
    -- answer is INVALID, and only that feedback is given.
    pub extended_small_apply-Outcome :
        (m : ExtendedMessage) (d : Device F)
        → IsDevice p.nv d
        → d.stored.pd_index ≤ 65494
        → m.type_code ≡ set_credit_and_wipe_flag
        → Outcome m d (inferred m d) (extended_small_apply p m d)
    unfolding extended_small_apply
    extended_small_apply-Outcome m d v hi t = apply_outcome-Outcome m d (inferred m d) v hi (
        unfold get_current_message_id_window in
        infer_windowed_message_id-IsFirst (current d.stored) p.secret_key m
          (current-IsWindow d.stored v.valid) (omega arith) t)
