-- ===== src/Keycode/Pro/Small/Laws.antt =====
-- What applying a small-protocol message can do to the received IDs.
use nexus_embedded.Base.{
  ℕ, ◌+◌, ◌≤◌, ◌≡◌, ◌∙◌, arith, true, ◌&&◌, not, leb, ltb, ◌==◌, u16, if-cases,
}
use nexus_embedded.Nv.Laws.{IsReliable}
use nexus_embedded.Keycode.State.{
  Product, Stored, Device, valid_duplicate, valid_applied, emit, Event, Applied,
}
use nexus_embedded.Keycode.MessageIds.{
  get_full_message_id_flag, set_full_message_id_flag, mask_below_message_id, reset_custom_flag,
  custom_flag_restricted,
}
use nexus_embedded.Keycode.MessageIds.Memory.{IsDevice}
use nexus_embedded.Keycode.MessageIds.Window.{used}
use nexus_embedded.Keycode.MessageIds.Receive.{IsMarked, get_full_message_id_flag_eq}
use nexus_embedded.Keycode.MessageIds.Marking.{
  set_full_message_id_flag-IsMarked, mask_below_message_id-IsMarked, set_now,
}
use nexus_embedded.Keycode.Pro.Growth.{
  IsGrown, IsGrown-refl, IsGrown-trans, IsMarked-IsGrown, emit-IsGrown, reset_custom_flag-IsGrown,
}
use nexus_embedded.Keycode.Pro.Small.{
  SmallMessage, small_apply_set_credit, small_apply_add_credit, small_apply_activation,
  get_add_credit_increment_days, unlock_increment, set_credit_type, add_credit_type,
}
use nexus_embedded.Keycode.Pro.Qc.{is_unlocked}

-- An ID that the window of a device reaches, and that fits 16 bits with its successor. Parsing
-- infers only IDs of the window.
pub record IsInReach (s : Stored) (id : ℕ) : Type 0 where
  pub from_bottom : s.pd_index ≤ id + 23
  pub fits : id ≤ 65534

module _ {F : Type 0} (p : Product F) (r : IsReliable p.nv) (id : ℕ) (d : Device F)
    (v : IsDevice p.nv d) (k : IsInReach d.stored id) where
  abbrev marked_below : Device F
  marked_below = mask_below_message_id p (u16 (id + 1)) d

  pub marked_below-IsMarked : IsMarked p.nv (λ j. ltb j (id + 1)) d marked_below
  marked_below-IsMarked =
      let e : u16 (id + 1) ≡ id + 1 = omega (arith, k.fits) in
      rw e (
        mask_below_message_id-IsMarked p r (id + 1) d v (omega arith) (omega (arith, k.fits))
          (omega (arith, k.from_bottom)))

  abbrev marked_set : Device F
  marked_set = set_full_message_id_flag p (u16 id) d

  pub marked_set-IsMarked : IsMarked p.nv (set_now id) d marked_set
  marked_set-IsMarked =
      let e : u16 id ≡ id = omega (arith, k.fits) in
      rw e (
        set_full_message_id_flag-IsMarked p r id d v (omega (arith, k.fits))
          (omega (arith, k.from_bottom)))

  pub read_flag : get_full_message_id_flag p (u16 id) d ≡ (used d.stored id, d)
  read_flag =
      let e : u16 id ≡ id = omega (arith, k.fits) in
      rw e (
        get_full_message_id_flag_eq p r d id v (omega (arith, k.fits))
        ∙ (let b : (leb d.stored.pd_index (id + 23) && used d.stored id) ≡ used d.stored id =
              ground (arith, k.from_bottom) in
            rw b))

  pub marked_below-used : used marked_below.stored id ≡ true
  marked_below-used = ground (arith, marked_below-IsMarked.marks id)

  pub marked_set-used : used marked_set.stored id ≡ true
  marked_set-used = ground (arith, marked_set-IsMarked.marks id)

module _ {F : Type 0} (p : Product F) (r : IsReliable p.nv) (m : SmallMessage) (d : Device F)
    (v : IsDevice p.nv d) (k : IsInReach d.stored m.full_message_id) where
  -- What an activation branch has to show: nothing is forgotten, and the message's ID is used.
  abbrev Receives : Device F → Type 0
  Receives d' = IsGrown p.nv d d' × (used d'.stored m.full_message_id ≡ true)

  receive_emit : (e : Event) (d' : Device F) → Receives d' → Receives (emit e d')
  receive_emit e d' h = (emit-IsGrown p.nv e d d' h.0, h.1)

  below-Receives : Receives (marked_below p r m.full_message_id d v k)
  below-Receives = (
    IsMarked-IsGrown p.nv _ d _ (marked_below-IsMarked p r m.full_message_id d v k),
    marked_below-used p r m.full_message_id d v k,
  )

  set-Receives : Receives (marked_set p r m.full_message_id d v k)
  set-Receives = (
    IsMarked-IsGrown p.nv _ d _ (marked_set-IsMarked p r m.full_message_id d v k),
    marked_set-used p r m.full_message_id d v k,
  )

  abbrev masked : Device F
  masked = marked_below p r m.full_message_id d v k

  flag-Receives : Receives (reset_custom_flag p custom_flag_restricted masked)
  flag-Receives =
      let g = reset_custom_flag-IsGrown p r masked below-Receives.0.device in
      (IsGrown-trans p.nv d masked _ below-Receives.0 g, g.keeps m.full_message_id below-Receives.1)

  abbrev ReceivesIn : Applied F → Type 0
  ReceivesIn a = Receives a.1

  set_credit-Receives : Receives (small_apply_set_credit p m d).1
  unfolding small_apply_set_credit
  set_credit-Receives =
      if-cases ReceivesIn (m.body == 255) _ _ (λ _. receive_emit _ masked below-Receives)
        (λ _.
          if-cases ReceivesIn (m.body == 254) _ _ (λ _. receive_emit _ masked below-Receives)
            (λ _.
              if-cases ReceivesIn (m.body == 253) _ _ (λ _. flag-Receives)
                (λ _. receive_emit _ masked below-Receives)))

  abbrev set_device : Device F
  set_device = marked_set p r m.full_message_id d v k

  add_credit-Receives : Receives (small_apply_add_credit p m d).1
  unfolding small_apply_add_credit
  add_credit-Receives =
      if-cases ReceivesIn (not (is_unlocked p.payg_state)) _ _
        (λ _.
          if-cases ReceivesIn (get_add_credit_increment_days m.body == unlock_increment) _ _
            (λ _. receive_emit _ set_device set-Receives)
            (λ _. receive_emit _ set_device set-Receives))
        (λ _. set-Receives)

  -- An activation message whose ID is used is a duplicate, and has no effect.
  pub activation_duplicate :
      used d.stored m.full_message_id ≡ true → small_apply_activation p m d ≡ (valid_duplicate, d)
  unfolding small_apply_activation
  activation_duplicate u = rw (read_flag p r m.full_message_id d v k, u)

  -- An activation message forgets no ID, and one that is applied has made its own ID used.
  pub activation-IsGrown :
      IsGrown p.nv d (small_apply_activation p m d).1
      × ((small_apply_activation p m d).0 ≡ valid_applied
          → used (small_apply_activation p m d).1.stored m.full_message_id ≡ true)
  unfolding small_apply_activation
  activation-IsGrown = rw (read_flag p r m.full_message_id d v k) (
      if-cases Good (used d.stored m.full_message_id) _ _ (λ u. (IsGrown-refl p.nv d v, λ _. u))
        (λ _.
          if-cases Good (m.type_code == set_credit_type) _ _
            (λ _. (set_credit-Receives.0, λ _. set_credit-Receives.1))
            (λ _.
              if-cases Good (m.type_code == add_credit_type) _ _
                (λ _. (add_credit-Receives.0, λ _. add_credit-Receives.1))
                (λ _. (IsGrown-refl p.nv d v, λ e. cc)))))
    where
      Good : Applied F → Type 0
      Good a = IsGrown p.nv d a.1 × (a.0 ≡ valid_applied → used a.1.stored m.full_message_id ≡ true)
