-- ===== src/Keycode/Pro/Full/Once.antt =====
-- What applying a full-protocol message can do to the received IDs.
use nexus_embedded.Base.{
  ℕ, ◌+◌, ◌*◌, ◌≡◌, arith, Bool, true, false, ◌&&◌, ◌||◌, not, leb, ltb, ◌==◌, u16, u32,
  if◌then◌else◌, if-cases,
}
use nexus_embedded.Util.Check.{integrity_check_fixed_00_key}
use nexus_embedded.Nv.Laws.{IsReliable}
use nexus_embedded.Keycode.State.{
  Config, Product, Stored, Device, valid_duplicate, valid_applied, emit, Event, payg_credit_add,
  Applied, qc_short_test_message_seconds,
}
use nexus_embedded.Keycode.MessageIds.{
  set_full_message_id_flag, mask_below_message_id, reset_custom_flag, custom_flag_restricted,
}
use nexus_embedded.Keycode.MessageIds.Memory.{IsDevice}
use nexus_embedded.Keycode.MessageIds.Window.{used}
use nexus_embedded.Keycode.Pro.Growth.{
  IsGrown, IsGrown-refl, IsGrown-trans, IsMarked-IsGrown, emit-IsGrown, emit-IsDevice,
  reset_custom_flag-IsGrown, increment_long-IsGrown, increment_short-IsGrown,
}
use nexus_embedded.Keycode.Pro.Qc.{can_unit_accept_qc_code, is_unlocked, is_disabled}
use nexus_embedded.Keycode.Pro.Small.Laws.{
  IsInReach, marked_below-IsMarked, marked_set-IsMarked, marked_below-used, marked_set-used,
  read_flag,
}
use nexus_embedded.Keycode.Pro.Full.{
  FullMessage, full_apply_wipe, full_apply_activation, full_apply_qc_test, full_apply_factory,
  full_apply, full_compute_check, activation_add_credit, activation_demo_code,
  activation_set_credit, activation_wipe_state, factory_allow_test, factory_qc_test,
  factory_device_id_display, factory_nomac_device_id_confirmation, unlock_hours,
}

abbrev pub is_activation : FullMessage → Bool
is_activation m = ltb m.type_code factory_allow_test

-- A message that wipes the received IDs.
abbrev pub is_wipe : FullMessage → Bool
is_wipe m = (m.type_code == activation_wipe_state) && ((m.body == 1) || (m.body == 2))

-- The ID of an activation message lies in the window, as parsing makes sure.
abbrev pub IsExpanded : FullMessage → Stored → Type 0
IsExpanded m s = is_activation m ≡ true → IsInReach s m.full_message_id

module _ {F : Type 0} (p : Product F) (r : IsReliable p.nv) (m : FullMessage) (d : Device F)
    (v : IsDevice p.nv d) where
  abbrev GrownIn : Applied F → Type 0
  GrownIn a = IsGrown p.nv d a.1

  module _ (k : IsInReach d.stored m.full_message_id) where
    abbrev Receives : Device F → Type 0
    Receives d' = IsGrown p.nv d d' × (used d'.stored m.full_message_id ≡ true)

    abbrev ReceivesIn : Applied F → Type 0
    ReceivesIn a = Receives a.1

    receive_emit : (e : Event) (d' : Device F) → Receives d' → Receives (emit e d')
    receive_emit e d' h = (emit-IsGrown p.nv e d d' h.0, h.1)

    abbrev masked : Device F
    masked = mask_below_message_id p (u16 (m.full_message_id + 1)) d

    below-Receives : Receives masked
    below-Receives = (
      IsMarked-IsGrown p.nv _ d _ (marked_below-IsMarked p r m.full_message_id d v k),
      marked_below-used p r m.full_message_id d v k,
    )

    abbrev marked : Device F
    marked = set_full_message_id_flag p (u16 m.full_message_id) d

    set-Receives : Receives marked
    set-Receives = (
      IsMarked-IsGrown p.nv _ d _ (marked_set-IsMarked p r m.full_message_id d v k),
      marked_set-used p r m.full_message_id d v k,
    )

    flag-Receives : Receives (reset_custom_flag p custom_flag_restricted masked)
    flag-Receives =
        let g = reset_custom_flag-IsGrown p r masked below-Receives.0.device in
        (
          IsGrown-trans p.nv d masked _ below-Receives.0 g,
          g.keeps m.full_message_id below-Receives.1,
        )

    wipe-Receives :
        ((m.body == 1) || (m.body == 2)) ≡ false → Receives (full_apply_wipe p m.body masked).1
    unfolding full_apply_wipe
    wipe-Receives w =
        let one : (m.body == 1) ≡ false = ground (arith, w) in
        let two : (m.body == 2) ≡ false = ground (arith, w) in
        rw (one, two)
          (if-cases ReceivesIn (m.body == 0) _ _ (λ _. receive_emit _ masked below-Receives)
            (λ _. if-cases ReceivesIn (m.body == 3) _ _ (λ _. flag-Receives) (λ _. below-Receives)))

    -- A used ID answers duplicate, and the device stays as it is.
    pub activation_duplicate :
        used d.stored m.full_message_id ≡ true → full_apply_activation p m d ≡ (valid_duplicate, d)
    unfolding full_apply_activation
    activation_duplicate u = rw (read_flag p r m.full_message_id d v k, u)

    abbrev Recorded : Applied F → Type 0
    Recorded a =
        IsGrown p.nv d a.1
        × ((m.type_code == activation_demo_code) ≡ false
            → a.0 ≡ valid_applied
            → used a.1.stored m.full_message_id ≡ true)

    recorded : (a : Applied F) → Receives a.1 → Recorded a
    recorded a h = (h.0, λ _ _. h.1)

    -- An activation message that wipes nothing forgets no ID; one that is applied and is no demo
    -- code has made its own ID used.
    pub activation-Recorded : is_wipe m ≡ false → Recorded (full_apply_activation p m d)
    unfolding full_apply_activation
    activation-Recorded w = rw (read_flag p r m.full_message_id d v k) (
        if-cases Recorded (used d.stored m.full_message_id) _ _
          (λ u. (IsGrown-refl p.nv d v, λ _ _. u))
          (λ _.
            if-cases Recorded (m.type_code == activation_add_credit) _ _
              (λ _.
                if-cases Recorded (not (is_unlocked p.payg_state)) _ _
                  (λ _. recorded _ (receive_emit _ marked set-Receives))
                  (λ _. recorded _ set-Receives))
              (λ _.
                if-cases Recorded (m.type_code == activation_demo_code) _ _ (λ t. demo t)
                  (λ _.
                    if-cases Recorded (m.type_code == activation_set_credit) _ _
                      (λ _.
                        if-cases Recorded (m.body == unlock_hours) _ _
                          (λ _. recorded _ (receive_emit _ masked below-Receives))
                          (λ _. recorded _ (receive_emit _ masked below-Receives)))
                      (λ _.
                        if-cases Recorded (m.type_code == activation_wipe_state) _ _
                          (λ t. recorded _ (wipe-Receives (ground (arith, w, t))))
                          (λ _. (IsGrown-refl p.nv d v, λ _ e. cc)))))))
      where
        demo :
            (m.type_code == activation_demo_code) ≡ true
            → Recorded (
                if not (is_unlocked p.payg_state)
                then (valid_applied, emit (payg_credit_add (u32 (m.body * 60))) d)
                else (valid_applied, d))
        demo t =
            if-cases Recorded (not (is_unlocked p.payg_state)) _ _
              (λ _. (
                emit-IsGrown p.nv _ d d (IsGrown-refl p.nv d v),
                λ f. absurd (ground (arith, t, f)),
              ))
              (λ _. (IsGrown-refl p.nv d v, λ f. absurd (ground (arith, t, f))))

module _ {F : Type 0} (c : Config) (p : Product F) (r : IsReliable p.nv) (d : Device F)
    (v : IsDevice p.nv d) where
  abbrev Good : Applied F → Type 0
  Good a = IsGrown p.nv d a.1

  qc_test-IsGrown : (minutes : ℕ) → Good (full_apply_qc_test c p minutes d)
  unfolding full_apply_qc_test
  qc_test-IsGrown minutes =
      let e = payg_credit_add (u32 (minutes * 60)) in
      let v1 = emit-IsDevice p.nv e d v in
      let g1 = emit-IsGrown p.nv e d d (IsGrown-refl p.nv d v) in
      if-cases Good (can_unit_accept_qc_code c p d.stored (u32 (minutes * 60))) _ _
        (λ _.
          if-cases Good (leb (u32 (minutes * 60)) qc_short_test_message_seconds) _ _
            (λ _.
              IsGrown-trans p.nv d (emit e d) _ g1 (increment_short-IsGrown c p r (emit e d) v1))
            (λ _.
              IsGrown-trans p.nv d (emit e d) _ g1 (increment_long-IsGrown c p r (emit e d) v1)))
        (λ _. IsGrown-refl p.nv d v)

  factory-IsGrown : (m : FullMessage) → Good (full_apply_factory c p m d)
  unfolding full_apply_factory
  factory-IsGrown m =
      let g = IsGrown-refl p.nv d v in
      if-cases Good (m.type_code == factory_allow_test) _ _
        (λ _.
          if-cases Good (is_disabled p.payg_state) _ _ (λ _. emit-IsGrown p.nv _ d d g) (λ _. g))
        (λ _.
          if-cases Good (m.type_code == factory_qc_test) _ _ (λ _. qc_test-IsGrown m.body)
            (λ _.
              if-cases Good (m.type_code == factory_device_id_display) _ _ (λ _. g)
                (λ _.
                  if-cases Good (m.type_code == factory_nomac_device_id_confirmation) _ _
                    (λ _. if-cases Good (m.body == p.user_facing_id) _ _ (λ _. g) (λ _. g))
                    (λ _. g))))

  -- A message that is no wipe forgets no ID.
  pub full_apply-IsGrown :
      (m : FullMessage)
      → IsExpanded m d.stored
      → is_wipe m ≡ false
      → IsGrown p.nv d (full_apply c p m d).1
  unfolding full_apply
  full_apply-IsGrown m x w =
      if-cases Good
        (not (
            m.check
            == full_compute_check m (
                if ltb m.type_code factory_allow_test
                then p.secret_key
                else integrity_check_fixed_00_key))
          && ltb m.type_code factory_nomac_device_id_confirmation)
        _ _ (λ _. IsGrown-refl p.nv d v)
        (λ _.
          if-cases Good (ltb m.type_code factory_allow_test) _ _
            (λ a. (activation-Recorded p r m d v (x a) w).0) (λ _. factory-IsGrown m))
