-- ===== src/Keycode/Pro/Small/Once.antt =====
-- A small-protocol keycode takes effect at most once.
use nexus_embedded.Base.{
  ◌≡◌, arith, Bool, true, false, ◌&&◌, ◌||◌, not, ltb, ◌==◌, if-cases, bit_and,
}
use nexus_embedded.Nv.Laws.{IsReliable}
use nexus_embedded.Keycode.State.{
  Config, Product, Stored, Device, emit, payg_credit_add, qc_long_test_message_seconds, Applied,
}
use nexus_embedded.Keycode.MessageIds.Memory.{IsDevice}
use nexus_embedded.Keycode.Pro.Growth.{
  IsGrown, IsGrown-refl, IsGrown-trans, emit-IsGrown, emit-IsDevice, increment_long-IsGrown,
}
use nexus_embedded.Keycode.Pro.Qc.{
  get_long_qc_code_count, increment_long_qc_test_message_count, is_unlocked, is_disabled,
}
use nexus_embedded.Keycode.Pro.Small.{
  SmallMessage, small_apply, small_apply_maintenance, small_apply_test, small_check_expected,
  maintenance_or_test_type, max_test_function_id,
}
use nexus_embedded.Keycode.Pro.Small.Laws.{IsInReach, activation-IsGrown}

abbrev pub is_activation : SmallMessage → Bool
is_activation m = ltb m.type_code maintenance_or_test_type

-- A maintenance message that wipes the received IDs.
abbrev pub is_wipe : SmallMessage → Bool
is_wipe m =
    (not (is_activation m) && ltb max_test_function_id m.body)
    && ((bit_and m.body 0x7F == 1) || (bit_and m.body 0x7F == 2))

-- The ID of an activation message lies in the window, as parsing makes sure.
abbrev pub IsExpanded : SmallMessage → Stored → Type 0
IsExpanded m s = is_activation m ≡ true → IsInReach s m.full_message_id

module _ {F : Type 0} (c : Config) (p : Product F) (r : IsReliable p.nv) where
  maintenance-IsGrown :
      (m : SmallMessage) (d : Device F)
      → IsDevice p.nv d
      → ((bit_and m.body 0x7F == 1) || (bit_and m.body 0x7F == 2)) ≡ false
      → IsGrown p.nv d (small_apply_maintenance p m d).1
  unfolding small_apply_maintenance
  maintenance-IsGrown m d v w =
      let g = IsGrown-refl p.nv d v in
      if-cases Good (bit_and m.body 0x7F == 1) _ _ (λ e. absurd (clash e))
        (λ _.
          if-cases Good (bit_and m.body 0x7F == 0) _ _ (λ _. emit-IsGrown p.nv _ d d g)
            (λ _. if-cases Good (bit_and m.body 0x7F == 2) _ _ (λ e. absurd (clash2 e)) (λ _. g)))
    where
      Good : Applied F → Type 0
      Good a = IsGrown p.nv d a.1

      clash : (bit_and m.body 0x7F == 1) ≡ true → ⊥
      clash e = ground (arith, w, e)

      clash2 : (bit_and m.body 0x7F == 2) ≡ true → ⊥
      clash2 e = ground (arith, w, e)

  test-IsGrown :
      (m : SmallMessage) (d : Device F)
      → IsDevice p.nv d
      → IsGrown p.nv d (small_apply_test c p m d).1
  unfolding small_apply_test
  test-IsGrown m d v =
      let g = IsGrown-refl p.nv d v in
      if-cases Good (m.body == 0) _ _
        (λ _.
          if-cases Good (is_disabled p.payg_state) _ _ (λ _. emit-IsGrown p.nv _ d d g) (λ _. g))
        (λ _.
          if-cases Good (m.body == 1) _ _
            (λ _.
              if-cases Good
                ((ltb 0 c.factory_qc_long_lifetime_max
                    && ltb (get_long_qc_code_count d.stored) c.factory_qc_long_lifetime_max)
                  && not (is_unlocked p.payg_state))
                _ _ (λ _. qc_test) (λ _. g))
            (λ _. g))
    where
      Good : Applied F → Type 0
      Good a = IsGrown p.nv d a.1

      credited : Device F
      credited = emit (payg_credit_add qc_long_test_message_seconds) d

      qc_test : IsGrown p.nv d (increment_long_qc_test_message_count c p credited)
      qc_test =
          let v1 = emit-IsDevice p.nv (payg_credit_add qc_long_test_message_seconds) d v in
          let g1 =
            emit-IsGrown p.nv (payg_credit_add qc_long_test_message_seconds) d d
              (IsGrown-refl p.nv d v) in
          IsGrown-trans p.nv d credited _ g1 (increment_long-IsGrown c p r credited v1)

  -- A message that is no wipe forgets no ID.
  pub small_apply-IsGrown :
      (m : SmallMessage) (d : Device F)
      → IsDevice p.nv d
      → IsExpanded m d.stored
      → is_wipe m ≡ false
      → IsGrown p.nv d (small_apply c p m d).1
  unfolding small_apply
  small_apply-IsGrown m d v x w =
      if-cases Good (not (m.check == small_check_expected p m)) _ _ (λ _. IsGrown-refl p.nv d v)
        (λ _.
          if-cases Good (ltb m.type_code maintenance_or_test_type) _ _
            (λ a. (activation-IsGrown p r m d v (x a)).0)
            (λ a.
              if-cases Good (ltb max_test_function_id m.body) _ _
                (λ b. maintenance-IsGrown m d v (ground (arith, w, a, b)))
                (λ _. test-IsGrown m d v)))
    where
      Good : Applied F → Type 0
      Good a = IsGrown p.nv d a.1
