-- ===== src/Keycode/Pro/Full/Replay.antt =====
-- A full-protocol keycode takes effect at most once, but for demo codes.
use nexus_embedded.Base.{
  inl, inr, ◌≢◌, ◌≡◌, sym, ap, ◌∙◌, arith, true, false, ltb, ◌==◌, Bool-cases,
}
use nexus_embedded.Nv.Laws.{IsReliable}
use nexus_embedded.Keycode.State.{
  Config, Product, PaygState, Device, invalid, valid_duplicate, valid_applied,
}
use nexus_embedded.Keycode.MessageIds.Memory.{IsDevice}
use nexus_embedded.Keycode.MessageIds.Window.{used}
use nexus_embedded.Keycode.Pro.Process.{init_device, init_device_lem}
use nexus_embedded.Keycode.Pro.Growth.{IsGrown, IsGrown-refl, Later, Later-IsGrown}
use nexus_embedded.Keycode.Pro.Small.Laws.{IsInReach}
use nexus_embedded.Keycode.Pro.Small.Replay.{in_state}
use nexus_embedded.Keycode.Pro.Full.{
  FullMessage, full_apply, full_apply_activation, full_compute_check, activation_demo_code,
}
use nexus_embedded.Keycode.Pro.Full.Once.{
  IsExpanded, is_activation, is_wipe, activation_duplicate, activation-Recorded, full_apply-IsGrown,
}

-- What can happen to a device: a message that is no wipe is applied, in whatever PAYG state the
-- product then is, or the power is cycled.
pub data FullStep {F : Type 0} (c : Config) (p : Product F) (d : Device F) : Device F → Type 0 where
  full_message_applied :
      (m : FullMessage) (s : PaygState)
      → IsExpanded m d.stored
      → is_wipe m ≡ false
      → FullStep c p d (full_apply c (in_state p s) m d).1
  full_power_cycled : FullStep c p d (init_device p d)

module _ {F : Type 0} (c : Config) (p : Product F) (r : IsReliable p.nv) where
  FullStep-IsGrown : (d1 d2 : Device F) → IsDevice p.nv d1 → FullStep c p d1 d2 → IsGrown p.nv d1 d2
  FullStep-IsGrown d1 d2 v (full_message_applied m s x w) =
      full_apply-IsGrown c (in_state p s) r d1 v m x w
  FullStep-IsGrown d1 d2 v full_power_cycled = rw (init_device_lem p d1 v) (IsGrown-refl p.nv d1 v)

  module _ (m : FullMessage) (a : is_activation m ≡ true) where
    type_lt_7 : ltb m.type_code 7 ≡ true
    type_lt_7 = ground (arith, a)

    rejected :
        (d : Device F)
        → (m.check == full_compute_check m p.secret_key) ≡ false
        → full_apply c p m d ≡ (invalid, d)
    unfolding full_apply
    rejected d f = rw (a, f, type_lt_7)

    different : invalid ≢ valid_applied
    different q = cc

    applied_check :
        (d : Device F)
        → (full_apply c p m d).0 ≡ valid_applied
        → (m.check == full_compute_check m p.secret_key) ≡ true
    applied_check d e = elim (Bool-cases (m.check == full_compute_check m p.secret_key)) [
      | inl t ↦ t
      | inr f ↦ absurd (different (sym (ap (λ x. x.0) (rejected d f)) ∙ e))
    ]

    -- With the right check, an activation message is applied as one.
    accepted :
        (d : Device F) (s : PaygState)
        → (m.check == full_compute_check m p.secret_key) ≡ true
        → full_apply c (in_state p s) m d ≡ full_apply_activation (in_state p s) m d
    unfolding full_apply
    accepted d s t = rw (a, t)

    -- The same at any later state that knows of all the IDs known then.
    pub full_applied_once_grown :
        (m.type_code == activation_demo_code) ≡ false
        → is_wipe m ≡ false
        → (d : Device F) → IsDevice p.nv d
        → IsInReach d.stored m.full_message_id
        → (full_apply c p m d).0 ≡ valid_applied
        → (d2 : Device F) → IsGrown p.nv (full_apply c p m d).1 d2
        → IsInReach d2.stored m.full_message_id
        → (s : PaygState) → full_apply c (in_state p s) m d2 ≡ (valid_duplicate, d2)
    full_applied_once_grown n w d v h e d2 g h2 s =
        let t = applied_check d e in
        let same : full_apply c p m d ≡ full_apply_activation p m d = accepted d p.payg_state t in
        let used_now = (activation-Recorded p r m d v h w).1 n (sym (ap (λ x. x.0) same) ∙ e) in
        let mine : used (full_apply c p m d).1.stored m.full_message_id ≡ true = rw same used_now in
        accepted d2 s t
        ∙ activation_duplicate (in_state p s) r m d2 g.device h2 (g.keeps m.full_message_id mine)

    -- With reliable memory, a full-protocol activation message, neither a demo code nor a wipe of
    -- the IDs, with an ID of at most 65534 that does not lie below the window, which a proper
    -- device applied, answers VALID_DUPLICATE and leaves the device as it is at any later time at
    -- which its ID still does not lie below the window: after any further messages that are no wipe
    -- of the IDs and any power cycles, in any PAYG states. Each further activation message, too,
    -- has an ID of at most 65534 that does not lie below the window it meets.
    pub full_applied_once :
        (m.type_code == activation_demo_code) ≡ false
        → is_wipe m ≡ false
        → (d : Device F) → IsDevice p.nv d
        → IsInReach d.stored m.full_message_id
        → (full_apply c p m d).0 ≡ valid_applied
        → (d2 : Device F) → Later (FullStep c p) (full_apply c p m d).1 d2
        → IsInReach d2.stored m.full_message_id
        → (s : PaygState) → full_apply c (in_state p s) m d2 ≡ (valid_duplicate, d2)
    full_applied_once n w d v h e d2 later h2 s =
        let same : full_apply c p m d ≡ full_apply_activation p m d =
          accepted d p.payg_state (applied_check d e) in
        let v1 : IsDevice p.nv (full_apply c p m d).1 =
          rw same (activation-Recorded p r m d v h w).0.device in
        full_applied_once_grown n w d v h e d2 (Later-IsGrown FullStep-IsGrown v1 later) h2 s
