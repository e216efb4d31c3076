-- ===== src/Keycode/Pro/Small/Replay.antt =====
-- A small-protocol keycode takes effect at most once.
use nexus_embedded.Base.{inl, inr, ◌≢◌, ◌≡◌, sym, ap, ◌∙◌, true, false, ◌==◌, Bool-cases}
use nexus_embedded.Nv.Laws.{IsReliable}
use nexus_embedded.Keycode.State.{
  Config, Product, PaygState, Device, invalid, valid_duplicate, valid_applied,
}
use nexus_embedded.Keycode.MessageIds.Memory.{IsDevice}
use nexus_embedded.Keycode.MessageIds.Window.{used}
use nexus_embedded.Keycode.Pro.Process.{init_device, init_device_lem}
use nexus_embedded.Keycode.Pro.Growth.{IsGrown, IsGrown-refl, Later, Later-IsGrown}
use nexus_embedded.Keycode.Pro.Small.{
  SmallMessage, small_apply, small_apply_activation, small_check_expected,
}
use nexus_embedded.Keycode.Pro.Small.Laws.{IsInReach, activation_duplicate, activation-IsGrown}
use nexus_embedded.Keycode.Pro.Small.Once.{IsExpanded, is_activation, is_wipe, small_apply-IsGrown}

-- The product when it reports the PAYG state `s`.
abbrev pub in_state : {F : Type 0} → Product F → PaygState → Product F
in_state p s = record p { payg_state = s }

-- What can happen to a device: a message that is no wipe is applied, in whatever PAYG state the
-- product then is, or the power is cycled.
pub data SmallStep {F : Type 0} (c : Config) (p : Product F) (d : Device F)
    : Device F → Type 0 where
  message_applied :
      (m : SmallMessage) (s : PaygState)
      → IsExpanded m d.stored
      → is_wipe m ≡ false
      → SmallStep c p d (small_apply c (in_state p s) m d).1
  power_cycled : SmallStep c p d (init_device p d)

module _ {F : Type 0} (c : Config) (p : Product F) (r : IsReliable p.nv) where
  pub SmallStep-IsGrown :
      (d1 d2 : Device F) → IsDevice p.nv d1 → SmallStep c p d1 d2 → IsGrown p.nv d1 d2
  SmallStep-IsGrown d1 d2 v (message_applied m s x w) =
      small_apply-IsGrown c (in_state p s) r m d1 v x w
  SmallStep-IsGrown d1 d2 v power_cycled = rw (init_device_lem p d1 v) (IsGrown-refl p.nv d1 v)

  module _ (m : SmallMessage) (a : is_activation m ≡ true) where
    -- A message with a wrong check is invalid.
    rejected :
        (d : Device F)
        → (m.check == small_check_expected p m) ≡ false
        → small_apply c p m d ≡ (invalid, d)
    unfolding small_apply
    rejected d f = rw f

    different : invalid ≢ valid_applied
    different q = cc

    applied_check :
        (d : Device F)
        → (small_apply c p m d).0 ≡ valid_applied
        → (m.check == small_check_expected p m) ≡ true
    applied_check d e = elim (Bool-cases (m.check == small_check_expected p m)) [
      | inl t ↦ t
      | inr f ↦ absurd (different (sym (ap (λ x. x.0) (rejected d f)) ∙ e))
    ]

    -- With the right check, an activation message is applied as one.
    accepted :
        (d : Device F) (s : PaygState)
        → (m.check == small_check_expected p m) ≡ true
        → small_apply c (in_state p s) m d ≡ small_apply_activation (in_state p s) m d
    unfolding small_apply small_check_expected
    accepted d s t = rw (t, a)

    -- The same at any later state that knows of all the IDs known then.
    pub applied_once_grown :
        (d : Device F)
        → IsDevice p.nv d
        → IsInReach d.stored m.full_message_id
        → (small_apply c p m d).0 ≡ valid_applied
        → (d2 : Device F) → IsGrown p.nv (small_apply c p m d).1 d2
        → IsInReach d2.stored m.full_message_id
        → (s : PaygState) → small_apply c (in_state p s) m d2 ≡ (valid_duplicate, d2)
    applied_once_grown d v h e d2 g h2 s =
        let t = applied_check d e in
        let same : small_apply c p m d ≡ small_apply_activation p m d = accepted d p.payg_state t in
        let used_now = (activation-IsGrown p r m d v h).1 (sym (ap (λ x. x.0) same) ∙ e) in
        let mine : used (small_apply c p m d).1.stored m.full_message_id ≡ true =
          rw same used_now in
        accepted d2 s t
        ∙ activation_duplicate (in_state p s) r m d2 g.device h2 (g.keeps m.full_message_id mine)

    -- With reliable memory, a small-protocol activation message with an ID of at most 65534 that
    -- does not lie below the window, which a proper device applied, answers VALID_DUPLICATE and
    -- leaves the device as it is at any later time at which its ID still does not lie below the
    -- window: after any further messages that are no wipe of the IDs and any power cycles, in any
    -- PAYG states. Each further activation message, too, has an ID of at most 65534 that does not
    -- lie below the window it meets.
    pub applied_once :
        (d : Device F)
        → IsDevice p.nv d
        → IsInReach d.stored m.full_message_id
        → (small_apply c p m d).0 ≡ valid_applied
        → (d2 : Device F) → Later (SmallStep c p) (small_apply c p m d).1 d2
        → IsInReach d2.stored m.full_message_id
        → (s : PaygState) → small_apply c (in_state p s) m d2 ≡ (valid_duplicate, d2)
    applied_once d v h e d2 later h2 s =
        let same : small_apply c p m d ≡ small_apply_activation p m d =
          accepted d p.payg_state (applied_check d e) in
        let v1 : IsDevice p.nv (small_apply c p m d).1 =
          rw same (activation-IsGrown p r m d v h).0.device in
        applied_once_grown d v h e d2 (Later-IsGrown SmallStep-IsGrown v1 later) h2 s
