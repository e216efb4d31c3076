-- ===== src/Keycode/Pro/Small/Persist.antt =====
-- No frame of the small protocol, wipes included, leaves a device that a power cycle would change.
use nexus_embedded.Base.{
  ℕ, ◌≤◌, ◌≡◌, arith, true, false, not, Option, none, some, List, bit_and, ltb, ◌==◌, if-cases,
  Bool-cases, inl, inr,
}
use nexus_embedded.Util.Bitstream.{Bitstream, bitstream_init, set_bit_position}
use nexus_embedded.Nv.Laws.{IsReliable}
use nexus_embedded.Keycode.State.{Config, Product, PaygState, Device, invalid, no_response, Applied}
use nexus_embedded.Keycode.MessageIds.Memory.{IsDevice}
use nexus_embedded.Keycode.Pro.Growth.{emit-IsDevice, Later, here, next}
use nexus_embedded.Keycode.Pro.Process.{init_device, init_device_lem}
use nexus_embedded.Keycode.Pro.Restart.{IsBlank, init_blank-IsDevice}
use nexus_embedded.Keycode.Pro.Wipe.{wipe_received_lem}
use nexus_embedded.Keycode.Pro.Extended.{small_internal_bitstream_passthrough}
use nexus_embedded.Keycode.Pro.Extended.Order.{passthrough-IsGrown}
use nexus_embedded.Keycode.Pro.Small.{
  SmallMessage, small_apply, small_apply_maintenance, small_check_expected,
  maintenance_or_test_type, max_test_function_id, wipe_received, passthrough_type,
}
use nexus_embedded.Keycode.Pro.Small.Once.{is_wipe, IsExpanded, small_apply-IsGrown}
use nexus_embedded.Keycode.Pro.Small.Replay.{in_state}
use nexus_embedded.Keycode.Pro.Small.Parse.{
  small_parse, small_parse_and_apply, apply_parsed, extract_passthrough_message,
}
use nexus_embedded.Keycode.Pro.Small.Frames.{apply_frame, AllExpanded, small_parse-AllExpanded}

module _ {F : Type 0} (c : Config) (p : Product F) (r : IsReliable p.nv) where
  maintenance-IsDevice :
      (m : SmallMessage) (d : Device F)
      → IsDevice p.nv d
      → IsDevice p.nv (small_apply_maintenance p m d).1
  unfolding small_apply_maintenance
  maintenance-IsDevice m d v =
      let wiped = (wipe_received_lem p d r v).0 in
      if-cases Good (bit_and m.body 0x7F == 1) _ _
        (λ _. emit-IsDevice p.nv _ (wipe_received p d) wiped)
        (λ _.
          if-cases Good (bit_and m.body 0x7F == 0) _ _ (λ _. emit-IsDevice p.nv _ d v)
            (λ _. if-cases Good (bit_and m.body 0x7F == 2) _ _ (λ _. wiped) (λ _. v)))
    where
      Good : Applied F → Type 0
      Good a = IsDevice p.nv a.1

  wipe-IsDevice :
      (m : SmallMessage) (d : Device F)
      → IsDevice p.nv d
      → is_wipe m ≡ true
      → IsDevice p.nv (small_apply c p m d).1
  unfolding small_apply
  wipe-IsDevice m d v w =
      let other : ltb m.type_code maintenance_or_test_type ≡ false = ground (arith, w) in
      let maintenance : ltb max_test_function_id m.body ≡ true = ground (arith, w) in
      if-cases (λ (a : Applied F). IsDevice p.nv a.1) (not (m.check == small_check_expected p m)) _
        _ (λ _. v) (λ _. rw (other, maintenance) (maintenance-IsDevice m d v))

  small_apply-IsDevice :
      (m : SmallMessage) (d : Device F)
      → IsDevice p.nv d
      → IsExpanded m d.stored
      → IsDevice p.nv (small_apply c p m d).1
  small_apply-IsDevice m d v x = elim (Bool-cases (is_wipe m)) [
    | inl w ↦ wipe-IsDevice m d v w
    | inr w ↦ (small_apply-IsGrown c p r m d v x w).device
  ]

module _ {F : Type 0} (c : Config) (p : Product F) (alphabet scratch : List ℕ)
    (scratch_id : ℕ) where
  -- What can happen to a device: any frame is handled, in whatever PAYG state the product then is,
  -- or the power is cycled.
  pub data AnyStep (d : Device F) : Device F → Type 0 where
    any_frame :
        (frame : List ℕ) (s : PaygState)
        → d.stored.pd_index ≤ 65494
        → AnyStep d (apply_frame alphabet scratch scratch_id c (in_state p s) frame d).1
    any_power_cycle : AnyStep d (init_device p d)

module _ {F : Type 0} (c : Config) (p : Product F) (r : IsReliable p.nv) (alphabet scratch : List ℕ)
    (scratch_id : ℕ) where
  apply_parsed-IsDevice :
      (s : PaygState) (d : Device F) (o : Option (SmallMessage × Bitstream))
      → IsDevice p.nv d
      → d.stored.pd_index ≤ 65494
      → AllExpanded d.stored o
      → IsDevice p.nv
          (apply_parsed c
            (in_state p s)
            scratch
            (small_internal_bitstream_passthrough (in_state p s) scratch_id)
            d
            o).1
  unfolding apply_parsed
  apply_parsed-IsDevice s d none v hi x = v
  apply_parsed-IsDevice s d (some (m, clear)) v hi x =
      let bits =
        set_bit_position 0 (extract_passthrough_message (bitstream_init scratch 32 0) clear) in
      let handed = small_internal_bitstream_passthrough (in_state p s) scratch_id bits d in
      let g = (passthrough-IsGrown (in_state p s) r scratch_id bits d v hi).device in
      if-cases Good (m.type_code == passthrough_type) _ _
        (λ _. if-cases Good handed.0 (no_response, handed.1) (invalid, handed.1) (λ _. g) (λ _. g))
        (λ t. small_apply-IsDevice c (in_state p s) r m d v (x t))
    where
      Good : Applied F → Type 0
      Good a = IsDevice p.nv a.1

  AnyStep-IsDevice :
      (d1 d2 : Device F)
      → IsDevice p.nv d1
      → AnyStep c p alphabet scratch scratch_id d1 d2
      → IsDevice p.nv d2
  unfolding apply_frame small_parse_and_apply
  AnyStep-IsDevice d1 d2 v (any_frame frame s hi) =
      apply_parsed-IsDevice s d1 (small_parse alphabet scratch frame d1.stored) v hi
        (small_parse-AllExpanded alphabet scratch frame d1.stored v.valid.pd_low hi)
  AnyStep-IsDevice d1 d2 v any_power_cycle = rw (init_device_lem p d1 v) v

  Later-IsDevice :
      {d d' : Device F}
      → IsDevice p.nv d
      → Later (AnyStep c p alphabet scratch scratch_id) d d'
      → IsDevice p.nv d'
  Later-IsDevice v here = v
  Later-IsDevice v (next {d1} {d2} l st) = AnyStep-IsDevice d1 d2 (Later-IsDevice v l) st

  -- With reliable memory, a power cycle loses nothing: if a unit whose memory holds no block of the
  -- stored data is initialised, and then handles any frames of the small protocol, wipes and
  -- passthrough ones included, in any PAYG states, and goes through any power cycles, then
  -- initialising it gives the device back exactly as it is. Pd is at most 65494 whenever a frame
  -- comes in.
  pub nothing_is_lost :
      (unit d : Device F)
      → IsBlank p.nv unit.flash
      → Later (AnyStep c p alphabet scratch scratch_id) (init_device p unit) d
      → init_device p d ≡ d
  nothing_is_lost unit d blank later =
      init_device_lem p d (Later-IsDevice (init_blank-IsDevice p unit blank) later)
