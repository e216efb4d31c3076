-- ===== src/Keycode/Pro/Full/Frames.antt =====
-- What a frame of the full protocol, as message assembly hands it over, can do to a device.
use nexus_embedded.Base.{
  ℕ, ◌+◌, ◌≤◌, ◌≡◌, refl, sym, ap, ◌∙◌, arith, Bool, true, false, not, ◌||◌, ◌&&◌, Option, none,
  some, List, length, drop, ◌++◌, u8, ltb, ◌==◌, if◌then◌else◌, if-cases,
}
use mathlib.Core.Path.{subst}
use nexus_embedded.Nv.Laws.{IsReliable}
use nexus_embedded.Util.Digits.{
  Digits, digits_init, digits_pull_uint8, digits_pull_uint32, digits_try_pull_uint32,
}
use nexus_embedded.Keycode.State.{
  Config, Product, PaygState, Stored, Device, passthrough_keycode, valid_duplicate, valid_applied,
  Applied,
}
use nexus_embedded.Keycode.MessageIds.{infer_full_message_id}
use nexus_embedded.Keycode.MessageIds.Infer.{infer_full_message_id_lem}
use nexus_embedded.Keycode.MessageIds.Memory.{IsDevice}
use nexus_embedded.Keycode.Pro.Process.{init_device, init_device_lem}
use nexus_embedded.Keycode.Pro.Growth.{
  IsGrown, IsGrown-refl, IsGrown-trans, emit-IsGrown, Later, Later-IsGrown,
}
use nexus_embedded.Keycode.Pro.Small.Laws.{IsInReach}
use nexus_embedded.Keycode.Pro.Small.Replay.{in_state}
use nexus_embedded.Keycode.Pro.Full.{
  FullMessage, full_apply, passthrough_command, activation_demo_code,
}
use nexus_embedded.Keycode.Pro.Full.Once.{is_activation, is_wipe, IsExpanded, full_apply-IsGrown}
use nexus_embedded.Keycode.Pro.Full.Replay.{full_applied_once_grown}
use nexus_embedded.Keycode.Pro.Full.Parse.{
  full_parse, full_parse_activation, full_parse_factory_and_passthrough, full_passthrough,
  full_parse_and_apply, full_apply_parsed, finish_activation, pull_activation_body,
  full_deinterleave, full_check_field_from_frame, check_character_count,
}

-- An ID that parsing expands lies in the window.
abbrev AllInReach : Stored → Option FullMessage → Type 0
AllInReach s none = Unit
AllInReach s (some m) = IsInReach s m.full_message_id

reach_if :
    (s : Stored) (b : Bool) (m : FullMessage)
    → IsInReach s m.full_message_id
    → AllInReach s (if b then some m else none)
reach_if s true m h = h
reach_if s false m h = tt

reach_unless :
    (s : Stored) (b : Bool) (o : Option FullMessage)
    → (b ≡ false → AllInReach s o)
    → AllInReach s (if b then none else o)
reach_unless s true o h = tt
reach_unless s false o h = h refl

finished-AllInReach :
    (s : Stored) (id type_code check : ℕ) (o : Option (ℕ × Digits))
    → IsInReach s id
    → AllInReach s (finish_activation id type_code check o)
finished-AllInReach s id type_code check none h = tt
finished-AllInReach s id type_code check (some (body, digits)) h =
    let d1 = (digits_pull_uint32 check_character_count digits).1 in
    reach_if s (d1.length == d1.position) _ h

full_parse_activation-AllInReach :
    (frame : List ℕ) (s : Stored)
    → 23 ≤ s.pd_index
    → s.pd_index ≤ 65494
    → AllInReach s (full_parse_activation frame s)
unfolding full_parse_activation
full_parse_activation-AllInReach frame s lo hi =
    let keys = full_deinterleave frame (full_check_field_from_frame frame) in
    let (type_code, s1) = digits_pull_uint8 1 (digits_init keys (length keys)) in
    let (id, s2) = digits_pull_uint8 2 s1 in
    reach_unless s (ltb 63 id) _ (λ e.
      let found = infer_full_message_id_lem id s.pd_index (ground (arith, e)) lo (omega arith) in
      finished-AllInReach s (infer_full_message_id id s.pd_index 23 40) type_code
        (full_check_field_from_frame frame) (pull_activation_body type_code s2)
        (record { from_bottom = found.0; fits = omega (arith, found.1, hi) }))

module _ {F : Type 0} (p : Product F) where
  -- Parsing a message that is no activation at most hands a command to the product.
  abbrev Handed : Device F → Option FullMessage × Device F → Type 0
  Handed d x = IsDevice p.nv d → IsGrown p.nv d x.1 × (x.1.stored ≡ d.stored)

  same : (d : Device F) → IsDevice p.nv d → IsGrown p.nv d d × (d.stored ≡ d.stored)
  same d v = (IsGrown-refl p.nv d v, refl)

  full_passthrough-Handed :
      (frame : List ℕ) (m : FullMessage) (d : Device F) → Handed d (full_passthrough p frame m d)
  unfolding full_passthrough
  full_passthrough-Handed frame m d =
      if-cases (Handed d) (ltb 2 (length frame) && not (length frame == 14)) _ _
        (λ _ v. (
          emit-IsGrown p.nv (passthrough_keycode (drop 1 frame)) d d (IsGrown-refl p.nv d v),
          refl,
        ))
        (λ _. same d)

  factory-Handed :
      (stray frame : List ℕ) (d : Device F)
      → Handed d (full_parse_factory_and_passthrough p stray frame d)
  unfolding full_parse_factory_and_passthrough
  factory-Handed stray frame d =
      let digits = digits_init (frame ++ stray) (length frame) in
      let type_code = u8 (digits_try_pull_uint32 1 false digits).0 in
      let serial_id_length = u8 (length frame + 255) in
      if-cases (Handed d) (ltb 30 (length frame)) _ _ (λ _. same d)
        (λ _.
          if-cases (Handed d) (ltb type_code 7) _ _ (λ _. same d)
            (λ _.
              if-cases (Handed d) (type_code == 7) _ _
                (λ _.
                  if-cases (Handed d) (ltb serial_id_length 8 || ltb 10 serial_id_length) _ _
                    (λ _. same d) (λ _. same d))
                (λ _.
                  if-cases (Handed d) (type_code == 8) _ _ (λ _. full_passthrough-Handed frame _ d)
                    (λ _. same d))))

-- What a frame parses to, if it does, is no wipe of the IDs, and is an activation message only if
-- the frame has all fourteen digits.
abbrev pub IsOrdinary : List ℕ → Option FullMessage → Type 0
IsOrdinary frame none = Unit
IsOrdinary frame (some m) =
    (is_wipe m ≡ false) × (((length frame == 14) || not (is_activation m)) ≡ true)

module _ {F : Type 0} (c : Config) (p : Product F) where
  -- What can happen to a device: an ordinary frame is handled, in whatever PAYG state the product
  -- then is, whether it parses or not; or the power is cycled.
  pub data FullFrameStep (d : Device F) : Device F → Type 0 where
    full_frame_applied :
        (stray frame : List ℕ) (s : PaygState)
        → IsOrdinary frame (full_parse (in_state p s) stray frame d).0
        → d.stored.pd_index ≤ 65494
        → FullFrameStep d (full_parse_and_apply c (in_state p s) stray frame d).1
    full_frame_power_cycled : FullFrameStep d (init_device p d)

  -- A parsed message of an ordinary frame has an ID in reach, if it is an activation message.
  abbrev Ready : List ℕ → Device F → Option FullMessage × Device F → Type 0
  Ready frame d (none, d1) = IsGrown p.nv d d1
  Ready frame d (some m, d1) =
      IsGrown p.nv d d1
      × (((length frame == 14) || not (is_activation m)) ≡ true → IsExpanded m d1.stored)

  module _ (r : IsReliable p.nv) where
    activation-Ready :
        (frame : List ℕ) (d : Device F) (o : Option FullMessage)
        → IsDevice p.nv d
        → AllInReach d.stored o
        → Ready frame d (o, d)
    activation-Ready frame d none v h = IsGrown-refl p.nv d v
    activation-Ready frame d (some m) v h = (IsGrown-refl p.nv d v, λ _ _. h)

    other-Ready :
        (frame : List ℕ) (d : Device F) (x : Option FullMessage × Device F)
        → (length frame == 14) ≡ false
        → IsGrown p.nv d x.1
        → Ready frame d x
    other-Ready frame d (none, d1) e g = g
    other-Ready frame d (some m, d1) e g = (g, λ ok a. absurd (ground (arith, e, ok, a)))

    full_parse-Ready :
        (s : PaygState) (stray frame : List ℕ) (d : Device F)
        → IsDevice p.nv d
        → d.stored.pd_index ≤ 65494
        → Ready frame d (full_parse (in_state p s) stray frame d)
    unfolding full_parse
    full_parse-Ready s stray frame d v hi = by_length (length frame == 14) refl
      where
        by_length :
            (b : Bool)
            → (length frame == 14) ≡ b
            → Ready frame d (
                if b
                then (full_parse_activation frame d.stored, d)
                else full_parse_factory_and_passthrough (in_state p s) stray frame d)
        by_length true e =
            activation-Ready frame d (full_parse_activation frame d.stored) v
              (full_parse_activation-AllInReach frame d.stored v.valid.pd_low hi)
        by_length false e =
            other-Ready frame d (full_parse_factory_and_passthrough (in_state p s) stray frame d) e
              (factory-Handed (in_state p s) stray frame d v).0

    full_apply_parsed-IsGrown :
        (s : PaygState) (frame : List ℕ) (d : Device F) (x : Option FullMessage × Device F)
        → Ready frame d x
        → IsOrdinary frame x.0
        → IsGrown p.nv d (full_apply_parsed c (in_state p s) x).1
    unfolding full_apply_parsed
    full_apply_parsed-IsGrown s frame d (none, d1) g o = g
    full_apply_parsed-IsGrown s frame d (some m, d1) g o =
        if-cases Good (m.type_code == passthrough_command) _ _ (λ _. g.0)
          (λ _.
            IsGrown-trans p.nv d d1 _ g.0
              (full_apply-IsGrown c (in_state p s) r d1 g.0.device m (g.1 o.1) o.0))
      where
        Good : Applied F → Type 0
        Good a = IsGrown p.nv d a.1

    pub FullFrameStep-IsGrown :
        (d1 d2 : Device F) → IsDevice p.nv d1 → FullFrameStep d1 d2 → IsGrown p.nv d1 d2
    unfolding full_parse_and_apply
    FullFrameStep-IsGrown d1 d2 v (full_frame_applied stray frame s o hi) =
        full_apply_parsed-IsGrown s frame d1 (full_parse (in_state p s) stray frame d1)
          (full_parse-Ready s stray frame d1 v hi) o
    FullFrameStep-IsGrown d1 d2 v full_frame_power_cycled =
        rw (init_device_lem p d1 v) (IsGrown-refl p.nv d1 v)

    parsed_apply :
        (s : PaygState) (stray frame : List ℕ) (m : FullMessage) (d : Device F)
        → length frame ≡ 14
        → full_parse_activation frame d.stored ≡ some m
        → is_activation m ≡ true
        → full_parse_and_apply c (in_state p s) stray frame d ≡ full_apply c (in_state p s) m d
    unfolding full_parse_and_apply full_parse full_apply_parsed
    parsed_apply s stray frame m d n e a =
        let other : (m.type_code == passthrough_command) ≡ false = ground (arith, a) in
        rw n (rw e (rw other refl))

    parsed-IsInReach :
        (frame : List ℕ) (m : FullMessage) (d : Device F)
        → IsDevice p.nv d
        → d.stored.pd_index ≤ 65494
        → full_parse_activation frame d.stored ≡ some m
        → IsInReach d.stored m.full_message_id
    parsed-IsInReach frame m d v hi e =
        subst (AllInReach d.stored) e
          (full_parse_activation-AllInReach frame d.stored v.valid.pd_low hi)

    -- A fourteen-digit frame of the full protocol that parses to an activation message, neither a
    -- demo code nor a wipe of the IDs, and is applied by a proper device takes effect once: after
    -- any further frames, unparsable, factory and passthrough ones included, and any power cycles,
    -- in any PAYG states, the same frame, if it parses to the same message, answers VALID_DUPLICATE
    -- and leaves the device as it is. The further frames parse to no wipe of the IDs, and to an
    -- activation message only if they have fourteen digits; Pd is at most 65494 whenever a frame
    -- comes in.
    pub full_frame_applied_once :
        (stray stray2 frame : List ℕ) (m : FullMessage) (d : Device F)
        → IsDevice p.nv d
        → d.stored.pd_index ≤ 65494
        → length frame ≡ 14
        → full_parse_activation frame d.stored ≡ some m
        → is_activation m ≡ true
        → (m.type_code == activation_demo_code) ≡ false
        → is_wipe m ≡ false
        → (full_parse_and_apply c p stray frame d).0 ≡ valid_applied
        → (d2 : Device F) → Later FullFrameStep (full_parse_and_apply c p stray frame d).1 d2
        → d2.stored.pd_index ≤ 65494
        → full_parse_activation frame d2.stored ≡ some m
        → (s : PaygState)
        → full_parse_and_apply c (in_state p s) stray2 frame d2 ≡ (valid_duplicate, d2)
    full_frame_applied_once stray stray2 frame m d v hi n e a demo w ok d2 later hi2 e2 s =
        let as_one = parsed_apply p.payg_state stray frame m d n e a in
        let x = parsed-IsInReach frame m d v hi e in
        let grown = full_apply-IsGrown c p r d v m (λ _. x) w in
        let from = subst (λ q. Later FullFrameStep q.1 d2) as_one later in
        let g2 = Later-IsGrown FullFrameStep-IsGrown grown.device from in
        parsed_apply s stray2 frame m d2 n e2 a
        ∙ full_applied_once_grown c p r m a demo w d v x (sym (ap (λ q. q.0) as_one) ∙ ok) d2 g2
            (parsed-IsInReach frame m d2 g2.device hi2 e2) s
