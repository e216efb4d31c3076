-- ===== src/Keycode/Pro/Small/Frames.antt =====
-- What a frame of the small protocol, as message assembly hands it over, can do to a device.
use nexus_embedded.Base.{
  ℕ, ◌≤◌, ◌<◌, ◌≡◌, refl, sym, ap, ◌∙◌, arith, true, false, not, ◌||◌, Option, none, some, List,
  length, ◌==◌, if-cases,
}
use mathlib.Core.Path.{subst}
use nexus_embedded.Keycode.Pro.Process.{init_device, init_device_lem}
use nexus_embedded.Keycode.Pro.Extended.{
  ExtendedMessage, set_credit_and_wipe_flag, extended_small_apply,
  small_internal_bitstream_passthrough,
}
use nexus_embedded.Keycode.Pro.Extended.Order.{
  passthrough-IsGrown, extended_small_apply-IsGrown, applies, applied_id, applied_in_order,
}
use nexus_embedded.Nv.Laws.{IsReliable}
use nexus_embedded.Util.Bitstream.{
  Bitstream, bitstream_init, set_bit_position, pull_uint8, pull_uint8-bound,
}
use nexus_embedded.Keycode.State.{
  Config, Product, PaygState, Stored, Device, invalid, valid_duplicate, valid_applied, no_response,
  Applied,
}
use nexus_embedded.Keycode.MessageIds.Infer.{infer_full_message_id_lem}
use nexus_embedded.Keycode.MessageIds.Memory.{IsDevice}
use nexus_embedded.Keycode.Pro.Growth.{IsGrown, IsGrown-refl, Later, Later-IsGrown}
use nexus_embedded.Keycode.Pro.Small.{
  SmallMessage, small_apply, add_credit_type, set_credit_type, passthrough_type,
}
use nexus_embedded.Keycode.Pro.Small.Once.{is_activation, is_wipe, IsExpanded, small_apply-IsGrown}
use nexus_embedded.Keycode.Pro.Small.Replay.{in_state, applied_once_grown}
use nexus_embedded.Keycode.Pro.Small.Parse.{
  message_digits, push_symbols, deobfuscate, read_message, small_parse, small_parse_and_apply,
  apply_parsed, extract_passthrough_message,
}

-- An expanded ID lies in the window: message by message, and for whatever a frame parses to.
read_message-IsExpanded :
    (s : Stored) (check : ℕ) (clear : Bitstream)
    → 23 ≤ s.pd_index
    → s.pd_index ≤ 65494
    → ((read_message s check clear).type_code == passthrough_type) ≡ false
    → IsExpanded (read_message s check clear) s
unfolding read_message
read_message-IsExpanded s check clear lo hi other a =
    let id = (pull_uint8 6 (set_bit_position 0 clear)).0 in
    let small : id ≤ 63 = pull_uint8-bound 6 (set_bit_position 0 clear) (omega arith) in
    let found = infer_full_message_id_lem id s.pd_index (omega arith) lo (omega arith) in
    let type_code = (pull_uint8 2 (pull_uint8 6 (set_bit_position 0 clear)).1).0 in
    let credit : ((type_code == add_credit_type) || (type_code == set_credit_type)) ≡ true =
      ground (arith, other, a) in
    record { from_bottom = rw credit found.0; fits = rw credit (omega (arith, found, hi)) }

abbrev pub AllExpanded : Stored → Option (SmallMessage × Bitstream) → Type 0
AllExpanded s none = Unit
AllExpanded s (some x) = (x.0.type_code == passthrough_type) ≡ false → IsExpanded x.0 s

pub small_parse-AllExpanded :
    (alphabet scratch frame : List ℕ) (s : Stored)
    → 23 ≤ s.pd_index
    → s.pd_index ≤ 65494
    → AllExpanded s (small_parse alphabet scratch frame s)
unfolding small_parse
small_parse-AllExpanded alphabet scratch frame s lo hi =
    if-cases (AllExpanded s) (not (length frame == message_digits)) none
      (elim (push_symbols alphabet frame 0 (bitstream_init scratch 32 0)) [
        | none ↦ none
        | some message ↦ some (
          read_message s (deobfuscate scratch message).0 (deobfuscate scratch message).1,
          (deobfuscate scratch message).1,
        )
      ])
      (λ _. tt) (λ _. each (push_symbols alphabet frame 0 (bitstream_init scratch 32 0)))
  where
    each :
        (o : Option Bitstream)
        → AllExpanded s (elim o [
          | none ↦ none
          | some message ↦ some (
            read_message s (deobfuscate scratch message).0 (deobfuscate scratch message).1,
            (deobfuscate scratch message).1,
          )
        ])
    each none = tt
    each (some message) =
        read_message-IsExpanded s (deobfuscate scratch message).0 (deobfuscate scratch message).1 lo
          hi

abbrev pub parse :
    {F : Type 0} (alphabet scratch frame : List ℕ) → Device F → Option (SmallMessage × Bitstream)
parse alphabet scratch frame d = small_parse alphabet scratch frame d.stored

-- `nexus_keycode_pro_small_parse_and_apply` with the passthrough that the module has.
unfoldable pub apply_frame :
    {F : Type 0} (alphabet scratch : List ℕ) (scratch_id : ℕ)
    → Config
    → Product F
    → (frame : List ℕ) → Device F
    → Applied F
apply_frame alphabet scratch scratch_id c p frame d =
    small_parse_and_apply c p alphabet scratch (small_internal_bitstream_passthrough p scratch_id)
      frame d

-- What a frame parses to, if it does, is no wipe of the IDs.
abbrev pub IsNoWipe : Option (SmallMessage × Bitstream) → Type 0
IsNoWipe none = Unit
IsNoWipe (some x) = is_wipe x.0 ≡ false

module _ {F : Type 0} (c : Config) (p : Product F) (alphabet scratch : List ℕ)
    (scratch_id : ℕ) where
  -- What can happen to a device: a frame is handled, in whatever PAYG state the product then is; it
  -- may be any frame, of the extended protocol too, that is no wipe of the IDs. Or the power is
  -- cycled.
  pub data FrameStep (d : Device F) : Device F → Type 0 where
    frame_applied :
        (frame : List ℕ) (s : PaygState)
        → IsNoWipe (parse alphabet scratch frame d)
        → d.stored.pd_index ≤ 65494
        → FrameStep d (apply_frame alphabet scratch scratch_id c (in_state p s) frame d).1
    frame_power_cycled : FrameStep d (init_device p d)

  parsed_apply :
      (s : PaygState) (frame : List ℕ) (m : SmallMessage) (clear : Bitstream) (d : Device F)
      → parse alphabet scratch frame d ≡ some (m, clear)
      → (m.type_code == passthrough_type) ≡ false
      → apply_frame alphabet scratch scratch_id c (in_state p s) frame d
        ≡ small_apply c (in_state p s) m d
  unfolding small_parse_and_apply apply_frame
  parsed_apply s frame m clear d e t =
      ap
        (apply_parsed c (in_state p s) scratch
          (small_internal_bitstream_passthrough (in_state p s) scratch_id) d)
        e
      ∙ unfold apply_parsed in (rw t refl)

  module _ (r : IsReliable p.nv) where
    apply_parsed-IsGrown :
        (s : PaygState) (d : Device F) (o : Option (SmallMessage × Bitstream))
        → IsDevice p.nv d
        → d.stored.pd_index ≤ 65494
        → AllExpanded d.stored o
        → IsNoWipe o
        → IsGrown p.nv d
            (apply_parsed c
              (in_state p s)
              scratch
              (small_internal_bitstream_passthrough (in_state p s) scratch_id)
              d
              o).1
    unfolding apply_parsed
    apply_parsed-IsGrown s d none v hi x w = IsGrown-refl p.nv d v
    apply_parsed-IsGrown s d (some (m, clear)) v hi x w =
        let bits =
          set_bit_position 0 (extract_passthrough_message (bitstream_init scratch 32 0) clear) in
        let handed = small_internal_bitstream_passthrough (in_state p s) scratch_id bits d in
        let g = passthrough-IsGrown (in_state p s) r scratch_id bits d v hi in
        if-cases Good (m.type_code == passthrough_type) _ _
          (λ _.
            if-cases Good handed.0 (no_response, handed.1) (invalid, handed.1) (λ _. g) (λ _. g))
          (λ t. small_apply-IsGrown c (in_state p s) r m d v (x t) w)
      where
        Good : Applied F → Type 0
        Good a = IsGrown p.nv d a.1

    FrameStep-IsGrown : (d1 d2 : Device F) → IsDevice p.nv d1 → FrameStep d1 d2 → IsGrown p.nv d1 d2
    unfolding apply_frame small_parse_and_apply
    FrameStep-IsGrown d1 d2 v (frame_applied frame s w hi) =
        apply_parsed-IsGrown s d1 (small_parse alphabet scratch frame d1.stored) v hi
          (small_parse-AllExpanded alphabet scratch frame d1.stored v.valid.pd_low hi) w
    FrameStep-IsGrown d1 d2 v frame_power_cycled =
        rw (init_device_lem p d1 v) (IsGrown-refl p.nv d1 v)

    parsed-IsExpanded :
        (frame : List ℕ) (m : SmallMessage) (clear : Bitstream) (d : Device F)
        → IsDevice p.nv d
        → d.stored.pd_index ≤ 65494
        → parse alphabet scratch frame d ≡ some (m, clear)
        → (m.type_code == passthrough_type) ≡ false
        → IsExpanded m d.stored
    parsed-IsExpanded frame m clear d v hi e t =
        subst (AllExpanded d.stored) e
          (small_parse-AllExpanded alphabet scratch frame d.stored v.valid.pd_low hi) t

    -- A frame of the small protocol that parses to an activation message, no passthrough, and is
    -- applied by a proper device takes effect once: after any further frames, unparsable ones and
    -- passthrough ones of the extended protocol included, that do not parse to a wipe of the IDs,
    -- and any power cycles, in any PAYG states, the same frame, if it parses to the same message,
    -- answers VALID_DUPLICATE and leaves the device as it is. Pd is at most 65494 whenever a frame
    -- comes in.
    pub frame_applied_once :
        (frame : List ℕ) (m : SmallMessage) (clear clear2 : Bitstream) (d : Device F)
        → IsDevice p.nv d
        → d.stored.pd_index ≤ 65494
        → parse alphabet scratch frame d ≡ some (m, clear)
        → is_activation m ≡ true
        → (m.type_code == passthrough_type) ≡ false
        → (apply_frame alphabet scratch scratch_id c p frame d).0 ≡ valid_applied
        → (d2 : Device F)
        → Later FrameStep (apply_frame alphabet scratch scratch_id c p frame d).1 d2
        → d2.stored.pd_index ≤ 65494
        → parse alphabet scratch frame d2 ≡ some (m, clear2)
        → (s : PaygState)
        → apply_frame alphabet scratch scratch_id c (in_state p s) frame d2 ≡ (valid_duplicate, d2)
    frame_applied_once frame m clear clear2 d v hi e a t ok d2 later hi2 e2 s =
        let same = parsed_apply p.payg_state frame m clear d e t in
        let x = parsed-IsExpanded frame m clear d v hi e t in
        let grown = small_apply-IsGrown c p r m d v x (ground (arith, a)) in
        let from = subst (λ q. Later FrameStep q.1 d2) same later in
        let g2 = Later-IsGrown FrameStep-IsGrown grown.device from in
        parsed_apply s frame m clear2 d2 e2 t
        ∙ applied_once_grown c p r m a d v (x a) (sym (ap (λ q. q.0) same) ∙ ok) d2 g2
            (parsed-IsExpanded frame m clear2 d2 g2.device hi2 e2 t a) s

    -- Extended messages are applied in the order of their IDs: if one was applied on a proper
    -- device, and one is applied after any further frames of the small protocol that do not parse
    -- to a wipe of the IDs and any power cycles, in any PAYG states, the ID inferred for the second
    -- is larger. Pd is at most 65494 at both messages and whenever a frame comes in.
    pub extended_in_order :
        (m m2 : ExtendedMessage) (d d2 : Device F)
        → IsDevice p.nv d
        → d.stored.pd_index ≤ 65494
        → m.type_code ≡ set_credit_and_wipe_flag
        → applies p r m d ≡ true
        → Later FrameStep (extended_small_apply p m d).1 d2
        → d2.stored.pd_index ≤ 65494
        → m2.type_code ≡ set_credit_and_wipe_flag
        → applies p r m2 d2 ≡ true
        → applied_id p r m d < applied_id p r m2 d2
    extended_in_order m m2 d d2 v hi t a later hi2 t2 a2 =
        let grown = extended_small_apply-IsGrown p r m d v hi t in
        applied_in_order p r m m2 d d2 v hi t a (Later-IsGrown FrameStep-IsGrown grown.device later)
          hi2 t2 a2
