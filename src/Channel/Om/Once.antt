-- ===== src/Channel/Om/Once.antt =====
-- No origin command takes effect twice under one command ID, through any history.
use nexus_embedded.Base.{
  ℕ, ◌≤◌, ◌<◌, ◌≡◌, ◌≢◌, sym, ap, ◌∙◌, Bool, true, false, not, Option, none, some, List, length,
  ltb, arith, if-cases, ◌⊎◌, inl, inr,
}
use mathlib.Core.Path.{subst}
use nexus_embedded.Nv.Laws.{IsReliable}
use nexus_embedded.Channel.Om.{OmMessage, Controller, OmState, om_init, om_apply_message}
use nexus_embedded.Channel.Om.Memory.{IsOmState, is_used, om_init_eq}
use nexus_embedded.Channel.Om.Parse.{
  om_parse_message, om_apply_parsed, handle_ascii_origin_command, handle_origin_command,
  all_ascii_digits,
}
use nexus_embedded.Channel.Om.Apply.{
  OmOutcome, HasRecorded, found_for, carried_out, om_apply_message-OmOutcome,
}

module _ {F C : Type 0} (k : Controller F C) where
  -- `s'` is a proper state that knows of every command ID that `s` knows of.
  pub record IsOmGrown (s s' : OmState F C) : Type 0 where
    pub state : IsOmState k s'
    pub keeps : (j : ℕ) → j < 4294967296 → is_used s.stored j ≡ true → is_used s'.stored j ≡ true

  IsOmGrown-refl : (s : OmState F C) → IsOmState k s → IsOmGrown s s
  IsOmGrown-refl s v = record { state = v; keeps = λ j h u. u }

  IsOmGrown-trans : (s s1 s2 : OmState F C) → IsOmGrown s s1 → IsOmGrown s1 s2 → IsOmGrown s s2
  IsOmGrown-trans s s1 s2 a b = record {
    state = b.state;
    keeps = λ j h u. b.keeps j h (a.keeps j h u);
  }

  with_channel-IsOmGrown :
      (c : C) (s : OmState F C) → IsOmState k s → IsOmGrown s (record s { channel = c })
  with_channel-IsOmGrown c s v = record {
    state = record { valid = v.valid; synced = v.synced; intact = v.intact; restart = v.restart };
    keeps = λ j h u. u;
  }

  -- What can happen: a command comes in, in any bytes and on any bearer; the power is cycled; or the
  -- rest of the channel changes.
  pub data OmStep (s : OmState F C) : OmState F C → Type 0 where
    command_handled :
        (is_ascii_bearer : Bool) (stray command_data : List ℕ)
        → s.stored.command_index ≤ 4294967279
        → OmStep s (handle_origin_command k is_ascii_bearer stray command_data s).1
    om_power_cycled : OmStep s (om_init k s)
    channel_changed : (c : C) → OmStep s (record s { channel = c })

  pub data OmLater (s : OmState F C) : OmState F C → Type 0 where
    same_state : OmLater s s
    one_more : {s1 s2 : OmState F C} → OmLater s s1 → OmStep s1 s2 → OmLater s s2

  module _ (r : IsReliable k.nv) where
    OmOutcome-IsOmGrown :
        (s : OmState F C) (x : Bool × OmMessage) (a : Bool × OmState F C)
        → IsOmState k s
        → OmOutcome k r s x a
        → IsOmGrown s a.1
    OmOutcome-IsOmGrown s (false, found) a v o =
        subst (λ b. IsOmGrown s b.1) (sym o) (IsOmGrown-refl s v)
    OmOutcome-IsOmGrown s (true, found) a v o = done o.3
      where
        done :
            ((a.0 ≡ true)
                × ((carried_out k r found s).0 ≡ true)
                × HasRecorded k found.computed_command_id
                    (record s { channel = (carried_out k r found s).1 })
                    a.1)
              ⊎ (((carried_out k r found s).0 ≡ false)
                  × (a ≡ (false, record s { channel = (carried_out k r found s).1 })))
            → IsOmGrown s a.1
        done (inl h) = record {
          state = h.2.state;
          keeps = λ j b u. ground (arith, h.2.uses j b, u);
        }
        done (inr h) = subst (λ b. IsOmGrown s b.1) (sym h.1) (with_channel-IsOmGrown _ s v)

    om_apply_message-IsOmGrown :
        (m : OmMessage) (s : OmState F C)
        → IsOmState k s
        → s.stored.command_index ≤ 4294967279
        → IsOmGrown s (om_apply_message k m s).1
    om_apply_message-IsOmGrown m s v big =
        OmOutcome-IsOmGrown s (found_for k r m s) _ v (om_apply_message-OmOutcome k r m s v big)

    om_apply_parsed-IsOmGrown :
        (s : OmState F C) (o : Option OmMessage)
        → IsOmState k s
        → s.stored.command_index ≤ 4294967279
        → IsOmGrown s (om_apply_parsed k s o).1
    unfolding om_apply_parsed
    om_apply_parsed-IsOmGrown s none v big = IsOmGrown-refl s v
    om_apply_parsed-IsOmGrown s (some m) v big = om_apply_message-IsOmGrown m s v big

    handle_origin_command-IsOmGrown :
        (is_ascii_bearer : Bool) (stray command_data : List ℕ) (s : OmState F C)
        → IsOmState k s
        → s.stored.command_index ≤ 4294967279
        → IsOmGrown s (handle_origin_command k is_ascii_bearer stray command_data s).1
    unfolding handle_origin_command handle_ascii_origin_command
    handle_origin_command-IsOmGrown false stray command_data s v big = IsOmGrown-refl s v
    handle_origin_command-IsOmGrown true stray command_data s v big =
        if-cases Good (ltb 20 (length command_data)) _ _ (λ _. IsOmGrown-refl s v)
          (λ _.
            if-cases Good (not (all_ascii_digits command_data)) _ _ (λ _. IsOmGrown-refl s v)
              (λ _. om_apply_parsed-IsOmGrown s (om_parse_message stray command_data) v big))
      where
        Good : Bool × OmState F C → Type 0
        Good a = IsOmGrown s a.1

    OmStep-IsOmGrown : (s1 s2 : OmState F C) → IsOmState k s1 → OmStep s1 s2 → IsOmGrown s1 s2
    OmStep-IsOmGrown s1 s2 v (command_handled bearer stray command_data big) =
        handle_origin_command-IsOmGrown bearer stray command_data s1 v big
    OmStep-IsOmGrown s1 s2 v om_power_cycled = rw (om_init_eq k s1 v) (IsOmGrown-refl s1 v)
    OmStep-IsOmGrown s1 s2 v (channel_changed c) = with_channel-IsOmGrown c s1 v

    -- Through any history, a proper controller stays proper and forgets no used command ID.
    pub OmLater-IsOmGrown : {s s' : OmState F C} → IsOmState k s → OmLater s s' → IsOmGrown s s'
    OmLater-IsOmGrown {s} v same_state = IsOmGrown-refl s v
    OmLater-IsOmGrown {s} v (one_more {s1} {s2} l st) =
        let g = OmLater-IsOmGrown v l in
        IsOmGrown-trans s s1 s2 g (OmStep-IsOmGrown s1 s2 g.state st)

    abbrev pub command_id : OmMessage → OmState F C → ℕ
    command_id m s = (found_for k r m s).1.computed_command_id

    module _ (m : OmMessage) (s : OmState F C) (v : IsOmState k s)
        (big : s.stored.command_index ≤ 4294967279)
        (applied : (om_apply_message k m s).0 ≡ true) where
      applied_uses :
          (x : Bool × OmMessage) (a : Bool × OmState F C)
          → OmOutcome k r s x a
          → a.0 ≡ true
          → (is_used s.stored x.1.computed_command_id ≡ false)
            × (x.1.computed_command_id < 4294967296)
            × (is_used a.1.stored x.1.computed_command_id ≡ true)
      applied_uses (false, found) a o e = absurd (clash (sym (ap (λ b. b.0) o) ∙ e))
        where
          clash : false ≡ true → ⊥
          clash q = cc
      applied_uses (true, found) a o e = (o.0, omega (arith, o.2, big), done o.3)
        where
          id : ℕ
          id = found.computed_command_id

          done :
              ((a.0 ≡ true)
                  × ((carried_out k r found s).0 ≡ true)
                  × HasRecorded k id (record s { channel = (carried_out k r found s).1 }) a.1)
                ⊎ (((carried_out k r found s).0 ≡ false)
                    × (a ≡ (false, record s { channel = (carried_out k r found s).1 })))
              → is_used a.1.stored id ≡ true
          done (inl h) = ground (arith, h.2.uses id, o.2, big)
          done (inr h) = ground (arith, ap (λ b. b.0) h.1, e)

      pub applied_command :
          (is_used s.stored (command_id m s) ≡ false)
          × (command_id m s < 4294967296)
          × (is_used (om_apply_message k m s).1.stored (command_id m s) ≡ true)
      applied_command =
          applied_uses (found_for k r m s) (om_apply_message k m s)
            (om_apply_message-OmOutcome k r m s v big) applied

    -- No origin command takes effect twice under one command ID: if a proper controller applied a
    -- command, and one is applied after any further commands, in any bytes and on any bearer, any
    -- power cycles and any changes of the rest of the channel, the second has another command ID
    -- than the first. The center of the window is at most 4294967279 whenever a command comes in.
    pub commands_differ :
        (m m2 : OmMessage) (s s2 : OmState F C)
        → IsOmState k s
        → s.stored.command_index ≤ 4294967279
        → (om_apply_message k m s).0 ≡ true
        → OmLater (om_apply_message k m s).1 s2
        → s2.stored.command_index ≤ 4294967279
        → (om_apply_message k m2 s2).0 ≡ true
        → command_id m s ≢ command_id m2 s2
    commands_differ m m2 s s2 v big e later big2 e2 same =
        let first = applied_command m s v big e in
        let state = (om_apply_message-IsOmGrown m s v big).state in
        let g = OmLater-IsOmGrown state later in
        let second = applied_command m2 s2 g.state big2 e2 in
        let still = g.keeps (command_id m s) first.1 first.2 in
        let moved : is_used s2.stored (command_id m2 s2) ≡ true =
          subst (λ t. is_used s2.stored t ≡ true) same still in
        clash (sym moved ∙ second.0)
      where
        clash : true ≡ false → ⊥
        clash q = cc
