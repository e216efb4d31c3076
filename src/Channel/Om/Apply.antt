-- ===== src/Channel/Om/Apply.antt =====
-- What an origin command does to a controller, and that no command is applied twice.
use nexus_embedded.Base.{
  ℕ, ◌+◌, ◌-◌, ◌≤◌, ◌<◌, ◌≡◌, refl, ap, ◌∙◌, Bool, true, false, ◌||◌, ltb, ◌==◌, arith, Bool-cases,
  ◌⊎◌, inl, inr,
}
use nexus_embedded.Nv.Laws.{IsReliable}
use nexus_embedded.Util.Bitset.Laws.{contains-count}
use nexus_embedded.Util.Window.{Window, set_id_flag}
use nexus_embedded.Util.Window.Laws.{IsWindow, marked, in_window, id_flag_already_set_lem}
use nexus_embedded.Util.Window.Set.{IsFlagSet, set_id_flag_lem}
use nexus_embedded.Channel.Om.{
  OmMessage, OmStored, Controller, OmState, om_window, om_record, apply_origin_command,
  om_apply_inferred, om_apply_message, infer_fields_compute_auth,
}
use nexus_embedded.Channel.Om.Memory.{
  IsOmStored, IsOmState, is_used, om_window-IsWindow, om_load_eq, written-IsOmState,
}
use nexus_embedded.Channel.Om.Infer.{
  IsFirstCommand, infer_fields_compute_auth-IsFirst, inner_auth_id,
}

module _ {F C : Type 0} (k : Controller F C) where
  -- The state after the command `id` was recorded: exactly it is used besides, with the IDs that it
  -- pushes out of the window.
  pub record HasRecorded (id : ℕ) (s s' : OmState F C) : Type 0 where
    pub state : IsOmState k s'
    pub uses :
        (j : ℕ)
        → j < 4294967296
        → is_used s'.stored j ≡ ((j == id) || is_used s.stored j || ltb (j + 31) id)
    pub channel : s'.channel ≡ s.channel

  module _ (r : IsReliable k.nv) where
    -- The window that is built over the changed flags and index is the changed window.
    rebuilt :
        (stored : OmStored) (ok : IsWindow (om_window stored)) (id : ℕ) (w' : Window)
        → IsFlagSet (om_window stored) ok id w'
        → (j : ℕ)
        → is_used (record { command_index = w'.center_index; received_ids = w'.flags.bytes }) j
          ≡ marked w' j
    unfolding om_window
    rebuilt stored ok id w' set j =
        let at = j + 31 - w'.center_index in
        let flags = contains-count w'.flags.bytes 4 w'.flags.bytes_count at in
        let below : w'.flags_below ≡ 31 = set.below_same in rw below (ground (arith, flags))

    om_record-HasRecorded :
        (id : ℕ) (s : OmState F C)
        → IsOmState k s
        → s.stored.command_index ≤ id + 31
        → id ≤ s.stored.command_index + 8
        → s.stored.command_index ≤ 4294967279
        → HasRecorded id s (om_record k id s)
    unfolding om_record
    om_record-HasRecorded id s v low high big =
        let w = om_window s.stored in
        let ok = om_window-IsWindow s.stored v.valid in
        let within : in_window w id ≡ true = unfold om_window in ground arith in
        let marked_now = (set_id_flag_lem w ok id within (unfold om_window in omega arith)).1 in
        let w' = (set_id_flag w id).1 in
        let stored1 : OmStored = record {
          command_index = w'.center_index;
          received_ids = w'.flags.bytes;
        } in
        let center = marked_now.center in
        let valid1 : IsOmStored stored1 = record {
          four = marked_now.length_same ∙ (unfold om_window in v.valid.four);
          are_bytes = marked_now.window.are_bytes;
          low = unfold om_window in ground (arith, center, v.valid.low);
          high = unfold om_window in ground (arith, center, big, high);
        } in
        record {
          state = written-IsOmState k (record s { stored = stored1 }) r valid1 v.intact;
          uses = λ j h.
              rebuilt s.stored ok id w' marked_now j
              ∙ marked_now.marks j h
              ∙ (unfold om_window in refl);
          channel = refl;
        }

    -- What the inference found for a command in a state.
    abbrev pub found_for : OmMessage → OmState F C → Bool × OmMessage
    found_for m s = infer_fields_compute_auth m (om_window s.stored) k.origin_key

    -- The channel's part of the state after the command was carried out, and whether it was.
    abbrev pub carried_out : OmMessage → OmState F C → Bool × C
    carried_out found s = apply_origin_command k found s.channel

    -- What applying makes of a state: nothing where no unused ID authenticates the command. A
    -- command that is found but that the link modules do not carry out is not recorded.
    abbrev pub OmOutcome : OmState F C → Bool × OmMessage → Bool × OmState F C → Type 0
    OmOutcome s (false, found) a = a ≡ (false, s)
    OmOutcome s (true, found) a =
        (is_used s.stored found.computed_command_id ≡ false)
        × (s.stored.command_index ≤ found.computed_command_id + 31)
        × (found.computed_command_id ≤ s.stored.command_index + 8)
        × (((a.0 ≡ true)
              × ((carried_out found s).0 ≡ true)
              × HasRecorded found.computed_command_id
                  (record s { channel = (carried_out found s).1 }) a.1)
            ⊎ (((carried_out found s).0 ≡ false)
                × (a ≡ (false, record s { channel = (carried_out found s).1 }))))

    with_channel-IsOmState :
        (c : C) (s : OmState F C) → IsOmState k s → IsOmState k (record s { channel = c })
    with_channel-IsOmState c s v = record {
      valid = v.valid;
      synced = v.synced;
      intact = v.intact;
      restart = v.restart;
    }

    om_apply_inferred-OmOutcome :
        (m : OmMessage) (s : OmState F C) (x : Bool × OmMessage)
        → IsOmState k s
        → s.stored.command_index ≤ 4294967279
        → IsFirstCommand
            (om_window s.stored)
            k.origin_key
            m
            (s.stored.command_index - 31)
            (s.stored.command_index + 8)
            x
        → OmOutcome s x (om_apply_inferred k s x)
    unfolding om_apply_inferred
    om_apply_inferred-OmOutcome m s (false, found) v big f = refl
    om_apply_inferred-OmOutcome m s (true, found) v big f =
        let same : found.computed_command_id ≡ f.0 =
          ap (λ t. t.computed_command_id) f.1 ∙ inner_auth_id m.body _ k.origin_key in
        let id = found.computed_command_id in
        let low : s.stored.command_index ≤ id + 31 = omega (arith, f.2, same) in
        let high : id ≤ s.stored.command_index + 8 = omega (arith, f.3, same) in
        let flag =
          id_flag_already_set_lem (om_window s.stored) f.0 (om_window-IsWindow s.stored v.valid) in
        let fresh_id : is_used s.stored f.0 ≡ false =
          unfold om_window in ground (arith, f.4, flag, f.2) in
        let s1 = record s { channel = (carried_out found s).1 } in
        (
          rw same fresh_id,
          low,
          high,
          elim (Bool-cases (carried_out found s).0) [
            | inl e ↦ rw e (
                inl (
                  refl,
                  refl,
                  om_record-HasRecorded id s1 (with_channel-IsOmState _ s v) low high big,
                ))
            | inr e ↦ rw e (inr (refl, refl))
          ],
        )

    -- On a proper controller whose window has its center at 4294967279 or below, applying an origin
    -- command does one of three things. If no command ID was found for it, it reports false and
    -- changes nothing. If one was, it lies in the window and was not used, and the command is
    -- carried out in the channel: if that succeeds, the answer is true and exactly that ID is used
    -- besides, with those it pushes out of the window, in memory too; if not, the answer is false
    -- and only the channel can have changed.
    pub om_apply_message-OmOutcome :
        (m : OmMessage) (s : OmState F C)
        → IsOmState k s
        → s.stored.command_index ≤ 4294967279
        → OmOutcome s (found_for m s) (om_apply_message k m s)
    unfolding om_apply_message
    om_apply_message-OmOutcome m s v big = rw (om_load_eq k s v) (
        om_apply_inferred-OmOutcome m s (found_for m s) v big (
          unfold om_window in
          infer_fields_compute_auth-IsFirst (om_window s.stored) k.origin_key m
            (om_window-IsWindow s.stored v.valid) (omega (arith, big))))
