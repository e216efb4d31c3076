-- ===== src/Keycode/Pro/Extended/Agree.antt =====
-- The window of nexus_util.c over the stored data against the keycode module's own functions.
use nexus_embedded.Base.{ℕ, ◌+◌, ◌≤◌, ◌≡◌, sym, ◌∙◌, ◌&&◌, arith, leb}
use nexus_embedded.Util.Window.{Window, id_within_window, id_flag_already_set}
use nexus_embedded.Util.Window.Laws.{
  IsWindow, marked, id_within_window_lem, id_flag_already_set_lem,
}
use nexus_embedded.Keycode.State.{Stored}
use nexus_embedded.Keycode.MessageIds.{is_message_id_within_window, message_id_flag}
use nexus_embedded.Keycode.MessageIds.Codec.{IsStored}
use nexus_embedded.Keycode.MessageIds.Window.{used, message_id_flag_eq}
use nexus_embedded.Keycode.Pro.Extended.{get_current_message_id_window}

abbrev pub current : Stored → Window
current s = get_current_message_id_window s

module _ (s : Stored) (v : IsStored s) where
  pub current-IsWindow : IsWindow (current s)
  unfolding get_current_message_id_window
  current-IsWindow = record {
    bytes_enough = omega arith;
    counted = omega (arith, v.five);
    short = omega (arith, v.five);
    small = omega arith;
    are_bytes = v.are_bytes;
    above_byte = omega arith;
    low = omega (arith, v.pd_low);
    high = omega (arith, v.pd_high);
  }

  pub marked-used : (id : ℕ) → marked (current s) id ≡ used s id
  unfolding get_current_message_id_window
  marked-used id = ground arith

  pub in_current :
      (id : ℕ)
      → id_within_window (current s) id ≡ (leb s.pd_index (id + 23) && leb id (s.pd_index + 40))
  in_current id =
      id_within_window_lem (current s) id current-IsWindow
      ∙ (unfold get_current_message_id_window in ground arith)

  pub already_set-used :
      (id : ℕ) → id_flag_already_set (current s) id ≡ (leb s.pd_index (id + 23) && used s id)
  already_set-used id =
      id_flag_already_set_lem (current s) id current-IsWindow
      ∙ (unfold get_current_message_id_window in ground (arith, marked-used id))

  -- Over the current window of well-formed stored data, the window functions of nexus_util.c and
  -- those of the keycode module answer alike for every 16-bit message ID: whether it lies in the
  -- window, and whether its flag is set.
  pub window_agrees :
      (id : ℕ)
      → id ≤ 65535
      → (id_within_window (current s) id ≡ is_message_id_within_window s id)
        × (id_flag_already_set (current s) id ≡ message_id_flag s id)
  window_agrees id h = (
    in_current id ∙ (unfold is_message_id_within_window in ground (arith, v.pd_low, v.pd_high)),
    already_set-used id ∙ sym (message_id_flag_eq s id v h),
  )
