-- ===== src/Tests/Ids.antt =====
-- Message IDs of a new device: `Pd` is 23, and none of the IDs 0 to 23 is used.
use nexus_embedded.Base.{ℕ, ◌+◌, ◌%◌, ◌≤◌, ◌≡◌, refl, arith, false, ◌&&◌, leb, ltb, ◌==◌}
use nexus_embedded.Keycode.MessageIds.{
  infer_full_message_id, get_full_message_id_flag, set_full_message_id_flag, mask_below_message_id,
  increase_pd_and_shift_window_right, update_nv_blocks,
}
use nexus_embedded.Keycode.MessageIds.Window.{used}
use nexus_embedded.Keycode.MessageIds.Shift.{IsShifted, increase_pd-IsShifted}
use nexus_embedded.Keycode.MessageIds.Receive.{IsMarked, get_full_message_id_flag_eq}
use nexus_embedded.Keycode.MessageIds.Marking.{
  set_now, set_full_message_id_flag-IsMarked, mask_below_message_id-IsMarked,
}
use nexus_embedded.Keycode.MessageIds.Infer.{infer_full_message_id_lem}
use nexus_embedded.Keycode.MessageIds.Corners.{
  below-set_full_message_id_flag, bottom-mask_below_message_id,
}
use nexus_embedded.Tests.Devices.{
  memory, memory_reliable, product, new_device, new_device-IsDevice, used_device,
  used_device-IsDevice,
}

set_flag_example :
    IsMarked memory (set_now 30) new_device (set_full_message_id_flag product 30 new_device)
set_flag_example =
    set_full_message_id_flag-IsMarked product memory_reliable 30 new_device new_device-IsDevice
      (omega arith) (omega arith)

mask_below_example :
    IsMarked memory (λ j. ltb j 12) new_device (mask_below_message_id product 12 new_device)
mask_below_example =
    mask_below_message_id-IsMarked product memory_reliable 12 new_device new_device-IsDevice
      (omega arith) (omega arith) (omega arith)

infer_example :
    (30 ≤ infer_full_message_id 5 30 23 40 + 23)
    × (infer_full_message_id 5 30 23 40 ≤ 30 + 40)
    × (infer_full_message_id 5 30 23 40 % 64 ≡ 5)
    × ((t : ℕ) → 30 ≤ t + 23 → t ≤ 30 + 40 → t % 64 ≡ 5 → infer_full_message_id 5 30 23 40 ≡ t)
infer_example = infer_full_message_id_lem 5 30 (omega arith) (omega arith) (omega arith)

get_flag_example :
    get_full_message_id_flag product 20 new_device
    ≡ ((leb new_device.stored.pd_index (20 + 23) && used new_device.stored 20), new_device)
get_flag_example =
    get_full_message_id_flag_eq product memory_reliable new_device 20 new_device-IsDevice
      (omega arith)

shift_example :
    IsShifted product memory_reliable 4 new_device
      (increase_pd_and_shift_window_right product 4 new_device)
shift_example =
    increase_pd-IsShifted product memory_reliable 4 new_device new_device-IsDevice (omega arith)

below_window_example :
    ((get_full_message_id_flag product 10 used_device).0 ≡ false)
    × IsMarked memory
        (λ j. used_device.stored.pd_index == j)
        used_device
        (set_full_message_id_flag product 10 used_device)
below_window_example =
    below-set_full_message_id_flag product memory_reliable 10 used_device used_device-IsDevice
      (unfold update_nv_blocks in omega arith)

bottom_of_window_example :
    IsMarked memory
      (λ j. leb j used_device.stored.pd_index)
      used_device
      (mask_below_message_id product 37 used_device)
bottom_of_window_example =
    bottom-mask_below_message_id product memory_reliable 37 used_device used_device-IsDevice
      (omega arith) (unfold update_nv_blocks in refl)
