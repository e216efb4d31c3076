-- ===== src/Keycode/Core.antt =====
-- How the modules work together: nexus/src/nexus_keycode_core.c and the keycode side of
-- nexus/src/nexus_common_internal.c, with the entry points that a product calls.
pub mod Wiring
use nexus_embedded.Base.{
  ℕ, ◌+◌, ◌-◌, ◌≡◌, Bool, true, false, not, List, [], ◌∷◌, min, ltb, sub32, if◌then◌else◌,
}
use nexus_embedded.Nv.{block_keycode_mas, nv_read, nv_update}
use nexus_embedded.Keycode.State.{Config, Product, Device, emit, Event, request_processing, Applied}
use nexus_embedded.Keycode.Mas.{
  Env, Mas, idle_time_between_process_call_seconds, mas_init, bookend_init, mas_process,
  mas_bookend_push, handle_complete_keycode,
}
use nexus_embedded.Keycode.Pro.Process.{Pro, pro_init, pro_enqueue, pro_process}

-- `struct nexus_keycode_handling_config`, and which protocol it is for.
pub record HandlingConfig (F : Type 0) : Type 0 where
  pub parse_and_apply : List ℕ → Device F → Applied F
  pub stop_length : ℕ
  pub start_char : ℕ
  pub end_char : ℕ
  pub is_small : Bool

-- The static variables of nexus_keycode_core.c and nexus_common_internal.c, and those of the
-- modules below: assembly holds the rest as its world.
pub record System (F : Type 0) : Type 0 where
  pub uptime_s : ℕ
  pub common_init_completed : Bool
  pub pending_init : Bool
  pub core_init_completed : Bool
  pub mas : Mas (Pro F)

module _ {F : Type 0} (c : Config) (p : Product F) (h : HandlingConfig F) where
  abbrev on_device : (Device F → Device F) → Pro F → Pro F
  on_device f s = record s { device = f s.device }

  -- What assembly calls: complete frames go to `nexus_keycode_pro_enqueue`.
  abbrev pub mas_env : Env (Pro F)
  mas_env = record {
    handler = pro_enqueue;
    call = λ e s. on_device (emit e) s;
    nv_update = λ b s.
        on_device (λ d. record d { flash = (nv_update p.nv block_keycode_mas b d.flash).1 }) s;
    nv_read = λ b s. (nv_read p.nv block_keycode_mas b s.device.flash).1;
  }

  abbrev on_world : (Pro F → Pro F) → Mas (Pro F) → Mas (Pro F)
  on_world f m = record m { world = f m.world }

  -- `_nexus_keycode_core_internal_init`.
  unfoldable pub core_init : System F → System F
  core_init s =
      let m1 = on_world (pro_init p) s.mas in
      let m2 = mas_init c mas_env m1 in
      let m3 = bookend_init c mas_env h.start_char h.end_char h.stop_length m2 in
      record s { core_init_completed = true; mas = m3 }

  -- `nexus_keycode_core_process`.
  unfoldable pub core_process : (seconds_elapsed : ℕ) → System F → ℕ × System F
  core_process seconds_elapsed s =
      let (mas_sleep, m1) = mas_process c mas_env s.uptime_s seconds_elapsed s.mas in
      let (pro_sleep, w) = pro_process c h.parse_and_apply m1.world in
      (
        min (min idle_time_between_process_call_seconds mas_sleep) pro_sleep,
        record s { mas = record m1 { world = w } },
      )

  -- `nx_common_init`, with Nexus Channel compiled out.
  unfoldable pub common_init : (initial_uptime_s : ℕ) → System F → System F
  common_init initial_uptime_s s =
      let s1 = core_init (record s {
        uptime_s = initial_uptime_s;
        common_init_completed = false;
        pending_init = true;
      }) in
      record s1 { mas = on_world (on_device (emit request_processing)) s1.mas }

  -- `nx_common_process`, with Nexus Channel compiled out.
  unfoldable pub common_process : (uptime_seconds : ℕ) → System F → ℕ × System F
  common_process uptime_seconds s =
      let (core_sleep, s1) =
        core_process (uptime_seconds - s.uptime_s) (record s { uptime_s = uptime_seconds }) in
      if ltb uptime_seconds s.uptime_s then (0, s) else (
        min idle_time_between_process_call_seconds core_sleep,
        if s1.pending_init
            then record s1 { pending_init = false; common_init_completed = true }
            else s1,
      )

  -- `nx_keycode_handle_single_key` and `nx_keycode_handle_complete_keycode`.
  unfoldable pub handle_single_key : ℕ → System F → Bool × System F
  handle_single_key key s =
      if not s.core_init_completed
      then (false, s)
      else (true, record s { mas = mas_bookend_push c mas_env key s.mas })

  unfoldable pub handle_keycode : (keys : List ℕ) (keycode_length : ℕ) → System F → Bool × System F
  handle_keycode keys keycode_length s = if not s.core_init_completed then (false, s) else (
    true,
    record s { mas = handle_complete_keycode c mas_env h.is_small keys keycode_length s.mas },
  )
