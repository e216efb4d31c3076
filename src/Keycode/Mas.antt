-- ===== src/Keycode/Mas.antt =====
-- The message assembly module, nexus/src/nexus_keycode_mas.c: keys become frames, at a limited rate.
pub mod Bounds
pub mod Rate
pub mod Entry
use nexus_embedded.Base.{
  ℕ, zero, suc, ◌+◌, ◌-◌, ◌*◌, ◌/◌, ◌%◌, ◌≤◌, ◌<◌, ◌≡◌, Bool, true, false, ◌&&◌, ◌||◌, not, List,
  [], ◌∷◌, ◌++◌, length, get_or, u8, u32, u32_max, sub32, ltb, leb, ◌==◌, if◌then◌else◌,
}
use nexus_embedded.Keycode.State.{
  Config, Feedback, message_invalid, key_rejected, key_accepted, Event, feedback_start,
  request_processing,
}

-- What the module calls: the handler of complete frames that it is given, the product, and
-- nexus_nv.c for its block. `W` is the state that they act on.
pub record Env (W : Type 0) : Type 0 where
  pub handler : List ℕ → W → W
  pub call : Event → W → W
  pub nv_update : List ℕ → W → W
  pub nv_read : List ℕ → W → List ℕ

-- `NEXUS_KEYCODE_MAX_MESSAGE_LENGTH` and `NEXUS_KEYCODE_PROTOCOL_NO_STOP_LENGTH`.
abbrev pub max_message_length : ℕ
max_message_length = 30

abbrev pub no_stop_length : ℕ
no_stop_length = 255

abbrev pub idle_time_between_process_call_seconds : ℕ
idle_time_between_process_call_seconds = 240

-- `_this_core` and `_this_bookend`. Of the array of keys in `partial`, `partial` is the part that
-- its length says is in use.
pub record Mas (W : Type 0) : Type 0 where
  pub graceperiod_keycodes : ℕ
  pub pad : List ℕ
  pub partial : List ℕ
  pub max_length_exceeded : Bool
  pub rl_bucket : ℕ
  pub start_key : ℕ
  pub end_key : ℕ
  pub stop_length : ℕ
  pub start_seen : Bool
  pub latest_uptime : ℕ
  pub world : W

module _ {W : Type 0} (c : Config) (env : Env W) where
  abbrev pub call_out : Event → Mas W → Mas W
  call_out e m = record m { world = env.call e m.world }

  abbrev pub refill : ℕ
  refill = c.rate_limit_refill_seconds_per_attempt

  abbrev pub max_rate_limit_seconds : ℕ
  max_rate_limit_seconds = c.rate_limit_bucket_max * refill

  -- `nexus_keycode_rate_limit_add_time`.
  unfoldable pub rate_limit_add_time : ℕ → Mas W → Mas W
  rate_limit_add_time seconds_elapsed m =
      if ltb (u32_max - m.rl_bucket) seconds_elapsed
        || leb max_rate_limit_seconds (u32 (m.rl_bucket + seconds_elapsed))
      then record m { rl_bucket = max_rate_limit_seconds }
      else record m { rl_bucket = u32 (m.rl_bucket + seconds_elapsed) }

  -- `nx_keycode_is_rate_limited`.
  unfoldable pub is_rate_limited : Mas W → Bool
  is_rate_limited m = if c.rate_limit_bucket_max == 0 then false else ltb m.rl_bucket refill

  -- The loop of `nexus_keycode_rate_limit_attempts_remaining`; `fuel` rounds at most.
  unfoldable pub attempts_from : (fuel seconds_remaining : ℕ) → ℕ
  attempts_from zero seconds_remaining = 0
  attempts_from (suc fuel) seconds_remaining =
      let rest = attempts_from fuel (seconds_remaining - refill) in
      if leb refill seconds_remaining then suc rest else 0

  unfoldable pub rate_limit_attempts_remaining : Mas W → ℕ
  rate_limit_attempts_remaining m =
      if ltb 0 c.rate_limit_bucket_max then attempts_from m.rl_bucket m.rl_bucket else 0

  -- `nexus_keycode_rate_limit_deduct_msg`.
  unfoldable pub rate_limit_deduct_msg : Mas W → Mas W
  rate_limit_deduct_msg m =
      if ltb 0 c.rate_limit_bucket_max && leb refill m.rl_bucket
      then record m { rl_bucket = m.rl_bucket - refill }
      else m

  -- `nexus_keycode_mas_remaining_graceperiod_keycodes`.
  unfoldable pub remaining_graceperiod_keycodes : ℕ → Mas W → ℕ
  remaining_graceperiod_keycodes cur_rl_bucket_seconds m =
      if ltb 0 c.rate_limit_bucket_max
      then if leb (c.rate_limit_bucket_initial_count * refill) cur_rl_bucket_seconds
        then c.rate_limit_bucket_initial_count
        else u8 (rate_limit_attempts_remaining m)
      else 0

  -- `nexus_keycode_mas_graceperiod_keycodes_update_nv`.
  unfoldable pub graceperiod_keycodes_update_nv : ℕ → Mas W → Bool × Mas W
  graceperiod_keycodes_update_nv new_graceperiod_keycodes m =
      if new_graceperiod_keycodes == m.graceperiod_keycodes then (false, m) else (
        true,
        record m {
          graceperiod_keycodes = new_graceperiod_keycodes;
          world = env.nv_update (new_graceperiod_keycodes ∷ m.pad) m.world;
        },
      )

  -- `nexus_keycode_mas_reset` and `nexus_keycode_mas_bookend_reset`.
  unfoldable pub mas_reset : Mas W → Mas W
  mas_reset m = record m { partial = []; max_length_exceeded = false }

  unfoldable pub bookend_reset : Mas W → Mas W
  bookend_reset m = record m { start_seen = false }

  -- `nexus_keycode_mas_init`.
  unfoldable pub mas_init : Mas W → Mas W
  mas_init m =
      let stored = env.nv_read (c.rate_limit_bucket_initial_count ∷ m.pad) m.world in
      let graceperiod = get_or stored 0 0 in
      mas_reset (record m {
        graceperiod_keycodes = graceperiod;
        pad = get_or stored 1 0 ∷ get_or stored 2 0 ∷ get_or stored 3 0 ∷ [];
        rl_bucket = u32 (graceperiod * refill);
      })

  -- `nexus_keycode_mas_bookend_init`.
  unfoldable pub bookend_init : (start_key end_key stop_length : ℕ) → Mas W → Mas W
  bookend_init start_key end_key stop_length m =
      bookend_reset
        (record m { start_key = start_key; end_key = end_key; stop_length = stop_length })

  -- `nexus_keycode_mas_push`.
  unfoldable pub mas_push : ℕ → Mas W → Mas W
  mas_push key m =
      if ltb (length m.partial) max_message_length
      then record m { partial = m.partial ++ (key ∷ []) }
      else record m { max_length_exceeded = true }

  -- `nexus_keycode_mas_finish`.
  unfoldable pub mas_finish : Mas W → Mas W
  mas_finish m = mas_reset (
      rate_limit_deduct_msg (
        if ltb 0 (length m.partial) && not m.max_length_exceeded
        then record m { world = env.handler m.partial m.world }
        else call_out (feedback_start message_invalid) m))

  -- `nexus_keycode_has_reached_stop_length`.
  unfoldable pub has_reached_stop_length : Mas W → Bool
  has_reached_stop_length m =
      if m.stop_length == no_stop_length then false else leb m.stop_length (length m.partial)

  -- `nexus_keycode_mas_bookend_process`, at the uptime that nexus_common_internal.c reports.
  unfoldable pub mas_bookend_process : (uptime : ℕ) → Mas W → ℕ × Mas W
  mas_bookend_process uptime m =
      let latest = (if m.latest_uptime == u32_max then uptime else m.latest_uptime) in
      let m1 = record m { latest_uptime = latest } in
      let m2 =
        (if m.start_seen
          then if ltb c.entry_timeout_seconds (sub32 uptime latest)
            then mas_reset (bookend_reset m1)
            else m1
          else m) in
      (if m2.start_seen then 1 else idle_time_between_process_call_seconds, m2)

  -- `nexus_keycode_mas_process`.
  unfoldable pub mas_process : (uptime seconds_elapsed : ℕ) → Mas W → ℕ × Mas W
  mas_process uptime seconds_elapsed m =
      let m1 = rate_limit_add_time seconds_elapsed m in
      let graceperiod_count = remaining_graceperiod_keycodes m1.rl_bucket m1 in
      mas_bookend_process uptime (graceperiod_keycodes_update_nv graceperiod_count m1).1

  -- A key of a message that has begun.
  unfoldable pub push_in_message : ℕ → Mas W → Mas W
  push_in_message key m =
      let m1 = mas_push key m in
      if key == m.end_key
      then mas_finish (bookend_reset m)
      else if has_reached_stop_length m1
      then mas_finish (bookend_reset m1)
      else call_out (feedback_start key_accepted) m1

  -- `nexus_keycode_mas_bookend_push`.
  unfoldable pub mas_bookend_push : ℕ → Mas W → Mas W
  mas_bookend_push key m =
      let m1 = call_out request_processing (record m { latest_uptime = u32_max }) in
      if is_rate_limited m1
      then call_out (feedback_start key_rejected) m1
      else if key == m1.start_key
      then mas_reset (record (call_out (feedback_start key_accepted) m1) { start_seen = true })
      else if m1.start_seen
      then push_in_message key m1
      else call_out (feedback_start key_rejected) m1

  -- The loop of `nx_keycode_handle_complete_keycode` over the keys from the place `i` on.
  unfoldable pub push_keys : (count : ℕ) (keys : List ℕ) (i : ℕ) → Mas W → Mas W
  push_keys zero keys i m = m
  push_keys (suc count) keys i m =
      let m1 = mas_push (get_or keys i 0) m in
      let rest = push_keys count keys (suc i) m1 in if has_reached_stop_length m1 then m1 else rest

  -- `nx_keycode_handle_complete_keycode` once the module is initialised: `keys` is the array of the
  -- caller and `keycode_length` what it says of its length.
  unfoldable pub handle_complete_keycode :
      (is_small : Bool) (keys : List ℕ) (keycode_length : ℕ) → Mas W → Mas W
  handle_complete_keycode is_small keys keycode_length m =
      let last = (if is_small then keycode_length else u8 (keycode_length + 255)) in
      if is_rate_limited m
      then call_out (feedback_start message_invalid) m
      else if not (get_or keys 0 0 == m.start_key)
      then call_out (feedback_start message_invalid) m
      else mas_finish
          (bookend_reset (push_keys (last - 1) keys 1 (mas_reset (record m { start_seen = true }))))
