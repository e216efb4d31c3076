-- ===== src/Keycode/Mas/Bounds.antt =====
-- Bounds of message assembly: the frame never outgrows its array, nor the bucket its maximum.
use nexus_embedded.Base.{
  ℕ, zero, suc, ◌+◌, ◌-◌, ◌≤◌, ◌≡◌, refl, arith, Bool, true, ◌&&◌, ◌||◌, not, List, [], ◌∷◌, length,
  length-append, get_or, ltb, leb, ◌==◌, u8, u32, u32_max, sub32, if◌then◌else◌, if-cases,
}
use nexus_embedded.Keycode.State.{
  Config, Event, feedback_start, request_processing, message_invalid,
}
use nexus_embedded.Keycode.Mas.{
  Env, Mas, max_message_length, call_out, refill, max_rate_limit_seconds, rate_limit_add_time,
  is_rate_limited, rate_limit_deduct_msg, remaining_graceperiod_keycodes,
  graceperiod_keycodes_update_nv, mas_reset, bookend_reset, mas_push, mas_finish,
  has_reached_stop_length, mas_bookend_process, mas_process, push_in_message, mas_bookend_push,
  push_keys, handle_complete_keycode,
}
use nexus_embedded.Keycode.Mas.Rate.{
  Input, key_pressed, keycode_entered, time_passed, handle, handle_all,
}

-- The frame fits its array, and the bucket holds at most `most` seconds.
pub record IsBounded {W : Type 0} (most : ℕ) (m : Mas W) : Type 0 where
  pub short : length m.partial ≤ max_message_length
  pub bucket : m.rl_bucket ≤ most

module _ {W : Type 0} (c : Config) (env : Env W) (most : ℕ) where
  abbrev Ok : Mas W → Type 0
  Ok m = IsBounded most m

  call_out-IsBounded : (e : Event) (m : Mas W) → Ok m → Ok (call_out c env e m)
  call_out-IsBounded e m v = record { short = v.short; bucket = v.bucket }

  bookend_reset-IsBounded : (m : Mas W) → Ok m → Ok (bookend_reset c env m)
  unfolding bookend_reset
  bookend_reset-IsBounded m v = record { short = v.short; bucket = v.bucket }

  mas_reset-IsBounded : (m : Mas W) → m.rl_bucket ≤ most → Ok (mas_reset c env m)
  unfolding mas_reset
  mas_reset-IsBounded m h = record { short = omega arith; bucket = h }

  push-IsBounded : (key : ℕ) (m : Mas W) → Ok m → Ok (mas_push c env key m)
  unfolding mas_push
  push-IsBounded key m v =
      if-cases Ok (ltb (length m.partial) max_message_length) _ _
        (λ e. record {
          short = rw (length-append m.partial (key ∷ [])) (ground (arith, e));
          bucket = v.bucket;
        })
        (λ _. record { short = v.short; bucket = v.bucket })

  push_keys-IsBounded :
      (n : ℕ) (keys : List ℕ) (i : ℕ) (m : Mas W) → Ok m → Ok (push_keys c env n keys i m)
  unfolding push_keys
  push_keys-IsBounded zero keys i m v = v
  push_keys-IsBounded (suc n) keys i m v =
      let m1 = mas_push c env (get_or keys i 0) m in
      let v1 = push-IsBounded (get_or keys i 0) m v in
      if-cases Ok (has_reached_stop_length c env m1) _ _ (λ _. v1)
        (λ _. push_keys-IsBounded n keys (suc i) m1 v1)

  deduct-bucket : (m : Mas W) → (rate_limit_deduct_msg c env m).rl_bucket ≤ m.rl_bucket
  unfolding rate_limit_deduct_msg
  deduct-bucket m =
      if-cases (λ (m' : Mas W). m'.rl_bucket ≤ m.rl_bucket)
        (ltb 0 c.rate_limit_bucket_max && leb (refill c env) m.rl_bucket) _ _ (λ _. omega arith)
        (λ _. omega arith)

  finish-IsBounded : (m : Mas W) → Ok m → Ok (mas_finish c env m)
  unfolding mas_finish
  finish-IsBounded m v =
      let handed = record m { world = env.handler m.partial m.world } in
      let refused = call_out c env (feedback_start message_invalid) m in
      if-cases (λ (m' : Mas W). Ok (mas_reset c env (rate_limit_deduct_msg c env m')))
        (ltb 0 (length m.partial) && not m.max_length_exceeded) handed refused
        (λ _. mas_reset-IsBounded _ (omega (arith, deduct-bucket handed, v.bucket)))
        (λ _. mas_reset-IsBounded _ (omega (arith, deduct-bucket refused, v.bucket)))

  in_message-IsBounded : (key : ℕ) (m : Mas W) → Ok m → Ok (push_in_message c env key m)
  unfolding push_in_message
  in_message-IsBounded key m v =
      let m1 = mas_push c env key m in
      let v1 = push-IsBounded key m v in
      if-cases Ok (key == m.end_key) _ _
        (λ _. finish-IsBounded (bookend_reset c env m) (bookend_reset-IsBounded m v))
        (λ _.
          if-cases Ok (has_reached_stop_length c env m1) _ _
            (λ _. finish-IsBounded (bookend_reset c env m1) (bookend_reset-IsBounded m1 v1))
            (λ _. call_out-IsBounded _ m1 v1))

  key-IsBounded : (key : ℕ) (m : Mas W) → Ok m → Ok (mas_bookend_push c env key m)
  unfolding mas_bookend_push
  key-IsBounded key m v =
      let m1 = call_out c env request_processing (record m { latest_uptime = u32_max }) in
      let v1 : Ok m1 = record { short = v.short; bucket = v.bucket } in
      if-cases Ok (is_rate_limited c env m1) _ _ (λ _. call_out-IsBounded _ m1 v1)
        (λ _.
          if-cases Ok (key == m1.start_key) _ _ (λ _. mas_reset-IsBounded _ v.bucket)
            (λ _.
              if-cases Ok m1.start_seen _ _ (λ _. in_message-IsBounded key m1 v1)
                (λ _. call_out-IsBounded _ m1 v1)))

  complete-IsBounded :
      (is_small : Bool) (keys : List ℕ) (n : ℕ) (m : Mas W)
      → Ok m
      → Ok (handle_complete_keycode c env is_small keys n m)
  unfolding handle_complete_keycode
  complete-IsBounded is_small keys n m v =
      let last = (if is_small then n else u8 (n + 255)) in
      let m1 = mas_reset c env (record m { start_seen = true }) in
      let pushed = push_keys c env (last - 1) keys 1 m1 in
      if-cases Ok (is_rate_limited c env m) _ _ (λ _. call_out-IsBounded _ m v)
        (λ _.
          if-cases Ok (not (get_or keys 0 0 == m.start_key)) _ _ (λ _. call_out-IsBounded _ m v)
            (λ _. finish-IsBounded (bookend_reset c env pushed) (
              bookend_reset-IsBounded pushed
                (push_keys-IsBounded (last - 1) keys 1 m1 (mas_reset-IsBounded _ v.bucket)))))

  grace-IsBounded : (n : ℕ) (m : Mas W) → Ok m → Ok (graceperiod_keycodes_update_nv c env n m).1
  unfolding graceperiod_keycodes_update_nv
  grace-IsBounded n m v =
      if-cases (λ (a : Bool × Mas W). Ok a.1) (n == m.graceperiod_keycodes) _ _ (λ _. v)
        (λ _. record { short = v.short; bucket = v.bucket })

  bookend_process-IsBounded :
      (uptime : ℕ) (m : Mas W) → Ok m → Ok (mas_bookend_process c env uptime m).1
  unfolding mas_bookend_process
  bookend_process-IsBounded uptime m v =
      let latest = (if m.latest_uptime == u32_max then uptime else m.latest_uptime) in
      if-cases Ok m.start_seen _ _
        (λ _.
          if-cases Ok (ltb c.entry_timeout_seconds (sub32 uptime latest)) _ _
            (λ _.
              mas_reset-IsBounded (bookend_reset c env (record m { latest_uptime = latest }))
                (unfold bookend_reset in v.bucket))
            (λ _. record { short = v.short; bucket = v.bucket }))
        (λ _. v)

-- Time fills the bucket to its maximum and no further, however full it was.
add_time-bucket :
    {W : Type 0} (c : Config) (env : Env W) (s : ℕ) (m : Mas W)
    → (rate_limit_add_time c env s m).rl_bucket ≤ max_rate_limit_seconds c env
unfolding rate_limit_add_time
add_time-bucket {W} c env s m =
    if-cases (λ (m' : Mas W). m'.rl_bucket ≤ max_rate_limit_seconds c env)
      (ltb (u32_max - m.rl_bucket) s || leb (max_rate_limit_seconds c env) (u32 (m.rl_bucket + s)))
      _ _ (λ _. omega arith) (λ e. ground (arith, e))

add_time-partial :
    {W : Type 0} (c : Config) (env : Env W) (s : ℕ) (m : Mas W)
    → (rate_limit_add_time c env s m).partial ≡ m.partial
unfolding rate_limit_add_time
add_time-partial {W} c env s m =
    if-cases (λ (m' : Mas W). m'.partial ≡ m.partial)
      (ltb (u32_max - m.rl_bucket) s || leb (max_rate_limit_seconds c env) (u32 (m.rl_bucket + s)))
      _ _ (λ _. refl) (λ _. refl)

module _ {W : Type 0} (c : Config) (env : Env W) where
  process-IsBounded :
      (uptime s : ℕ) (m : Mas W)
      → length m.partial ≤ max_message_length
      → IsBounded (max_rate_limit_seconds c env) (mas_process c env uptime s m).1
  unfolding mas_process
  process-IsBounded uptime s m h =
      let most = max_rate_limit_seconds c env in
      let m1 = rate_limit_add_time c env s m in
      let n = remaining_graceperiod_keycodes c env m1.rl_bucket m1 in
      let v1 : IsBounded most m1 = record {
        short = rw (add_time-partial c env s m) h;
        bucket = add_time-bucket c env s m;
      } in
      bookend_process-IsBounded c env most uptime (graceperiod_keycodes_update_nv c env n m1).1
        (grace-IsBounded c env most n m1 v1)

  -- Whatever keys, whole keycodes and passing of time come in, the frame under assembly keeps to 30
  -- keys and the bucket to its maximum, if they do at first.
  pub handle_all-IsBounded :
      (is : List Input) (m : Mas W)
      → IsBounded (max_rate_limit_seconds c env) m
      → IsBounded (max_rate_limit_seconds c env) (handle_all c env is m)
  unfolding handle_all handle
  handle_all-IsBounded [] m v = v
  handle_all-IsBounded (key_pressed key ∷ is) m v =
      handle_all-IsBounded is _ (key-IsBounded c env _ key m v)
  handle_all-IsBounded (keycode_entered is_small keys n ∷ is) m v =
      handle_all-IsBounded is _ (complete-IsBounded c env _ is_small keys n m v)
  handle_all-IsBounded (time_passed uptime s ∷ is) m v =
      handle_all-IsBounded is _ (process-IsBounded uptime s m v.short)
