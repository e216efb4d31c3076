-- ===== src/Keycode/Mas/Rate.antt =====
-- The rate limit of message assembly: a message costs its share of the bucket.
use nexus_embedded.Base.{
  ℕ, zero, suc, ◌+◌, ◌-◌, ◌*◌, ◌≤◌, ◌<◌, ◌≡◌, refl, sym, ap, ◌∙◌, inl, inr, arith, Bool, true,
  false, ◌&&◌, ◌||◌, not, Bool-cases, List, [], ◌∷◌, length, get_or, ltb, leb, ◌==◌, u8, u32,
  u32_max, sub32, if◌then◌else◌, if-cases,
}
use nexus_embedded.Keycode.State.{
  Config, Event, feedback_start, request_processing, message_invalid, key_rejected, key_accepted,
}
use nexus_embedded.Keycode.Mas.{
  Env, Mas, max_message_length, call_out, refill, max_rate_limit_seconds, rate_limit_add_time,
  is_rate_limited, attempts_from, rate_limit_attempts_remaining, rate_limit_deduct_msg,
  remaining_graceperiod_keycodes, graceperiod_keycodes_update_nv, mas_reset, bookend_reset,
  mas_push, mas_finish, has_reached_stop_length, mas_bookend_process, mas_process, push_in_message,
  mas_bookend_push, push_keys, handle_complete_keycode,
}

-- Inputs of the module: a key, a whole keycode, or time that has passed.
pub data Input : Type 0 where
  key_pressed : ℕ → Input
  keycode_entered : (is_small : Bool) (keys : List ℕ) (keycode_length : ℕ) → Input
  time_passed : (uptime seconds_elapsed : ℕ) → Input

unfoldable pub seconds_of : List Input → ℕ
seconds_of [] = 0
seconds_of (key_pressed key ∷ rest) = seconds_of rest
seconds_of (keycode_entered is_small keys keycode_length ∷ rest) = seconds_of rest
seconds_of (time_passed uptime seconds_elapsed ∷ rest) = seconds_elapsed + seconds_of rest

module _ {W : Type 0} (c : Config) (env : Env W) where
  unfoldable pub handle : Input → Mas W → Mas W
  handle (key_pressed key) m = mas_bookend_push c env key m
  handle (keycode_entered is_small keys keycode_length) m =
      handle_complete_keycode c env is_small keys keycode_length m
  handle (time_passed uptime seconds_elapsed) m = (mas_process c env uptime seconds_elapsed m).1

  unfoldable pub handle_all : List Input → Mas W → Mas W
  handle_all [] m = m
  handle_all (i ∷ is) m = handle_all is (handle i m)

  -- The loop computes the quotient: so many attempts fit into the seconds and no more.
  attempts_from-bounds :
      (fuel seconds_remaining : ℕ)
      → 0 < refill c env
      → seconds_remaining ≤ fuel
      → (attempts_from c env fuel seconds_remaining * refill c env ≤ seconds_remaining)
        × (seconds_remaining
            < attempts_from c env fuel seconds_remaining * refill c env + refill c env)
  unfolding attempts_from
  attempts_from-bounds zero s pos h = (omega arith, omega arith)
  attempts_from-bounds (suc fuel) s pos h =
      let ih = attempts_from-bounds fuel (s - refill c env) pos (omega arith) in
      elim (Bool-cases (leb (refill c env) s)) [
        | inl e ↦ rw e (ground (arith, ih, e), ground (arith, ih, e))
        | inr e ↦ rw e (omega arith, ground (arith, e))
      ]

  -- With rate limiting on and a positive refill time, the loop that counts the remaining attempts
  -- ends with the number of whole refill times in the bucket, and the module is rate limited
  -- exactly when that is zero.
  pub attempts_remaining-bounds :
      (m : Mas W)
      → 0 < c.rate_limit_bucket_max
      → 0 < refill c env
      → (rate_limit_attempts_remaining c env m * refill c env ≤ m.rl_bucket)
        × (m.rl_bucket < rate_limit_attempts_remaining c env m * refill c env + refill c env)
        × (is_rate_limited c env m ≡ (rate_limit_attempts_remaining c env m == 0))
  unfolding rate_limit_attempts_remaining is_rate_limited
  attempts_remaining-bounds m on pos =
      let b = attempts_from-bounds m.rl_bucket m.rl_bucket pos (omega arith) in
      let t : ltb 0 c.rate_limit_bucket_max ≡ true = ground (arith, on) in
      let f : (c.rate_limit_bucket_max == 0) ≡ false = ground (arith, on) in
      rw (t, f)
        (
          b.0,
          b.1,
          elim (Bool-cases (ltb m.rl_bucket (refill c env))) [
            | inl e ↦ e ∙ sym (none_left e b.0)
            | inr e ↦ e ∙ sym (one_left e b.1)
          ],
        )
    where
      attempts : ℕ
      attempts = attempts_from c env m.rl_bucket m.rl_bucket

      product_lt : (n r : ℕ) → n * r < r → n ≡ 0
      product_lt zero r h = refl
      product_lt (suc n) r h = absurd (omega (arith, h))

      none_left :
          ltb m.rl_bucket (refill c env) ≡ true
          → attempts * refill c env ≤ m.rl_bucket
          → (attempts == 0) ≡ true
      none_left e h = let z = product_lt attempts (refill c env) (ground (arith, e, h)) in rw z refl

      one_left :
          ltb m.rl_bucket (refill c env) ≡ false
          → m.rl_bucket < attempts * refill c env + refill c env
          → (attempts == 0) ≡ false
      one_left e h = ground (arith, e, h)

  -- The measure of a world: how many frames its handler has been given.
  pub record IsCount (count : W → ℕ) : Type 0 where
    pub handled : (f : List ℕ) (w : W) → count (env.handler f w) ≡ count w + 1
    pub called : (e : Event) (w : W) → count (env.call e w) ≡ count w
    pub stored : (b : List ℕ) (w : W) → count (env.nv_update b w) ≡ count w

  module _ (count : W → ℕ) (k : IsCount count) where
    -- What has been spent on frames, and what is left.
    abbrev spent : Mas W → ℕ
    spent m = count m.world * refill c env + m.rl_bucket

    add_time-spent :
        (s : ℕ) (m : Mas W)
        → max_rate_limit_seconds c env ≤ u32_max
        → spent (rate_limit_add_time c env s m) ≤ spent m + s
    unfolding rate_limit_add_time
    add_time-spent s m h =
        if-cases (λ (m' : Mas W). spent m' ≤ spent m + s)
          (ltb (u32_max - m.rl_bucket) s
            || leb (max_rate_limit_seconds c env) (u32 (m.rl_bucket + s)))
          _ _ (λ e. ground (arith, e)) (λ e. ground (arith, e))

    deduct-spent :
        (m : Mas W)
        → 0 < c.rate_limit_bucket_max
        → refill c env ≤ m.rl_bucket
        → spent (rate_limit_deduct_msg c env m) + refill c env ≡ spent m
    unfolding rate_limit_deduct_msg
    deduct-spent m pos h = ground (arith, pos, h)

    finish-spent :
        (m : Mas W)
        → 0 < c.rate_limit_bucket_max
        → refill c env ≤ m.rl_bucket
        → spent (mas_finish c env m) ≤ spent m
    unfolding mas_finish mas_reset
    finish-spent m pos h =
        if-cases (λ (m' : Mas W). spent (rate_limit_deduct_msg c env m') ≤ spent m)
          (ltb 0 (length m.partial) && not m.max_length_exceeded)
          (record m { world = env.handler m.partial m.world })
          (call_out c env (feedback_start message_invalid) m)
          (λ _. ground (
            arith,
            one_more,
            deduct-spent (record m { world = env.handler m.partial m.world }) pos h,
          ))
          (λ _. ground (
            arith,
            k.called (feedback_start message_invalid) m.world,
            deduct-spent (call_out c env (feedback_start message_invalid) m) pos h,
          ))
      where
        one_more :
            count (env.handler m.partial m.world) * refill c env
            ≡ count m.world * refill c env + refill c env
        one_more = rw (k.handled m.partial m.world) (omega arith)

    call_out-spent : (e : Event) (m : Mas W) → spent (call_out c env e m) ≡ spent m
    call_out-spent e m = ap (λ n. n * refill c env + m.rl_bucket) (k.called e m.world)

    -- A push of keys neither spends nor fills.
    push-same :
        (key : ℕ) (m : Mas W)
        → (spent (mas_push c env key m) ≡ spent m)
          × ((mas_push c env key m).rl_bucket ≡ m.rl_bucket)
    unfolding mas_push
    push-same key m =
        if-cases (λ (m' : Mas W). (spent m' ≡ spent m) × (m'.rl_bucket ≡ m.rl_bucket))
          (ltb (length m.partial) max_message_length) _ _ (λ _. (refl, refl)) (λ _. (refl, refl))

    push_keys-same :
        (n : ℕ) (keys : List ℕ) (i : ℕ) (m : Mas W)
        → (spent (push_keys c env n keys i m) ≡ spent m)
          × ((push_keys c env n keys i m).rl_bucket ≡ m.rl_bucket)
    unfolding push_keys
    push_keys-same zero keys i m = (refl, refl)
    push_keys-same (suc n) keys i m =
        let m1 = mas_push c env (get_or keys i 0) m in
        let one = push-same (get_or keys i 0) m in
        let rest = push_keys-same n keys (suc i) m1 in
        if-cases (λ (m' : Mas W). (spent m' ≡ spent m) × (m'.rl_bucket ≡ m.rl_bucket))
          (has_reached_stop_length c env m1) _ _ (λ _. one) (λ _. (rest.0 ∙ one.0, rest.1 ∙ one.1))

    grace-spent : (n : ℕ) (m : Mas W) → spent (graceperiod_keycodes_update_nv c env n m).1 ≡ spent m
    unfolding graceperiod_keycodes_update_nv
    grace-spent n m =
        if-cases (λ (a : Bool × Mas W). spent a.1 ≡ spent m) (n == m.graceperiod_keycodes) _ _
          (λ _. refl) (λ _. ap (λ x. x * refill c env + m.rl_bucket) (k.stored (n ∷ m.pad) m.world))

    bookend_process-spent :
        (uptime : ℕ) (m : Mas W) → spent (mas_bookend_process c env uptime m).1 ≡ spent m
    unfolding mas_bookend_process bookend_reset mas_reset
    bookend_process-spent uptime m =
        let latest = (if m.latest_uptime == u32_max then uptime else m.latest_uptime) in
        let Same : Mas W → Type 0 = (λ m'. spent m' ≡ spent m) in
        if-cases Same m.start_seen _ _
          (λ _.
            if-cases Same (ltb c.entry_timeout_seconds (sub32 uptime latest)) _ _ (λ _. refl)
              (λ _. refl))
          (λ _. refl)

    module _ (on : 0 < c.rate_limit_bucket_max) where
      open_bucket : (m : Mas W) → is_rate_limited c env m ≡ false → refill c env ≤ m.rl_bucket
      unfolding is_rate_limited
      open_bucket m e =
          let t : (c.rate_limit_bucket_max == 0) ≡ false = ground (arith, on) in
          ground (arith, t, e)

      in_message-spent :
          (key : ℕ) (m : Mas W)
          → refill c env ≤ m.rl_bucket
          → spent (push_in_message c env key m) ≤ spent m
      unfolding push_in_message bookend_reset
      in_message-spent key m h =
          let m1 = mas_push c env key m in
          let same = push-same key m in
          if-cases (λ (m' : Mas W). spent m' ≤ spent m) (key == m.end_key) _ _
            (λ _. finish-spent (bookend_reset c env m) on h)
            (λ _.
              if-cases (λ (m' : Mas W). spent m' ≤ spent m) (has_reached_stop_length c env m1) _ _
                (λ _. omega (arith, finish-spent (bookend_reset c env m1) on (rw same.1 h), same.0))
                (λ _. omega (arith, call_out-spent (feedback_start key_accepted) m1, same.0)))

      key-spent : (key : ℕ) (m : Mas W) → spent (mas_bookend_push c env key m) ≤ spent m
      unfolding mas_bookend_push mas_reset
      key-spent key m =
          let m1 = call_out c env request_processing (record m { latest_uptime = u32_max }) in
          let begun = call_out-spent request_processing (record m { latest_uptime = u32_max }) in
          let AtMost : Mas W → Type 0 = (λ m'. spent m' ≤ spent m) in
          if-cases AtMost (is_rate_limited c env m1) _ _
            (λ _. omega (arith, call_out-spent (feedback_start key_rejected) m1, begun))
            (λ e.
              if-cases AtMost (key == m1.start_key) _ _
                (λ _. omega (arith, call_out-spent (feedback_start key_accepted) m1, begun))
                (λ _.
                  if-cases AtMost m1.start_seen _ _
                    (λ _. omega (arith, in_message-spent key m1 (open_bucket m1 e), begun))
                    (λ _. omega (arith, call_out-spent (feedback_start key_rejected) m1, begun))))

      complete-spent :
          (is_small : Bool) (keys : List ℕ) (n : ℕ) (m : Mas W)
          → spent (handle_complete_keycode c env is_small keys n m) ≤ spent m
      unfolding handle_complete_keycode bookend_reset mas_reset
      complete-spent is_small keys n m =
          let last = (if is_small then n else u8 (n + 255)) in
          let m1 = mas_reset c env (record m { start_seen = true }) in
          let pushed = push_keys c env (last - 1) keys 1 m1 in
          let same = push_keys-same (last - 1) keys 1 m1 in
          let AtMost : Mas W → Type 0 = (λ m'. spent m' ≤ spent m) in
          if-cases AtMost (is_rate_limited c env m) _ _
            (λ _. omega (arith, call_out-spent (feedback_start message_invalid) m))
            (λ e.
              if-cases AtMost (not (get_or keys 0 0 == m.start_key)) _ _
                (λ _. omega (arith, call_out-spent (feedback_start message_invalid) m))
                (λ _. omega (
                  arith,
                  finish-spent (bookend_reset c env pushed) on (rw same.1 (open_bucket m e)),
                  same.0,
                )))

      process-spent :
          (uptime s : ℕ) (m : Mas W)
          → max_rate_limit_seconds c env ≤ u32_max
          → spent (mas_process c env uptime s m).1 ≤ spent m + s
      unfolding mas_process
      process-spent uptime s m h =
          let m1 = rate_limit_add_time c env s m in
          let n = remaining_graceperiod_keycodes c env m1.rl_bucket m1 in
          omega (
            arith,
            bookend_process-spent uptime (graceperiod_keycodes_update_nv c env n m1).1,
            grace-spent n m1,
            add_time-spent s m h,
          )

      -- With rate limiting on, whatever keys, whole keycodes and passing of time come in, the
      -- frames given to the handler, at the price of one refill time each, cost at most what was in
      -- the bucket and the seconds that passed.
      pub handle_all-spent :
          max_rate_limit_seconds c env ≤ u32_max
          → (is : List Input) (m : Mas W)
          → count (handle_all is m).world * refill c env
            ≤ count m.world * refill c env + m.rl_bucket + seconds_of is
      unfolding handle_all handle seconds_of
      handle_all-spent h [] m = omega arith
      handle_all-spent h (key_pressed key ∷ is) m =
          omega (arith, handle_all-spent h is (mas_bookend_push c env key m), key-spent key m)
      handle_all-spent h (keycode_entered is_small keys n ∷ is) m = omega (
        arith,
        handle_all-spent h is (handle_complete_keycode c env is_small keys n m),
        complete-spent is_small keys n m,
      )
      handle_all-spent h (time_passed uptime s ∷ is) m = omega (
        arith,
        handle_all-spent h is (mas_process c env uptime s m).1,
        process-spent uptime s m h,
      )
