-- ===== src/Keycode/Mas/Entry.antt =====
-- A keycode with a start and an end key, entered key by key and as a whole.
use nexus_embedded.Base.{
  ℕ, suc, ◌+◌, ◌-◌, ◌≤◌, ◌<◌, ◌≡◌, refl, sym, ap, ◌∙◌, inl, inr, arith, Bool, true, false, ◌&&◌,
  not, Bool-cases, List, [], ◌∷◌, ◌++◌, length, length-append, get_or, ltb, leb, ◌==◌, u8, u32_max,
}
use mathlib.Core.List.{append_assoc, append-nil}
use nexus_embedded.Keycode.State.{Config, feedback_start, request_processing, key_accepted}
use nexus_embedded.Keycode.Mas.{
  Env, Mas, max_message_length, no_stop_length, call_out, refill, is_rate_limited,
  rate_limit_deduct_msg, mas_reset, bookend_reset, mas_push, mas_finish, has_reached_stop_length,
  push_in_message, mas_bookend_push, push_keys, handle_complete_keycode,
}

module _ {W : Type 0} (c : Config) (env : Env W) where
  unfoldable pub push_all : List ℕ → Mas W → Mas W
  push_all [] m = m
  push_all (key ∷ keys) m = push_all keys (mas_bookend_push c env key m)

  -- What an accepted key tells the product.
  unfoldable pub accepted_keys : List ℕ → W → W
  accepted_keys [] w = w
  accepted_keys (key ∷ keys) w =
      accepted_keys keys (env.call (feedback_start key_accepted) (env.call request_processing w))

  module _ (m : Mas W) (open_gate : is_rate_limited c env m ≡ false)
      (endless : m.stop_length ≡ no_stop_length) where
    -- No key of the message is the start or the end key.
    unfoldable pub are_plain : List ℕ → Bool
    are_plain [] = true
    are_plain (key ∷ keys) = (not (key == m.start_key) && not (key == m.end_key)) && are_plain keys

    -- The module in the middle of a message, of which it has the keys `acc`.
    abbrev entering : List ℕ → ℕ → W → Mas W
    entering acc latest w = record m {
      partial = acc;
      max_length_exceeded = false;
      start_seen = true;
      latest_uptime = latest;
      world = w;
    }

    still_open :
        (acc : List ℕ) (latest : ℕ) (w : W) → is_rate_limited c env (entering acc latest w) ≡ false
    still_open acc latest w = unfold is_rate_limited in open_gate

    push_entering :
        (key : ℕ) (acc : List ℕ) (latest : ℕ) (w : W)
        → length acc < max_message_length
        → mas_push c env key (entering acc latest w) ≡ entering (acc ++ (key ∷ [])) latest w
    unfolding mas_push
    push_entering key acc latest w h =
        let t : ltb (length acc) 30 ≡ true = ground arith in rw t refl

    never_stops :
        (acc : List ℕ) (latest : ℕ) (w : W)
        → has_reached_stop_length c env (entering acc latest w) ≡ false
    unfolding has_reached_stop_length
    never_stops acc latest w = rw endless refl

    one_key :
        (key : ℕ) (acc : List ℕ) (latest : ℕ) (w : W)
        → (key == m.start_key) ≡ false
        → (key == m.end_key) ≡ false
        → length acc < max_message_length
        → mas_bookend_push c env key (entering acc latest w)
          ≡ entering
              (acc ++ (key ∷ []))
              u32_max
              (env.call (feedback_start key_accepted) (env.call request_processing w))
    unfolding mas_bookend_push push_in_message
    one_key key acc latest w s e h =
        let w1 = env.call request_processing w in
        rw
          (
            still_open acc u32_max w1,
            s,
            e,
            push_entering key acc u32_max w1 h,
            never_stops (acc ++ (key ∷ [])) u32_max w1,
          )
          refl

    many_keys :
        (keys acc : List ℕ) (w : W)
        → are_plain keys ≡ true
        → length acc + length keys ≤ max_message_length
        → push_all keys (entering acc u32_max w)
          ≡ entering (acc ++ keys) u32_max (accepted_keys keys w)
    unfolding push_all accepted_keys are_plain
    many_keys [] acc w p h = ap (λ l. entering l u32_max w) (sym (append-nil acc))
    many_keys (key ∷ keys) acc w p h =
        let w1 = env.call (feedback_start key_accepted) (env.call request_processing w) in
        rw (one_key key acc u32_max w (ground (arith, p)) (ground (arith, p)) (omega arith)) (
          many_keys keys (acc ++ (key ∷ [])) w1 (ground (arith, p))
            (omega (arith, length-append acc (key ∷ [])))
          ∙ ap (λ l. entering l u32_max (accepted_keys keys w1)) (append_assoc acc (key ∷ []) keys))

    -- The end of a message that fits: its frame goes to the handler.
    finish_entering :
        (acc : List ℕ) (latest : ℕ) (w : W)
        → 0 < length acc
        → mas_finish c env (bookend_reset c env (entering acc latest w))
          ≡ record (rate_limit_deduct_msg c env m) {
            partial = [];
            max_length_exceeded = false;
            start_seen = false;
            latest_uptime = latest;
            world = env.handler acc w;
          }
    unfolding mas_finish bookend_reset mas_reset rate_limit_deduct_msg
    finish_entering acc latest w h =
        let t : ltb 0 (length acc) ≡ true = ground arith in
        rw t (elim (Bool-cases (ltb 0 c.rate_limit_bucket_max && leb (refill c env) m.rl_bucket)) [
          | inl e ↦ rw e refl
          | inr e ↦ rw e refl
        ])

    push_all-append :
        (xs ys : List ℕ) (n : Mas W) → push_all (xs ++ ys) n ≡ push_all ys (push_all xs n)
    unfolding push_all
    push_all-append [] ys n = refl
    push_all-append (x ∷ xs) ys n = push_all-append xs ys (mas_bookend_push c env x n)

    begin :
        mas_bookend_push c env m.start_key m
        ≡ entering [] u32_max
            (env.call (feedback_start key_accepted) (env.call request_processing m.world))
    unfolding mas_bookend_push mas_reset
    begin =
        let w1 = env.call request_processing m.world in
        let same : (m.start_key == m.start_key) ≡ true = ground arith in
        let o : is_rate_limited c env
              (call_out c env request_processing (record m { latest_uptime = u32_max }))
            ≡ false =
          unfold is_rate_limited in open_gate in
        rw (o, same) refl

    end_key_pressed :
        (acc : List ℕ) (w : W)
        → (m.end_key == m.start_key) ≡ false
        → 0 < length acc
        → mas_bookend_push c env m.end_key (entering acc u32_max w)
          ≡ record (rate_limit_deduct_msg c env m) {
            partial = [];
            max_length_exceeded = false;
            start_seen = false;
            latest_uptime = u32_max;
            world = env.handler acc (env.call request_processing w);
          }
    unfolding mas_bookend_push push_in_message
    end_key_pressed acc w s h =
        let w1 = env.call request_processing w in
        let same : (m.end_key == m.end_key) ≡ true = ground arith in
        rw (still_open acc u32_max w1, s, same) (finish_entering acc u32_max w1 h)

    entered_key_by_key :
        (keys : List ℕ)
        → are_plain keys ≡ true
        → (m.end_key == m.start_key) ≡ false
        → 0 < length keys
        → length keys ≤ max_message_length
        → push_all (m.start_key ∷ (keys ++ (m.end_key ∷ []))) m
          ≡ record (rate_limit_deduct_msg c env m) {
            partial = [];
            max_length_exceeded = false;
            start_seen = false;
            latest_uptime = u32_max;
            world =
                env.handler keys
                  (env.call request_processing (accepted_keys (m.start_key ∷ keys) m.world));
          }
    unfolding push_all accepted_keys
    entered_key_by_key keys p s some h =
        let w1 = env.call (feedback_start key_accepted) (env.call request_processing m.world) in
        ap (λ n. push_all (keys ++ (m.end_key ∷ [])) n) begin
        ∙ (push_all-append keys (m.end_key ∷ []) (entering [] u32_max w1)
            ∙ ap (λ n. mas_bookend_push c env m.end_key n) (many_keys keys [] w1 p (omega arith))
            ∙ end_key_pressed keys (accepted_keys keys w1) s some)

    get_or-middle :
        (front : List ℕ) (key : ℕ) (back : List ℕ)
        → get_or (front ++ (key ∷ back)) (length front) 0 ≡ key
    get_or-middle [] key back = refl
    get_or-middle (x ∷ front) key back = get_or-middle front key back

    -- The loop of a whole keycode pushes the keys from a place in the array on.
    push_keys-entering :
        (keys front back acc : List ℕ) (i latest : ℕ) (w : W)
        → i ≡ length front
        → length acc + length keys ≤ max_message_length
        → push_keys c env (length keys) (front ++ (keys ++ back)) i (entering acc latest w)
          ≡ entering (acc ++ keys) latest w
    unfolding push_keys
    push_keys-entering [] front back acc i latest w e h =
        ap (λ l. entering l latest w) (sym (append-nil acc))
    push_keys-entering (key ∷ keys) front back acc i latest w e h =
        let here : get_or (front ++ (key ∷ (keys ++ back))) i 0 ≡ key =
          rw e (get_or-middle front key (keys ++ back)) in
        let moved = append_assoc front (key ∷ []) (keys ++ back) in
        rw
          (
            here,
            push_entering key acc latest w (omega arith),
            never_stops (acc ++ (key ∷ [])) latest w,
          )
          (ap (λ l. push_keys c env (length keys) l (suc i) (entering (acc ++ (key ∷ [])) latest w))
              (sym moved)
            ∙ push_keys-entering keys (front ++ (key ∷ [])) back (acc ++ (key ∷ [])) (suc i) latest
                w (omega (arith, e, length-append front (key ∷ [])))
                (omega (arith, length-append acc (key ∷ [])))
            ∙ ap (λ l. entering l latest w) (append_assoc acc (key ∷ []) keys))

    pub entered_whole :
        (keys : List ℕ)
        → 0 < length keys
        → length keys ≤ max_message_length
        → handle_complete_keycode c env false
            (m.start_key ∷ (keys ++ (m.end_key ∷ [])))
            (length keys + 2)
            m
          ≡ record (rate_limit_deduct_msg c env m) {
            partial = [];
            max_length_exceeded = false;
            start_seen = false;
            latest_uptime = m.latest_uptime;
            world = env.handler keys m.world;
          }
    unfolding handle_complete_keycode mas_reset
    entered_whole keys some h =
        let same : (m.start_key == m.start_key) ≡ true = ground arith in
        let last : u8 (length keys + 2 + 255) - 1 ≡ length keys = omega arith in
        rw (open_gate, same, last)
          (ap (λ n. mas_finish c env (bookend_reset c env n))
              (push_keys-entering keys (m.start_key ∷ []) (m.end_key ∷ []) [] 1 m.latest_uptime
                m.world refl (omega arith))
            ∙ finish_entering keys m.latest_uptime m.world some)

    -- Without a stop length and outside the rate limit, a keycode of 1 to 30 keys that are neither
    -- the start nor the end key, framed by those two different keys, gives the handler exactly its
    -- keys once, whether pressed key by key or entered whole in the full protocol, at the price of
    -- one attempt both times; only the calls for single keys and the time of the last key differ.
    pub entered_alike :
        (keys : List ℕ)
        → are_plain keys ≡ true
        → (m.end_key == m.start_key) ≡ false
        → 0 < length keys
        → length keys ≤ max_message_length
        → (push_all (m.start_key ∷ (keys ++ (m.end_key ∷ []))) m
            ≡ record (rate_limit_deduct_msg c env m) {
              partial = [];
              max_length_exceeded = false;
              start_seen = false;
              latest_uptime = u32_max;
              world =
                  env.handler keys
                    (env.call request_processing (accepted_keys (m.start_key ∷ keys) m.world));
            })
          × (handle_complete_keycode c env false
                (m.start_key ∷ (keys ++ (m.end_key ∷ [])))
                (length keys + 2)
                m
              ≡ record (rate_limit_deduct_msg c env m) {
                partial = [];
                max_length_exceeded = false;
                start_seen = false;
                latest_uptime = m.latest_uptime;
                world = env.handler keys m.world;
              })
    entered_alike keys p s some h = (entered_key_by_key keys p s some h, entered_whole keys some h)
