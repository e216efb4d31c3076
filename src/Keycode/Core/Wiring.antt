-- ===== src/Keycode/Core/Wiring.antt =====
-- The modules together: power-up, the way of a keycode to the pending frame, and processing.
use nexus_embedded.Base.{
  ℕ, ◌+◌, ◌-◌, ◌≤◌, ◌<◌, ◌≡◌, refl, ap, ◌∙◌, inl, inr, arith, true, false, Bool-cases, List, [],
  ◌∷◌, ◌++◌, length, ltb,
}
use nexus_embedded.Keycode.State.{Config, Product, emit, request_processing}
use nexus_embedded.Keycode.Mas.{
  max_message_length, no_stop_length, is_rate_limited, mas_init, bookend_init, bookend_reset,
  mas_reset, mas_process,
}
use nexus_embedded.Keycode.Mas.Entry.{entered_whole}
use nexus_embedded.Keycode.MessageIds.Memory.{IsDevice}
use nexus_embedded.Keycode.Pro.Process.{Pro, pro_init, pro_enqueue, pro_process, init_device_lem}
use nexus_embedded.Keycode.Core.{
  HandlingConfig, System, mas_env, core_init, core_process, common_init, common_process,
  handle_keycode,
}

module _ {F : Type 0} (c : Config) (p : Product F) (h : HandlingConfig F) where
  -- Powering up a system with a proper device keeps the device, with one more request for
  -- processing, and its last frame; no frame is pending or under assembly, the core is initialised,
  -- and the common module not yet.
  pub common_init-device :
      (t : ℕ) (s : System F)
      → IsDevice p.nv s.mas.world.device
      → ((common_init c p h t s).mas.world ≡ record s.mas.world {
        pending = false;
        device = emit request_processing s.mas.world.device;
      })
        × ((common_init c p h t s).mas.partial ≡ [])
        × ((common_init c p h t s).mas.start_seen ≡ false)
        × ((common_init c p h t s).core_init_completed ≡ true)
        × ((common_init c p h t s).common_init_completed ≡ false)
  unfolding common_init core_init mas_init bookend_init bookend_reset mas_reset pro_init
  common_init-device t s v = (
    ap (λ d. record s.mas.world { pending = false; device = emit request_processing d })
        (init_device_lem p s.mas.world.device v),
    refl,
    refl,
    refl,
    refl,
  )

  pro_process-idle : (s : Pro F) → (pro_process c h.parse_and_apply s).1.pending ≡ false
  unfolding pro_process
  pro_process-idle s = elim (Bool-cases s.pending) [ inl e ↦ rw e refl | inr e ↦ rw e refl ]

  -- A call of nx_common_process at an uptime that does not lie in the past leaves no frame pending,
  -- records the uptime, asks for the next call within 240 seconds, and completes a pending
  -- initialisation.
  pub common_process-idle :
      (t : ℕ) (s : System F)
      → s.uptime_s ≤ t
      → ((common_process c p h t s).1.mas.world.pending ≡ false)
        × ((common_process c p h t s).1.uptime_s ≡ t)
        × ((common_process c p h t s).0 ≤ 240)
        × (s.pending_init ≡ true → (common_process c p h t s).1.common_init_completed ≡ true)
  unfolding common_process core_process
  common_process-idle t s k =
      let past : ltb t s.uptime_s ≡ false = ground arith in
      let m1 = (mas_process c (mas_env c p h) t (t - s.uptime_s) s.mas).1 in
      elim (Bool-cases s.pending_init) [
        | inl e ↦ rw (past, e) (pro_process-idle m1.world, refl, omega arith, λ _. refl)
        | inr e ↦ rw (past, e) (pro_process-idle m1.world, refl, omega arith, λ q. absurd (no q))
      ]
    where
      no : false ≡ true → ⊥
      no q = cc

  enqueue_idle :
      (keys : List ℕ) (w : Pro F)
      → w.pending ≡ false
      → pro_enqueue keys w
        ≡ record w { frame = keys; pending = true; device = emit request_processing w.device }
  unfolding pro_enqueue
  enqueue_idle keys w e = rw e refl

  -- In an initialised full-protocol system outside the rate limit and with no frame pending, a
  -- whole keycode of 1 to 30 keys between the start and the end key becomes the pending frame, with
  -- one request for processing.
  pub handle_keycode-pending :
      (s : System F) (keys : List ℕ)
      → s.core_init_completed ≡ true
      → h.is_small ≡ false
      → s.mas.stop_length ≡ no_stop_length
      → is_rate_limited c (mas_env c p h) s.mas ≡ false
      → s.mas.world.pending ≡ false
      → 0 < length keys
      → length keys ≤ max_message_length
      → (handle_keycode c p h
          (s.mas.start_key ∷ (keys ++ (s.mas.end_key ∷ [])))
          (length keys + 2)
          s).1.mas.world
        ≡ record s.mas.world {
          frame = keys;
          pending = true;
          device = emit request_processing s.mas.world.device;
        }
  unfolding handle_keycode
  handle_keycode-pending s keys i full endless gate idle some fits =
      rw (i, full)
        (ap (λ m. m.world) (entered_whole c (mas_env c p h) s.mas gate endless keys some fits)
          ∙ enqueue_idle keys s.mas.world idle)
