-- ===== src/Keycode/MessageIds/Marking.antt =====
-- `nexus_keycode_pro_set_full_message_id_flag`, `nexus_keycode_pro_mask_below_message_id` and the
-- wiping of the window, as operations on the set of used IDs.
use nexus_embedded.Base.{
  ℕ, ◌+◌, ◌-◌, ◌≤◌, ◌<◌, ◌≡◌, refl, sym, ◌∙◌, Bool, true, false, ◌&&◌, ◌||◌, inl, inr, arith, u8,
  u16, sub32, ltb, leb, ◌==◌, Bool-cases,
}
use nexus_embedded.Nv.Laws.{IsReliable}
use nexus_embedded.Keycode.State.{Product, Stored, Device}
use nexus_embedded.Keycode.MessageIds.{
  increase_pd_and_shift_window_right, set_full_message_id_flag, mask_below_message_id,
  update_window_and_message_mask_id,
}
use nexus_embedded.Keycode.MessageIds.Memory.{IsDevice}
use nexus_embedded.Keycode.MessageIds.Window.{used}
use nexus_embedded.Keycode.MessageIds.Shift.{IsShifted, increase_pd-IsShifted}
use nexus_embedded.Keycode.MessageIds.Receive.{
  IsMarked, add_flag, add_flag-IsMarked, add_flags, add_flags-IsMarked, get_full_message_id_flag_eq,
  shifted_used,
}

-- What receiving an ID adds to the used ones: the ID, and the IDs that it pushes out of the window.
abbrev pub set_now : ℕ → ℕ → Bool
set_now id j = (id == j) || ltb (j + 23) id

-- A used ID of the window adds nothing.
already_used :
    (s : Stored) (id j : ℕ)
    → used s id ≡ true
    → s.pd_index ≤ id + 23
    → (set_now id j || used s j) ≡ used s j
already_used s id j u h = elim (Bool-cases (id == j)) [
  | inl e ↦
      let same : id ≡ j = ground (arith, e) in
      let uj : used s j ≡ true = rw (← same) u in rw uj (ground arith)
  | inr e ↦ ground (arith, u, e)
]

module _ {F : Type 0} (p : Product F) where
  update_above :
      (id : ℕ) (d : Device F)
      → d.stored.pd_index < id
      → update_window_and_message_mask_id p id d
        ≡ (23, true, increase_pd_and_shift_window_right p (id - d.stored.pd_index) d)
  unfolding update_window_and_message_mask_id
  update_above id d h = ground arith

  update_inside :
      (id : ℕ) (d : Device F)
      → IsDevice p.nv d
      → id ≤ d.stored.pd_index
      → d.stored.pd_index ≤ id + 23
      → update_window_and_message_mask_id p id d ≡ (id + 23 - d.stored.pd_index, false, d)
  unfolding update_window_and_message_mask_id
  update_inside id d v h k =
      let e : u8 (sub32 23 (sub32 d.stored.pd_index id)) ≡ id + 23 - d.stored.pd_index =
        omega (arith, v.valid.pd_high) in
      let b : leb (sub32 d.stored.pd_index 23) id ≡ true =
        ground (arith, v.valid.pd_low, v.valid.pd_high) in
      rw (e, b) (ground arith)

  module _ (r : IsReliable p.nv) where
    -- The result of marking after a shift, in one step.
    shift_then_mark :
        (inc : ℕ) (now : ℕ → Bool) (d d1 d2 : Device F)
        → IsShifted p r inc d d1
        → IsMarked p.nv now d1 d2
        → IsMarked p.nv (λ j. now j || ltb (j + 23) (d.stored.pd_index + inc)) d d2
    shift_then_mark inc now d d1 d2 sh m = record {
      device = m.device;
      marks = λ j. ground (arith, m.marks j, shifted_used p r inc d d1 j sh);
      pd = omega (arith, m.pd, sh.pd);
      qc = m.qc ∙ sh.qc;
      custom = m.custom ∙ sh.custom;
      calls = m.calls ∙ sh.calls;
    }

    pub same_marks :
        (f g : ℕ → Bool) (d d' : Device F)
        → ((j : ℕ) → (f j || used d.stored j) ≡ (g j || used d.stored j))
        → IsMarked p.nv f d d'
        → IsMarked p.nv g d d'
    same_marks f g d d' e m = record {
      device = m.device;
      marks = λ j. m.marks j ∙ e j;
      pd = m.pd;
      qc = m.qc;
      custom = m.custom;
      calls = m.calls;
    }

    set_used :
        (id : ℕ) (d : Device F)
        → IsDevice p.nv d
        → id ≤ 65535
        → d.stored.pd_index ≤ id + 23
        → used d.stored id ≡ true
        → IsMarked p.nv (set_now id) d (set_full_message_id_flag p id d)
    unfolding set_full_message_id_flag
    set_used id d v h k u = rw (get_full_message_id_flag_eq p r d id v h) (
        let b : (leb d.stored.pd_index (id + 23) && used d.stored id) ≡ true = ground (arith, u) in
        rw b (record {
          device = v;
          marks = λ j. sym (already_used d.stored id j u k);
          pd = omega arith;
          qc = refl;
          custom = refl;
          calls = refl;
        }))

    set_above :
        (id : ℕ) (d : Device F)
        → IsDevice p.nv d
        → id ≤ 65535
        → d.stored.pd_index < id
        → IsMarked p.nv (set_now id) d (set_full_message_id_flag p id d)
    unfolding set_full_message_id_flag
    set_above id d v h k = rw (get_full_message_id_flag_eq p r d id v h) (
        let b : (leb d.stored.pd_index (id + 23) && used d.stored id) ≡ false = ground arith in
        rw (b, update_above id d k)
          (let inc = id - d.stored.pd_index in
            let sh = increase_pd-IsShifted p r inc d v (omega arith) in
            let d1 = increase_pd_and_shift_window_right p inc d in
            same_marks _ (set_now id) d (add_flag p r 23 d1) (λ j. ground (arith, sh.pd))
              (shift_then_mark inc _ d d1 (add_flag p r 23 d1) sh
                (add_flag-IsMarked p r 23 d1 sh.device (omega arith)))))

    set_inside :
        (id : ℕ) (d : Device F)
        → IsDevice p.nv d
        → id ≤ d.stored.pd_index
        → d.stored.pd_index ≤ id + 23
        → used d.stored id ≡ false
        → IsMarked p.nv (set_now id) d (set_full_message_id_flag p id d)
    unfolding set_full_message_id_flag
    set_inside id d v h k u =
        let m = id + 23 - d.stored.pd_index in
        rw (get_full_message_id_flag_eq p r d id v (omega (arith, v.valid.pd_high))) (
          let b : (leb d.stored.pd_index (id + 23) && used d.stored id) ≡ false =
            ground (arith, u) in
          rw (b, update_inside id d v h k)
            (same_marks _ (set_now id) d (add_flag p r m d) (λ j. ground arith)
              (add_flag-IsMarked p r m d v (omega arith))))

    -- From the bottom of the window on, setting the flag of a 16-bit ID makes exactly that ID used,
    -- together with those that moving the window up to it pushes out; counts, custom flags and
    -- calls stay, Pd does not fall, and memory agrees with RAM.
    pub set_full_message_id_flag-IsMarked :
        (id : ℕ) (d : Device F)
        → IsDevice p.nv d
        → id ≤ 65535
        → d.stored.pd_index ≤ id + 23
        → IsMarked p.nv (set_now id) d (set_full_message_id_flag p id d)
    set_full_message_id_flag-IsMarked id d v h k = elim (Bool-cases (used d.stored id)) [
      | inl u ↦ set_used id d v h k u
      | inr u ↦ elim (Bool-cases (ltb d.stored.pd_index id)) [
        | inl a ↦ set_above id d v h (ground (arith, a))
        | inr a ↦ set_inside id d v (ground (arith, a)) k u
      ]
    ]

    mask_above :
        (id : ℕ) (d : Device F)
        → IsDevice p.nv d
        → id ≤ 65535
        → d.stored.pd_index + 1 < id
        → IsMarked p.nv (λ j. ltb j id) d (mask_below_message_id p id d)
    unfolding mask_below_message_id
    mask_above id d v h k =
        let e : u16 (id - 1) ≡ id - 1 = omega arith in
        let z : (id == 0) ≡ false = ground arith in
        let b : ltb id (sub32 d.stored.pd_index 23) ≡ false =
          ground (arith, v.valid.pd_low, v.valid.pd_high) in
        rw (e, z, b, update_above (id - 1) d (omega arith))
          (let inc = id - 1 - d.stored.pd_index in
            let sh = increase_pd-IsShifted p r inc d v (omega arith) in
            let d1 = increase_pd_and_shift_window_right p inc d in
            same_marks _ (λ j. ltb j id) d (add_flags p r 23 d1) (λ j. ground (arith, sh.pd))
              (shift_then_mark inc _ d d1 (add_flags p r 23 d1) sh
                (add_flags-IsMarked p r 23 d1 sh.device (omega arith))))

    mask_inside :
        (id : ℕ) (d : Device F)
        → IsDevice p.nv d
        → 1 ≤ id
        → id ≤ d.stored.pd_index + 1
        → id ≤ 65535
        → d.stored.pd_index ≤ id + 22
        → IsMarked p.nv (λ j. ltb j id) d (mask_below_message_id p id d)
    unfolding mask_below_message_id
    mask_inside id d v o h hi k =
        let m = id - 1 + 23 - d.stored.pd_index in
        let e : u16 (id - 1) ≡ id - 1 = omega arith in
        let z : (id == 0) ≡ false = ground arith in
        let b : ltb id (sub32 d.stored.pd_index 23) ≡ false =
          ground (arith, v.valid.pd_low, v.valid.pd_high) in
        rw (e, z, b, update_inside (id - 1) d v (omega arith) (omega arith))
          (same_marks _ (λ j. ltb j id) d (add_flags p r m d) (λ j. ground arith)
            (add_flags-IsMarked p r m d v (omega arith)))

    -- For a 16-bit ID from the second of the window on, masking below it makes exactly the IDs
    -- below it used, and changes nothing else that the product sees.
    pub mask_below_message_id-IsMarked :
        (id : ℕ) (d : Device F)
        → IsDevice p.nv d
        → 1 ≤ id
        → id ≤ 65535
        → d.stored.pd_index ≤ id + 22
        → IsMarked p.nv (λ j. ltb j id) d (mask_below_message_id p id d)
    mask_below_message_id-IsMarked id d v o h k =
        elim (Bool-cases (ltb (d.stored.pd_index + 1) id)) [
          | inl a ↦ mask_above id d v h (ground (arith, a))
          | inr a ↦ mask_inside id d v o (ground (arith, a)) h k
        ]
