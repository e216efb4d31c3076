-- ===== src/Util/Window/Set.antt =====
-- Setting the flag of an ID: what it does to the window, in place and when the window moves.
use nexus_embedded.Base.{
  ℕ, ◌+◌, ◌-◌, ◌*◌, ◌≤◌, ◌<◌, ◌≡◌, refl, sym, ◌∙◌, Bool, true, false, ◌&&◌, ◌||◌, arith, length,
  ltb, leb, ◌==◌, IsBytes, if-cases, if◌then◌else◌,
}
use mathlib.Core.Path.{subst}
use nexus_embedded.Util.Bitset.{Bitset, bitset_add, bitset_contains, bitset_clear}
use nexus_embedded.Util.Bitset.Laws.{
  IsBitset, contains-add, add-IsBitset, length-add, contains-clear, length-clear, clear-IsBytes,
}
use nexus_embedded.Util.Window.{Window, set_id_flag, move_window, moved_flags}
use nexus_embedded.Util.Window.Laws.{
  IsWindow, marked, in_window, id_within_window_lem, index_eq, flags-IsBitset, moved_flags_shape,
  contains-moved_flags,
}

module _ (w : Window) (v : IsWindow w) (id : ℕ) where
  few_flags : w.flags_below ≤ 39
  few_flags = omega (arith, v.bytes_enough, v.counted, v.small)

  abbrev IsMoved : Bitset → Type 0
  IsMoved b =
      (length b.bytes ≡ length w.flags.bytes)
      × IsBytes b.bytes
      × (b.bytes_count ≡ w.flags.bytes_count)
      × ((k : ℕ)
          → k ≤ w.flags_below
          → bitset_contains b k ≡ (
              leb (k + (id - w.center_index)) w.flags_below
              && bitset_contains w.flags (k + (id - w.center_index))))

  clear-IsMoved : w.flags_below < id - w.center_index → IsMoved (bitset_clear w.flags)
  clear-IsMoved h = (
    length-clear w.flags v.counted,
    clear-IsBytes w.flags v.are_bytes,
    unfold bitset_clear in refl,
    λ k b. ground (
      arith,
      h,
      contains-clear w.flags k (omega (arith, v.bytes_enough, v.counted))
          (omega (arith, few_flags)),
    ),
  )

  moved_flags-IsMoved :
      id - w.center_index ≤ w.flags_below → IsMoved (moved_flags (id - w.center_index) w)
  moved_flags-IsMoved h =
      let shape = moved_flags_shape w v (id - w.center_index) h in
      (shape.0, shape.1, shape.2, contains-moved_flags w v (id - w.center_index) h)

  -- The state of a window after the flag of `id` was set.
  pub record IsFlagSet (w' : Window) : Type 0 where
    pub window : IsWindow w'
    pub below_same : w'.flags_below ≡ w.flags_below
    pub above_same : w'.flags_above ≡ w.flags_above
    pub length_same : length w'.flags.bytes ≡ length w.flags.bytes
    pub count_same : w'.flags.bytes_count ≡ w.flags.bytes_count
    pub center : w'.center_index ≡ (if leb id w.center_index then w.center_index else id)
    pub marks :
        (k : ℕ)
        → k < 4294967296
        → marked w' k ≡ ((k == id) || marked w k || ltb (k + w.flags_below) id)

  module _ (b : Bitset) (m : IsMoved b) (ahead : w.center_index < id)
      (high : id + w.flags_above ≤ 4294967295) where
    abbrev at_center : Window
    at_center = record w { center_index = id; flags = bitset_add b w.flags_below }

    moved-IsBitset : IsBitset b
    moved-IsBitset = record { are_bytes = m.1; short = omega (arith, m.0, v.short) }

    same_count : (bitset_add b w.flags_below).bytes_count ≡ b.bytes_count
    unfolding bitset_add
    same_count = refl

    at_center-IsFlagSet : IsFlagSet at_center
    at_center-IsFlagSet =
        let fits : w.flags_below < 2048 = omega (arith, few_flags) in
        let added = add-IsBitset b w.flags_below fits moved-IsBitset in
        record {
          window = record {
            bytes_enough = omega (arith, same_count, m.2, v.bytes_enough);
            counted = omega (arith, length-add b w.flags_below, m.0, same_count, m.2, v.counted);
            short = omega (arith, length-add b w.flags_below, m.0, v.short);
            small = omega (arith, same_count, m.2, v.small);
            are_bytes = added.are_bytes;
            above_byte = v.above_byte;
            low = omega (arith, v.low);
            high = high;
          };
          below_same = refl;
          above_same = refl;
          length_same = omega (arith, length-add b w.flags_below, m.0);
          count_same = same_count ∙ m.2;
          center = ground arith;
          marks = λ k h. ground (
            arith,
            contains-add b w.flags_below (k + w.flags_below - id) moved-IsBitset,
            m.0,
            v.bytes_enough,
            v.counted,
            few_flags,
            m.3 (k + w.flags_below - id),
          );
        }

  module _ (within : in_window w id ≡ true) where
    move_window-IsFlagSet :
        w.center_index < id → id + w.flags_above ≤ 4294967295 → IsFlagSet (move_window id w)
    unfolding move_window
    move_window-IsFlagSet ahead high =
        if-cases
          (λ b. IsFlagSet (record w { center_index = id; flags = bitset_add b w.flags_below }))
          (ltb w.flags_below (id - w.center_index)) _ _
          (λ e.
            at_center-IsFlagSet (bitset_clear w.flags) (clear-IsMoved (ground (arith, e))) ahead
              high)
          (λ e.
            at_center-IsFlagSet (moved_flags (id - w.center_index) w)
              (moved_flags-IsMoved (ground (arith, e))) ahead high)

    abbrev in_place : Window
    in_place = record w { flags = bitset_add w.flags (id + w.flags_below - w.center_index) }

    in_place-IsFlagSet : id ≤ w.center_index → IsFlagSet in_place
    in_place-IsFlagSet behind =
        let at = id + w.flags_below - w.center_index in
        let fits : at < 2048 = omega (arith, few_flags) in
        let index : at < length w.flags.bytes * 8 =
          ground (arith, v.bytes_enough, v.counted, within) in
        let bits = flags-IsBitset w v in
        let added = add-IsBitset w.flags at fits bits in
        let long = length-add w.flags at in
        let count : (bitset_add w.flags at).bytes_count ≡ w.flags.bytes_count =
          unfold bitset_add in refl in
        record {
          window = record {
            bytes_enough = omega (arith, count, v.bytes_enough);
            counted = omega (arith, long, count, v.counted);
            short = omega (arith, long, v.short);
            small = omega (arith, count, v.small);
            are_bytes = added.are_bytes;
            above_byte = v.above_byte;
            low = v.low;
            high = v.high;
          };
          below_same = refl;
          above_same = refl;
          length_same = long;
          count_same = count;
          center = ground arith;
          marks = λ k h. ground (
            arith,
            contains-add w.flags at (k + w.flags_below - w.center_index) bits index,
            few_flags,
            within,
          );
        }

    set_id_flag_within :
        set_id_flag w id
        ≡ (if leb id w.center_index then (true, in_place) else (true, move_window id w))
    unfolding set_id_flag
    set_id_flag_within = ground (
      arith,
      within,
      v.low,
      v.high,
      v.above_byte,
      few_flags,
      id_within_window_lem w id v,
      index_eq w id v,
    )

    abbrev IsDone : Bool × Window → Type 0
    IsDone a = (a.0 ≡ true) × IsFlagSet a.1

    -- In a well-formed window of at most five bytes, setting the flag of an ID in it succeeds and
    -- leaves a well-formed window of the same shape in which exactly that ID is marked besides,
    -- with the IDs that it pushes out; the center moves to the ID if that lies ahead. The window
    -- around the ID ends within 32 bits.
    pub set_id_flag_lem :
        id + w.flags_above ≤ 4294967295
        → ((set_id_flag w id).0 ≡ true) × IsFlagSet (set_id_flag w id).1
    set_id_flag_lem high = subst IsDone (sym set_id_flag_within) (
        if-cases IsDone (leb id w.center_index) _ _
          (λ e. (refl, in_place-IsFlagSet (ground (arith, e))))
          (λ e. (refl, move_window-IsFlagSet (ground (arith, e)) high)))

  -- An ID outside is refused.
  pub set_id_flag_outside : in_window w id ≡ false → set_id_flag w id ≡ (false, w)
  unfolding set_id_flag
  set_id_flag_outside outside =
      ground (arith, v.low, v.high, v.above_byte, id_within_window_lem w id v)
