-- ===== src/Keycode/Pro/Extended/Infer.antt =====
-- The inference of a message ID in nexus/src/nexus_keycode_pro_extended.c: it finds the first ID of
-- the window that is unused and authenticates the message.
use nexus_embedded.Base.{
  ℕ, zero, suc, ◌+◌, ◌-◌, ◌≤◌, ◌<◌, ◌≡◌, refl, Bool, true, false, ◌&&◌, not, List, bit_and, u32,
  sub32, leb, ◌==◌, arith, if-cases, Bool-cases, inl, inr,
}
use nexus_embedded.Util.Window.{Window, id_within_window, id_flag_already_set}
use nexus_embedded.Util.Window.Laws.{IsWindow, id_within_window_lem}
use nexus_embedded.Keycode.Pro.Extended.{
  ExtendedMessage, set_credit_and_wipe_flag, infer_inner_compute_auth, infer_windowed_from,
  infer_windowed_message_id,
}

module _ (w : Window) (key : List ℕ) (m : ExtendedMessage) where
  abbrev pub with_id : ℕ → ExtendedMessage
  with_id id = record m { inferred_message_id = id }

  -- An ID with the two bits that were sent, not used before, for which the message has the check.
  abbrev pub accepts : ℕ → Bool
  accepts id =
      (bit_and id 0x03 == m.truncated_message_id)
      && (not (id_flag_already_set w id) && infer_inner_compute_auth (with_id id) key)

  -- The outcome of a search from `first` to `last`.
  abbrev pub IsFirst : (first last : ℕ) → Bool × ExtendedMessage → Type 0
  IsFirst first last (true, found) =
      (found ≡ with_id found.inferred_message_id)
      × (first ≤ found.inferred_message_id)
      × (found.inferred_message_id ≤ last)
      × (accepts found.inferred_message_id ≡ true)
      × ((t : ℕ) → first ≤ t → t < found.inferred_message_id → accepts t ≡ false)
  IsFirst first last (false, _) = (t : ℕ) → first ≤ t → t ≤ last → accepts t ≡ false

  next-IsFirst :
      (n last : ℕ) (a : Bool × ExtendedMessage)
      → accepts n ≡ false
      → IsFirst (n + 1) last a
      → IsFirst n last a
  next-IsFirst n last (true, found) e h = (
    h.0,
    omega (arith, h.1),
    h.2,
    h.3,
    λ t a b. elim (Bool-cases (n == t)) [
      | inl q ↦ let same : t ≡ n = ground (arith, q) in rw same e
      | inr q ↦ h.4 t (ground (arith, q)) b
    ],
  )
  next-IsFirst n last (false, found) e h = λ t a b. elim (Bool-cases (n == t)) [
    | inl q ↦ let same : t ≡ n = ground (arith, q) in rw same e
    | inr q ↦ h t (ground (arith, q)) b
  ]

  module _ (lo last : ℕ) (small : last < 4294967295)
      (window : (id : ℕ) → id_within_window w id ≡ (leb lo id && leb id last)) where
    infer_windowed_from-IsFirst :
        (rounds n : ℕ)
        → lo ≤ n
        → n ≤ last + 1
        → last + 1 < n + rounds
        → IsFirst n last (infer_windowed_from rounds w key (with_id n))
    unfolding infer_windowed_from
    infer_windowed_from-IsFirst zero n a b c = absurd (omega arith)
    infer_windowed_from-IsFirst (suc rounds) n a b c =
        if-cases (IsFirst n last) (not (id_within_window w n)) _ _
          (λ e t h k. absurd (ground (arith, e, window n)))
          (λ inside.
            if-cases (IsFirst n last) (accepts n) _ _
              (λ e. (
                refl,
                omega arith,
                ground (arith, window n, inside),
                e,
                λ t h k. absurd (omega arith),
              ))
              (λ e.
                let next : u32 (n + 1) ≡ n + 1 = ground (arith, window n, inside) in
                rw next (
                  next-IsFirst n last _ e (
                    infer_windowed_from-IsFirst rounds (n + 1) (omega arith)
                      (ground (arith, window n, inside)) (omega arith)))))

  -- In a well-formed window that ends below the largest 32-bit number, the search for the ID of an
  -- extended message of the one type there is runs to its end: it either finds the first ID of the
  -- window that has the two bits sent, is not used and authenticates the message, and sets nothing
  -- else in it; or there is no such ID.
  pub infer_windowed_message_id-IsFirst :
      IsWindow w
      → w.center_index + w.flags_above < 4294967295
      → m.type_code ≡ set_credit_and_wipe_flag
      → IsFirst
          (w.center_index - w.flags_below)
          (w.center_index + w.flags_above)
          (infer_windowed_message_id m w key)
  unfolding infer_windowed_message_id
  infer_windowed_message_id-IsFirst v high t =
      let low : sub32 w.center_index w.flags_below ≡ w.center_index - w.flags_below =
        omega (arith, v.low, v.high) in
      let first = w.center_index - w.flags_below in
      let last = w.center_index + w.flags_above in
      if-cases (IsFirst first last) (not (m.type_code == set_credit_and_wipe_flag)) _ _
        (λ e. absurd (ground (arith, e, t)))
        (λ _. rw low (
          infer_windowed_from-IsFirst first last high
            (λ id. let e = id_within_window_lem w id v in ground (arith, e, v.low))
            (w.flags_below + w.flags_above + 2) first (omega arith) (omega (arith, v.low))
            (omega (arith, v.low))))
