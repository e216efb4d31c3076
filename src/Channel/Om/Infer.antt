-- ===== src/Channel/Om/Infer.antt =====
-- The inference of the fields of an origin command in nexus/src/nexus_channel_om.c: it finds the
-- first command ID of the window that is unused and authenticates the command.
use nexus_embedded.Base.{
  ℕ, zero, suc, ◌+◌, ◌-◌, ◌%◌, ◌≤◌, ◌<◌, ◌≡◌, refl, Bool, true, false, ◌&&◌, not, List, [], ◌∷◌,
  u32, sub32, leb, ◌==◌, arith, if-cases, Bool-cases, inl, inr,
}
use nexus_embedded.Util.Window.{Window, id_within_window, id_flag_already_set}
use nexus_embedded.Util.Window.Laws.{IsWindow, id_within_window_lem}
use nexus_embedded.Channel.Om.{
  CommandBody, controller_action, accessory_action, create_link, NxId, OmMessage, inner_auth,
  try_accessories, infer_fields_from, infer_fields_compute_auth, accessories_list,
}

module _ (w : Window) (key : List ℕ) (m : OmMessage) where
  abbrev pub with_command_id : ℕ → OmMessage
  with_command_id id = record m { computed_command_id = id }

  -- A command ID not used before with which the command authenticates.
  abbrev pub authenticates : ℕ → Bool
  authenticates id =
      not (id_flag_already_set w id) && (inner_auth m.body (with_command_id id) key).0

  -- The outcome of a search from `first` to `last`.
  abbrev pub IsFirstCommand : (first last : ℕ) → Bool × OmMessage → Type 0
  IsFirstCommand first last (true, found) =
      (id : ℕ) × (found ≡ (inner_auth m.body (with_command_id id) key).1)
      × (first ≤ id)
      × (id ≤ last)
      × (authenticates id ≡ true)
      × ((t : ℕ) → first ≤ t → t < id → authenticates t ≡ false)
  IsFirstCommand first last (false, _) = (t : ℕ) → first ≤ t → t ≤ last → authenticates t ≡ false

  next-IsFirstCommand :
      (n last : ℕ) (a : Bool × OmMessage)
      → authenticates n ≡ false
      → IsFirstCommand (n + 1) last a
      → IsFirstCommand n last a
  next-IsFirstCommand n last (true, found) e h = (
    h.0,
    h.1,
    omega (arith, h.2),
    h.3,
    h.4,
    λ t a b. elim (Bool-cases (n == t)) [
      | inl q ↦ let same : t ≡ n = ground (arith, q) in rw same e
      | inr q ↦ h.5 t (ground (arith, q)) b
    ],
  )
  next-IsFirstCommand n last (false, found) e h = λ t a b. elim (Bool-cases (n == t)) [
    | inl q ↦ let same : t ≡ n = ground (arith, q) in rw same e
    | inr q ↦ h t (ground (arith, q)) b
  ]

  module _ (lo last : ℕ) (small : last < 4294967295)
      (window : (id : ℕ) → id_within_window w id ≡ (leb lo id && leb id last)) where
    infer_fields_from-IsFirst :
        (rounds n : ℕ)
        → lo ≤ n
        → n ≤ last + 1
        → last + 1 < n + rounds
        → IsFirstCommand n last (infer_fields_from rounds w key (with_command_id n))
    unfolding infer_fields_from
    infer_fields_from-IsFirst zero n a b c = absurd (omega arith)
    infer_fields_from-IsFirst (suc rounds) n a b c =
        if-cases (IsFirstCommand n last) (not (id_within_window w n)) _ _
          (λ e t h k. absurd (ground (arith, e, window n)))
          (λ inside.
            if-cases (IsFirstCommand n last) (authenticates n) _ _
              (λ e. (
                n,
                refl,
                omega arith,
                ground (arith, window n, inside),
                e,
                λ t h k. absurd (omega arith),
              ))
              (λ e.
                let next : u32 (n + 1) ≡ n + 1 = ground (arith, window n, inside) in
                rw next (
                  next-IsFirstCommand n last _ e (
                    infer_fields_from-IsFirst rounds (n + 1) (omega arith)
                      (ground (arith, window n, inside)) (omega arith)))))

  -- In a well-formed window that ends below the largest 32-bit number, the search for the ID of an
  -- origin command runs to its end: it either finds the first command ID of the window that is not
  -- used and authenticates the command, or there is none.
  pub infer_fields_compute_auth-IsFirst :
      IsWindow w
      → w.center_index + w.flags_above < 4294967295
      → IsFirstCommand
          (w.center_index - w.flags_below)
          (w.center_index + w.flags_above)
          (infer_fields_compute_auth m w key)
  unfolding infer_fields_compute_auth
  infer_fields_compute_auth-IsFirst v high =
      let low : sub32 w.center_index w.flags_below ≡ w.center_index - w.flags_below =
        omega (arith, v.low, v.high) in
      let first = w.center_index - w.flags_below in
      let last = w.center_index + w.flags_above in
      rw low (
        infer_fields_from-IsFirst first last high
          (λ id. let e = id_within_window_lem w id v in ground (arith, e, v.low))
          (w.flags_below + w.flags_above + 2) first (omega arith) (omega (arith, v.low))
          (omega (arith, v.low)))

-- Authenticating a command changes neither its ID nor its type.
try_accessories_id :
    (accessories : List NxId) (bytes_count digits_int : ℕ) (success : Bool) (key : List ℕ)
    (m : OmMessage)
    → (try_accessories accessories bytes_count digits_int success key m).1.computed_command_id
      ≡ m.computed_command_id
unfolding try_accessories
try_accessories_id [] bytes_count digits_int success key m = refl
try_accessories_id (a ∷ accessories) bytes_count digits_int success key m =
    let skipped = try_accessories_id accessories bytes_count digits_int success key m in
    let matched =
      try_accessories_id accessories (bytes_count + 6) digits_int true key
        (record m { body = accessory_action digits_int 1 a }) in
    if-cases (λ (x : Bool × OmMessage). x.1.computed_command_id ≡ m.computed_command_id)
      (not (a.device_id % 10 == digits_int)) _ _ (λ _. skipped)
      (λ _.
        if-cases (λ (x : Bool × OmMessage). x.1.computed_command_id ≡ m.computed_command_id) _ _ _
          (λ _. matched) (λ _. skipped))

pub inner_auth_id :
    (b : CommandBody) (m : OmMessage) (key : List ℕ)
    → (inner_auth b m key).1.computed_command_id ≡ m.computed_command_id
unfolding inner_auth
inner_auth_id (controller_action action_type) m key = refl
inner_auth_id (accessory_action digits_int digits_count computed) m key =
    ground (arith, try_accessories_id accessories_list 5 digits_int false key m)
inner_auth_id (create_link six_int_digits) m key = refl
