-- ===== src/Keycode/Pro/Extended/Order.antt =====
-- Extended messages forget no ID, whatever frame carries them, and take effect in the order of
-- their IDs.
use nexus_embedded.Base.{
  ℕ, ◌≤◌, ◌<◌, ◌≡◌, refl, sym, Bool, true, false, not, Option, none, some, leb, ◌==◌, arith,
  if-cases, if◌then◌else◌, Bool-cases, inl, inr,
}
use mathlib.Core.Path.{subst}
use nexus_embedded.Nv.Laws.{IsReliable}
use nexus_embedded.Util.Bitstream.{Bitstream, pull_bit, pull_uint8}
use nexus_embedded.Keycode.State.{Product, Device, Response, valid_duplicate}
use nexus_embedded.Keycode.MessageIds.Memory.{IsDevice}
use nexus_embedded.Keycode.MessageIds.Window.{used}
use nexus_embedded.Keycode.Pro.Growth.{IsGrown, IsGrown-refl, emit-IsGrown}
use nexus_embedded.Keycode.Pro.Small.{SmallMessage, small_apply_activation}
use nexus_embedded.Keycode.Pro.Small.Laws.{IsInReach, activation_duplicate}
use nexus_embedded.Keycode.Pro.Extended.{
  ExtendedMessage, set_credit_and_wipe_flag, extended_small_parse, extended_small_apply,
  apply_extended, small_internal_bitstream_passthrough,
}
use nexus_embedded.Keycode.Pro.Extended.Apply.{
  Outcome, inferred, extended_small_apply-Outcome, HasApplied-IsGrown,
}

-- A parsed message has the one type there is.
abbrev HasType : Option ExtendedMessage → Type 0
HasType none = Unit
HasType (some m) = m.type_code ≡ set_credit_and_wipe_flag

guarded :
    (b : Bool) (m : ExtendedMessage)
    → (b ≡ false → m.type_code ≡ set_credit_and_wipe_flag)
    → HasType (if b then none else some m)
guarded true m h = tt
guarded false m h = h refl

extended_small_parse-HasType :
    (scratch_id : ℕ) (s : Bitstream) → HasType (extended_small_parse scratch_id s)
unfolding extended_small_parse
extended_small_parse-HasType scratch_id s =
    guarded (not ((pull_uint8 3 s).0 == set_credit_and_wipe_flag)) _ (λ e. ground (arith, e))

module _ {F : Type 0} (p : Product F) (r : IsReliable p.nv) where
  Outcome-IsGrown :
      (m : ExtendedMessage) (d : Device F) (x : Bool × ExtendedMessage) (a : Response × Device F)
      → IsDevice p.nv d
      → Outcome p r m d x a
      → IsGrown p.nv d a.1
  Outcome-IsGrown m d (true, found) a v o = HasApplied-IsGrown p r _ _ d a.1 o.4
  Outcome-IsGrown m d (false, found) a v o =
      subst (λ b. IsGrown p.nv d b.1) (sym o) (emit-IsGrown p.nv _ d d (IsGrown-refl p.nv d v))

  pub extended_small_apply-IsGrown :
      (m : ExtendedMessage) (d : Device F)
      → IsDevice p.nv d
      → d.stored.pd_index ≤ 65494
      → m.type_code ≡ set_credit_and_wipe_flag
      → IsGrown p.nv d (extended_small_apply p m d).1
  extended_small_apply-IsGrown m d v hi t =
      Outcome-IsGrown m d (inferred p r m d) _ v (extended_small_apply-Outcome p r m d v hi t)

  apply_extended-IsGrown :
      (d : Device F) (o : Option ExtendedMessage)
      → IsDevice p.nv d
      → d.stored.pd_index ≤ 65494
      → HasType o
      → IsGrown p.nv d (apply_extended p d o).1
  apply_extended-IsGrown d none v hi t = emit-IsGrown p.nv _ d d (IsGrown-refl p.nv d v)
  apply_extended-IsGrown d (some m) v hi t = extended_small_apply-IsGrown m d v hi t

  -- Whatever bits a passthrough frame carries, handling them forgets no used ID and leaves a proper
  -- device, if Pd is at most 65494.
  pub passthrough-IsGrown :
      (scratch_id : ℕ) (bits : Bitstream) (d : Device F)
      → IsDevice p.nv d
      → d.stored.pd_index ≤ 65494
      → IsGrown p.nv d (small_internal_bitstream_passthrough p scratch_id bits d).1
  unfolding small_internal_bitstream_passthrough
  passthrough-IsGrown scratch_id bits d v hi =
      if-cases (λ (a : Bool × Device F). IsGrown p.nv d a.1) (not ((pull_bit bits).0 == 1)) _ _
        (λ _. IsGrown-refl p.nv d v)
        (λ _.
          apply_extended-IsGrown d (extended_small_parse scratch_id (pull_bit bits).1) v hi
            (extended_small_parse-HasType scratch_id (pull_bit bits).1))

  -- The ID that was inferred for a message, and whether one was.
  abbrev pub applies : ExtendedMessage → Device F → Bool
  applies m d = (inferred p r m d).0

  abbrev pub applied_id : ExtendedMessage → Device F → ℕ
  applied_id m d = (inferred p r m d).1.inferred_message_id

  module _ (m : ExtendedMessage) (d : Device F) (v : IsDevice p.nv d)
      (hi : d.stored.pd_index ≤ 65494) (t : m.type_code ≡ set_credit_and_wipe_flag)
      (found : applies m d ≡ true) where
    unused_before : used d.stored (applied_id m d) ≡ false
    unused_before = before (inferred p r m d) _ (extended_small_apply-Outcome p r m d v hi t) found
      where
        before :
            (x : Bool × ExtendedMessage) (a : Response × Device F)
            → Outcome p r m d x a
            → x.0 ≡ true
            → used d.stored x.1.inferred_message_id ≡ false
        before (true, f) a o e = o.1
        before (false, f) a o e = cc

    used_after :
        (d2 : Device F)
        → IsGrown p.nv (extended_small_apply p m d).1 d2
        → (j : ℕ) → j ≤ applied_id m d
        → used d2.stored j ≡ true
    used_after d2 g j le =
        after (inferred p r m d) (extended_small_apply p m d)
          (extended_small_apply-Outcome p r m d v hi t) found g le
      where
        after :
            (x : Bool × ExtendedMessage) (a : Response × Device F)
            → Outcome p r m d x a
            → x.0 ≡ true
            → IsGrown p.nv a.1 d2
            → j ≤ x.1.inferred_message_id
            → used d2.stored j ≡ true
        after (true, f) a o e h b = h.keeps j (ground (arith, o.4.marks j))
        after (false, f) a o e h b = cc

    -- After an extended message was applied with some ID, on a proper device with Pd at most 65494,
    -- an activation message of the small protocol whose ID is no larger is a duplicate without
    -- effect at any later time, as long as its ID lies in the window.
    pub retires_small_messages :
        (d2 : Device F)
        → IsGrown p.nv (extended_small_apply p m d).1 d2
        → (n : SmallMessage) → IsInReach d2.stored n.full_message_id
        → n.full_message_id ≤ applied_id m d
        → small_apply_activation p n d2 ≡ (valid_duplicate, d2)
    retires_small_messages d2 g n k le =
        activation_duplicate p r n d2 g.device k (used_after d2 g n.full_message_id le)

  -- Extended messages are applied in the order of their IDs: if one was applied on a proper device
  -- and another is applied at any later time, Pd being at most 65494 both times, the ID inferred for
  -- the second is larger. So the same keycode is never applied again with the same ID.
  pub applied_in_order :
      (m m2 : ExtendedMessage) (d d2 : Device F)
      → IsDevice p.nv d
      → d.stored.pd_index ≤ 65494
      → m.type_code ≡ set_credit_and_wipe_flag
      → applies m d ≡ true
      → IsGrown p.nv (extended_small_apply p m d).1 d2
      → d2.stored.pd_index ≤ 65494
      → m2.type_code ≡ set_credit_and_wipe_flag
      → applies m2 d2 ≡ true
      → applied_id m d < applied_id m2 d2
  applied_in_order m m2 d d2 v hi t a g hi2 t2 a2 =
      elim (Bool-cases (leb (applied_id m2 d2) (applied_id m d))) [
        | inl e ↦
            (let u = used_after m d v hi t a d2 g (applied_id m2 d2) (ground (arith, e)) in
              let n = unused_before m2 d2 g.device hi2 t2 a2 in absurd (ground (arith, u, n)))
        | inr e ↦ ground (arith, e)
      ]
