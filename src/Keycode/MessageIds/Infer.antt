-- ===== src/Keycode/MessageIds/Infer.antt =====
-- The expansion of a compressed message ID.
use nexus_embedded.Base.{
  ℕ, zero, suc, ◌+◌, ◌-◌, ◌%◌, ◌≤◌, ◌<◌, ◌≡◌, inl, inr, arith, u32, sub32, ◌==◌, Bool-cases,
}
use nexus_embedded.Base.Bits.{bit_and_63}
use nexus_embedded.Keycode.MessageIds.{infer_from, infer_full_message_id}

-- The loop stops at the first number with the low bits, if that lies in reach.
infer_from_lem :
    (rounds c last cur t : ℕ)
    → cur ≤ t
    → t ≤ last
    → last < 4294967295
    → t < cur + rounds
    → t % 64 ≡ c
    → t < cur + 64
    → infer_from rounds c last cur ≡ t
unfolding infer_from
infer_from_lem zero c last cur t a b h r m w = absurd (omega arith)
infer_from_lem (suc rounds) c last cur t a b h r m w =
    let next : u32 (cur + 1) ≡ cur + 1 = omega arith in
    elim (Bool-cases (cur == t)) [
      | inl e ↦ ground (arith, bit_and_63 cur, e)
      | inr e ↦
          rw next (ground (arith, bit_and_63 cur, e, infer_from_lem rounds c last (cur + 1) t))
    ]

-- For a Pd from 23 to 4294967254, expanding six bits of a message ID gives the one ID of the window
-- from Pd - 23 to Pd + 40 that has those low bits.
pub infer_full_message_id_lem :
    (c pd : ℕ)
    → c < 64
    → 23 ≤ pd
    → pd ≤ 4294967254
    → (pd ≤ infer_full_message_id c pd 23 40 + 23)
      × (infer_full_message_id c pd 23 40 ≤ pd + 40)
      × (infer_full_message_id c pd 23 40 % 64 ≡ c)
      × ((t : ℕ) → pd ≤ t + 23 → t ≤ pd + 40 → t % 64 ≡ c → infer_full_message_id c pd 23 40 ≡ t)
unfolding infer_full_message_id
infer_full_message_id_lem c pd hc lo hi =
    let low : sub32 pd 23 ≡ pd - 23 = omega arith in
    let top : u32 (pd + 40) ≡ pd + 40 = omega arith in
    let t0 = pd - 23 + (c + 64 - (pd - 23) % 64) % 64 in
    let e : infer_full_message_id c pd 23 40 ≡ t0 =
      rw (low, top)
        (infer_from_lem 65 c (pd + 40) (pd - 23) t0 (omega arith) (omega arith) (omega arith)
          (omega arith) (omega arith) (omega arith)) in
    rw e (omega arith, omega arith, omega arith, λ t a b m. omega arith)
