-- ===== src/Keycode/Pro/Qc/Counts.antt =====
-- The two counts of the QC byte: neither disturbs the other, and both stay below their limits.
use nexus_embedded.Base.{
  ℕ, ◌+◌, ◌*◌, ◌/◌, ◌%◌, ◌^◌, ◌≤◌, ◌<◌, ◌≡◌, refl, arith, u8, ◌==◌, true, ◌&&◌, bit_and, bit_or,
  all_below, all_below_sound,
}
use nexus_embedded.Nv.Laws.{IsReliable}
use nexus_embedded.Keycode.State.{Config, Product, Stored, Device}
use nexus_embedded.Keycode.MessageIds.{update_nv_blocks}
use nexus_embedded.Keycode.MessageIds.Codec.{IsStored}
use nexus_embedded.Keycode.MessageIds.Memory.{IsDevice, update_nv_blocks-IsDevice}
use nexus_embedded.Keycode.Pro.Qc.{
  get_long_qc_code_count, get_short_qc_code_count, increment_long_qc_test_message_count,
  increment_short_qc_test_message_count, store_qc,
}

nibble_table :
    all_below 256 (λ x. (bit_and x 0x0F == x % 16) && (bit_and x 0xF0 == x / 16 * 16)) ≡ true
unfolding all_below
nibble_table = refl

nibbles : (x : ℕ) → x < 256 → (bit_and x 0x0F ≡ x % 16) × (bit_and x 0xF0 ≡ x / 16 * 16)
nibbles x h = ground (arith, all_below_sound 256 _ x nibble_table h)

join_table :
    all_below 16 (λ lo.
      all_below 16
        (λ hi. (bit_or lo (hi * 16) == lo + hi * 16) && (bit_or (hi * 16) lo == lo + hi * 16)))
    ≡ true
unfolding all_below
join_table = refl

join :
    (lo hi : ℕ)
    → lo < 16
    → hi < 16
    → (bit_or lo (hi * 16) ≡ lo + hi * 16) × (bit_or (hi * 16) lo ≡ lo + hi * 16)
join lo hi a b = ground (
  arith,
  all_below_sound 16
      (λ hi. (bit_or lo (hi * 16) == lo + hi * 16) && (bit_or (hi * 16) lo == lo + hi * 16)) hi
      (all_below_sound 16 _ lo join_table a) b,
)

-- The bytes that the two increments store.
pub long_byte_lt : (x n : ℕ) → x < 256 → n ≤ 15 → bit_or (bit_and x 0x0F) (u8 (n * 2 ^ 4)) < 256
long_byte_lt x n h k =
    let e : u8 (n * 2 ^ 4) ≡ n * 16 = omega arith in
    rw e (ground (arith, nibbles x h, join (x % 16) n))

pub short_byte_lt : (x n : ℕ) → x < 256 → n ≤ 15 → bit_or (bit_and x 0xF0) n < 256
short_byte_lt x n h k = ground (arith, nibbles x h, join n (x / 16))

counts_eq :
    (s : Stored)
    → IsStored s
    → (get_long_qc_code_count s ≡ s.qc_test_codes_received / 16)
      × (get_short_qc_code_count s ≡ s.qc_test_codes_received % 16)
unfolding get_long_qc_code_count get_short_qc_code_count
counts_eq s v =
    let n = nibbles s.qc_test_codes_received v.qc_byte in (rw n.1 (omega (arith, v.qc_byte)), n.0)

pub with_qc-IsStored :
    (s : Stored) (n : ℕ) → IsStored s → n < 256 → IsStored (record s { qc_test_codes_received = n })
with_qc-IsStored s n v h = record {
  five = v.five;
  are_bytes = v.are_bytes;
  pd_low = v.pd_low;
  pd_high = v.pd_high;
  qc_byte = h;
  custom_byte = v.custom_byte;
  pad_byte = v.pad_byte;
}

-- A long code adds 16 to the byte and a short one adds 1, below their limits.
module _ {F : Type 0} (c : Config) (p : Product F) (d : Device F) (v : IsDevice p.nv d) where
  abbrev qc : ℕ
  qc = d.stored.qc_test_codes_received

  increment_long_eq :
      c.factory_qc_long_lifetime_max ≤ 15
      → get_long_qc_code_count d.stored < c.factory_qc_long_lifetime_max
      → increment_long_qc_test_message_count c p d ≡ update_nv_blocks p (store_qc (qc + 16) d)
  unfolding increment_long_qc_test_message_count
  increment_long_eq hi lt =
      let e = (counts_eq d.stored v.valid).0 in
      let w : u8 (get_long_qc_code_count d.stored + 1) ≡ qc / 16 + 1 = omega (arith, e) in
      let byte : bit_or (bit_and qc 0x0F) (u8 ((qc / 16 + 1) * 16)) ≡ qc + 16 =
        ground (arith, nibbles qc v.valid.qc_byte, e, join (qc % 16) (qc / 16 + 1)) in
      rw w (rw byte (ground (arith, e)))

  increment_short_eq :
      c.factory_qc_short_lifetime_max ≤ 15
      → get_short_qc_code_count d.stored < c.factory_qc_short_lifetime_max
      → increment_short_qc_test_message_count c p d ≡ update_nv_blocks p (store_qc (qc + 1) d)
  unfolding increment_short_qc_test_message_count
  increment_short_eq hi lt =
      let e = (counts_eq d.stored v.valid).1 in
      let w : u8 (get_short_qc_code_count d.stored + 1) ≡ qc % 16 + 1 = omega (arith, e) in
      let byte : bit_or (bit_and qc 0xF0) (qc % 16 + 1) ≡ qc + 1 =
        ground
          (arith, nibbles qc v.valid.qc_byte, v.valid.qc_byte, e, join (qc % 16 + 1) (qc / 16)) in
      rw w (rw byte (ground (arith, e)))

  module _ (r : IsReliable p.nv) where
    stored_qc-IsDevice : (n : ℕ) → n < 256 → IsDevice p.nv (update_nv_blocks p (store_qc n d))
    stored_qc-IsDevice n h =
        update_nv_blocks-IsDevice p (store_qc n d) r (with_qc-IsStored d.stored n v.valid h)
          v.intact

    counts_after :
        (n : ℕ)
        → n < 256
        → (get_long_qc_code_count (update_nv_blocks p (store_qc n d)).stored ≡ n / 16)
          × (get_short_qc_code_count (update_nv_blocks p (store_qc n d)).stored ≡ n % 16)
    unfolding update_nv_blocks
    counts_after n h =
        counts_eq (record d.stored { qc_test_codes_received = n })
          (with_qc-IsStored d.stored n v.valid h)

    -- On a proper device whose long count is below its limit of at most 15, counting a long QC code
    -- adds one to the long count, keeps the short one, and leaves a proper device.
    pub increment_long_counts :
        c.factory_qc_long_lifetime_max ≤ 15
        → get_long_qc_code_count d.stored < c.factory_qc_long_lifetime_max
        → IsDevice p.nv (increment_long_qc_test_message_count c p d)
          × (get_long_qc_code_count (increment_long_qc_test_message_count c p d).stored
              ≡ get_long_qc_code_count d.stored + 1)
          × (get_short_qc_code_count (increment_long_qc_test_message_count c p d).stored
              ≡ get_short_qc_code_count d.stored)
    increment_long_counts hi lt =
        let e = counts_eq d.stored v.valid in
        let small : qc + 16 < 256 = omega (arith, e.0, v.valid.qc_byte) in
        let after = counts_after (qc + 16) small in
        rw (increment_long_eq hi lt)
          (stored_qc-IsDevice (qc + 16) small, omega (arith, e, after), omega (arith, e, after))

    -- On a proper device whose short count is below its limit of at most 15, counting a short QC
    -- code adds one to the short count, keeps the long one, and leaves a proper device.
    pub increment_short_counts :
        c.factory_qc_short_lifetime_max ≤ 15
        → get_short_qc_code_count d.stored < c.factory_qc_short_lifetime_max
        → IsDevice p.nv (increment_short_qc_test_message_count c p d)
          × (get_short_qc_code_count (increment_short_qc_test_message_count c p d).stored
              ≡ get_short_qc_code_count d.stored + 1)
          × (get_long_qc_code_count (increment_short_qc_test_message_count c p d).stored
              ≡ get_long_qc_code_count d.stored)
    increment_short_counts hi lt =
        let e = counts_eq d.stored v.valid in
        let small : qc + 1 < 256 = omega (arith, e.1, v.valid.qc_byte) in
        let after = counts_after (qc + 1) small in
        rw (increment_short_eq hi lt)
          (stored_qc-IsDevice (qc + 1) small, omega (arith, e, after), omega (arith, e, after))
