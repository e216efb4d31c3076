-- ===== src/Keycode/MessageIds/Shift.antt =====
-- What moving the window to the right does to a device.
use nexus_embedded.Base.{
  ℕ, ◌+◌, ◌≤◌, ◌<◌, ◌≡◌, refl, ap, ◌∙◌, false, ◌&&◌, List, inl, inr, arith, drop, replicate, u32,
  ltb, Bool-cases, length-append, length-drop, append-IsBytes, drop-IsBytes, replicate-IsBytes,
}
use nexus_embedded.Nv.Laws.{IsReliable}
use nexus_embedded.Util.Bitset.{bitset_init, bitset_contains, bitset_clear}
use nexus_embedded.Util.Bitset.Laws.{contains-clear}
use nexus_embedded.Keycode.State.{Product, Stored, Device}
use nexus_embedded.Keycode.MessageIds.{
  received_ids, shifted_flags, store_flags, update_nv_blocks, wipe_message_ids_in_window, raise_pd,
  increase_pd_and_shift_window_right,
}
use nexus_embedded.Keycode.MessageIds.Codec.{IsStored}
use nexus_embedded.Keycode.MessageIds.Memory.{
  IsDevice, IsSound, update_nv_blocks-IsSound, update_nv_blocks-IsDevice,
}
use nexus_embedded.Keycode.MessageIds.Window.{
  IsFlags, shifted_flags-IsFlags, drop-shifted_flags, contains-shifted_flags,
}

pub stored-IsFlags : (s : Stored) → IsStored s → IsFlags s.received_flags
stored-IsFlags s v = record { five = v.five; are_bytes = v.are_bytes }

-- Well-formed data stay so under new flags and a new `Pd`.
pub with_flags-IsStored :
    (s : Stored) (flags : List ℕ) (pd : ℕ)
    → IsStored s
    → IsFlags flags
    → 23 ≤ pd
    → pd ≤ 65535
    → IsStored (record s { received_flags = flags; pd_index = pd })
with_flags-IsStored s flags pd v f lo hi = record {
  five = f.five;
  are_bytes = f.are_bytes;
  pd_low = lo;
  pd_high = hi;
  qc_byte = v.qc_byte;
  custom_byte = v.custom_byte;
  pad_byte = v.pad_byte;
}

pub cleared-IsFlags :
    (flags : List ℕ) → IsFlags flags → IsFlags (bitset_clear (bitset_init flags 3)).bytes
unfolding bitset_clear
cleared-IsFlags flags f = record {
  five = omega (arith, length-append (replicate 3 0) (drop 3 flags), length-drop 3 flags, f.five);
  are_bytes =
      append-IsBytes (replicate 3 0) (drop 3 flags) (replicate-IsBytes 3 0 (omega arith))
        (drop-IsBytes 3 flags f.are_bytes);
}

pub contains-cleared :
    (flags : List ℕ) (k : ℕ)
    → k < 24
    → bitset_contains (bitset_init (bitset_clear (bitset_init flags 3)).bytes 3) k ≡ false
contains-cleared flags k h =
    cleared_lem (contains-clear (bitset_init flags 3) k (omega arith) (omega arith))
  where
    cleared_lem :
        bitset_contains (bitset_clear (bitset_init flags 3)) k ≡ false
        → bitset_contains (bitset_init (bitset_clear (bitset_init flags 3)).bytes 3) k ≡ false
    cleared_lem e = unfold bitset_clear in e

drop-cleared : (flags : List ℕ) → drop 3 (bitset_clear (bitset_init flags 3)).bytes ≡ drop 3 flags
unfolding bitset_clear
drop-cleared flags = refl

module _ {F : Type 0} (p : Product F) (r : IsReliable p.nv) where
  -- How `d'` comes from `d` by moving the window up by `inc`.
  pub record IsShifted (inc : ℕ) (d d' : Device F) : Type 0 where
    pub device : IsDevice p.nv d'
    pub pd : d'.stored.pd_index ≡ d.stored.pd_index + inc
    pub flags :
        (k : ℕ)
        → k < 24
        → bitset_contains (received_ids d'.stored) k
          ≡ (ltb (k + inc) 24 && bitset_contains (received_ids d.stored) (k + inc))
    pub other_flags : drop 3 d'.stored.received_flags ≡ drop 3 d.stored.received_flags
    pub qc : d'.stored.qc_test_codes_received ≡ d.stored.qc_test_codes_received
    pub custom : d'.stored.custom_flags ≡ d.stored.custom_flags
    pub pad : d'.stored.pad ≡ d.stored.pad
    pub calls : d'.calls ≡ d.calls

  -- Raising `Pd` after the flags have been replaced by ones that are the old ones moved down.
  raise_pd-IsShifted :
      (inc : ℕ) (d d1 : Device F) (flags : List ℕ)
      → IsDevice p.nv d
      → d.stored.pd_index + inc ≤ 65535
      → d1.stored ≡ record d.stored { received_flags = flags }
      → d1.calls ≡ d.calls
      → IsSound p.nv d1.flash
      → IsFlags flags
      → drop 3 flags ≡ drop 3 d.stored.received_flags
      → ((k : ℕ)
          → k < 24
          → bitset_contains (bitset_init flags 3) k
            ≡ (ltb (k + inc) 24 && bitset_contains (received_ids d.stored) (k + inc)))
      → IsShifted inc d (raise_pd p inc d1)
  raise_pd-IsShifted inc d d1 flags v h es ec i f o law = record {
    device = unfold raise_pd in update_nv_blocks-IsDevice p d2 r stored_valid i;
    pd = raised_pd;
    flags = λ k hk. ap (λ s. bitset_contains (received_ids s) k) raised ∙ law k hk;
    other_flags = ap (λ s. drop 3 s.received_flags) raised ∙ o;
    qc = ap (λ s. s.qc_test_codes_received) raised;
    custom = ap (λ s. s.custom_flags) raised;
    pad = ap (λ s. s.pad) raised;
    calls = unfold raise_pd update_nv_blocks in ec;
  }
    where
      d2 : Device F
      d2 = record d1 { stored = record d1.stored { pd_index = u32 (d1.stored.pd_index + inc) } }

      raised_pd : (raise_pd p inc d1).stored.pd_index ≡ d.stored.pd_index + inc
      raised_pd = unfold raise_pd update_nv_blocks in (rw es (omega arith))

      raised :
          (raise_pd p inc d1).stored
          ≡ record d.stored { received_flags = flags; pd_index = u32 (d.stored.pd_index + inc) }
      raised = unfold raise_pd update_nv_blocks in (rw es)

      stored_valid : IsStored d2.stored
      stored_valid = rw es (
          with_flags-IsStored d.stored flags (u32 (d.stored.pd_index + inc)) v.valid f
            (omega (arith, v.valid.pd_low)) (omega arith))

  -- With reliable memory, moving the window of a proper device up, within 16 bits, raises Pd by
  -- that much and moves every flag down by that much, with zeros coming in at the top; the bytes of
  -- flags behind the window, the QC counts, the custom flags, the pad byte and the calls stay, and
  -- memory agrees with RAM.
  pub increase_pd-IsShifted :
      (inc : ℕ) (d : Device F)
      → IsDevice p.nv d
      → d.stored.pd_index + inc ≤ 65535
      → IsShifted inc d (increase_pd_and_shift_window_right p inc d)
  unfolding increase_pd_and_shift_window_right wipe_message_ids_in_window update_nv_blocks
  increase_pd-IsShifted inc d v h =
      let f = stored-IsFlags d.stored v.valid in
      let flags = d.stored.received_flags in
      let cleared = (bitset_clear (received_ids d.stored)).bytes in
      let wiped_intact =
        update_nv_blocks-IsSound p (store_flags cleared d) r
          (with_flags-IsStored d.stored cleared d.stored.pd_index v.valid (cleared-IsFlags flags f)
            v.valid.pd_low v.valid.pd_high)
          v.intact in
      elim (Bool-cases (ltb 23 inc)) [
        | inl far ↦ rw far (
            raise_pd-IsShifted inc d (wipe_message_ids_in_window p d)
              (bitset_clear (received_ids d.stored)).bytes v h refl refl wiped_intact
              (cleared-IsFlags flags f) (drop-cleared flags)
              (λ k hk. contains-cleared flags k hk ∙ ground (arith, far)))
        | inr near ↦ rw near (
            raise_pd-IsShifted inc d (store_flags (shifted_flags inc flags) d)
              (shifted_flags inc flags) v h refl refl v.intact
              (shifted_flags-IsFlags inc flags f (ground (arith, near)))
              (drop-shifted_flags inc flags f (ground (arith, near)))
              (contains-shifted_flags inc flags f (ground (arith, near))))
      ]
