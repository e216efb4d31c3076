-- ===== src/Channel/Om/Memory.antt =====
-- RAM and nonvolatile memory agree on the stored data of origin commands.
use nexus_embedded.Base.{
  ℕ, ◌≤◌, ◌≡◌, ap, ◌∙◌, Bool, arith, length, replicate, IsBytes, le32, length-append,
}
use nexus_embedded.Nv.{nv_read, nv_update}
use nexus_embedded.Nv.Laws.{IsReliable, Holds}
use nexus_embedded.Nv.RoundTrip.{IsIntact, read-update, read-update_restart, update-IsIntact}
use nexus_embedded.Util.Window.Laws.{IsWindow, marked}
use nexus_embedded.Channel.Om.{
  OmStored, om_bytes, om_of_bytes, block_channel_om, Controller, OmState, om_init, om_load,
  om_window,
}

-- Well-formed stored data: four bytes of flags, and a window clear of the ends of 32-bit numbers.
pub record IsOmStored (s : OmStored) : Type 0 where
  pub four : length s.received_ids ≡ 4
  pub are_bytes : IsBytes s.received_ids
  pub low : 31 ≤ s.command_index
  pub high : s.command_index ≤ 4294967287

pub om_window-IsWindow : (s : OmStored) → IsOmStored s → IsWindow (om_window s)
unfolding om_window
om_window-IsWindow s v = record {
  bytes_enough = omega arith;
  counted = omega (arith, v.four);
  short = omega (arith, v.four);
  small = omega arith;
  are_bytes = v.are_bytes;
  above_byte = omega arith;
  low = omega (arith, v.low);
  high = omega (arith, v.high);
}

-- Well-formed stored data are read back unchanged from the eight bytes they take in memory.
pub om_of_bytes-om_bytes : (s : OmStored) → IsOmStored s → om_of_bytes (om_bytes s) ≡ s
unfolding om_of_bytes om_bytes
om_of_bytes-om_bytes s v = ground (arith, v.high)

-- A command ID that can no longer be applied.
abbrev pub is_used : OmStored → ℕ → Bool
is_used s id = marked (om_window s) id

module _ {F C : Type 0} (k : Controller F C) where
  abbrev pub fresh : OmStored
  fresh = record { command_index = 31; received_ids = replicate 4 0 }

  -- The state between two commands: the stored data are well formed and agree with memory.
  pub record IsOmState (s : OmState F C) : Type 0 where
    pub valid : IsOmStored s.stored
    pub synced : (nv_read k.nv block_channel_om (om_bytes s.stored) s.flash).1 ≡ om_bytes s.stored
    pub intact : IsIntact k.nv block_channel_om s.flash
    pub restart : (nv_read k.nv block_channel_om (om_bytes fresh) s.flash).1 ≡ om_bytes s.stored

  pub om_load_eq : (s : OmState F C) → IsOmState s → om_load k s ≡ s
  unfolding om_load
  om_load_eq s v =
      ap (λ t. record s { stored = t })
        (ap om_of_bytes v.synced ∙ om_of_bytes-om_bytes s.stored v.valid)

  -- Initialisation after a power cycle gives the state of the origin commands back as it was.
  pub om_init_eq : (s : OmState F C) → IsOmState s → om_init k s ≡ s
  unfolding om_init
  om_init_eq s v =
      ap (λ t. record s { stored = t })
        (ap om_of_bytes v.restart ∙ om_of_bytes-om_bytes s.stored v.valid)

  -- Writing well-formed stored data out brings memory up to date.
  pub written-IsOmState :
      (s : OmState F C)
      → IsReliable k.nv
      → IsOmStored s.stored
      → IsIntact k.nv block_channel_om s.flash
      → IsOmState
          (record s { flash = (nv_update k.nv block_channel_om (om_bytes s.stored) s.flash).1 })
  written-IsOmState s r v i =
      let holds : Holds block_channel_om (om_bytes s.stored) = record {
        block = omega arith;
        size =
            unfold om_bytes in
            omega
              (arith, length-append (le32 s.stored.command_index) s.stored.received_ids, v.four);
      } in
      record {
        valid = v;
        synced = read-update k.nv r block_channel_om (om_bytes s.stored) holds s.flash;
        intact = update-IsIntact k.nv r block_channel_om (om_bytes s.stored) holds s.flash i;
        restart =
            ap (λ a. a.1)
              (read-update_restart k.nv r block_channel_om (om_bytes s.stored) holds s.flash
                (om_bytes fresh) i).1;
      }
