-- ===== src/Channel/Links.antt =====
-- The link manager, nexus/src/nexus_channel_res_lm.c, without its resource for the OCF stack.
pub mod Invariant
pub mod Room
pub mod Created
use nexus_embedded.Base.{
  ℕ, zero, suc, ◌+◌, ◌-◌, ◌*◌, ◌%◌, Bool, true, false, ◌&&◌, not, Option, none, some, List, [], ◌∷◌,
  ◌++◌, get_or, take, drop, length, replicate, u8, u32, le16, le32, ltb, leb, ◌==◌, if◌then◌else◌,
}
use nexus_embedded.Nv.{BlockMeta, Nvm, nv_read, nv_update}
use nexus_embedded.Channel.Om.{NxId}

abbrev pub link_timeout_seconds : ℕ
link_timeout_seconds = 7776000

abbrev pub nonce_nv_storage_interval_count : ℕ
nonce_nv_storage_interval_count = 64

-- `enum nexus_channel_link_operating_mode`, as far as links have it, and the one security mode.
abbrev pub operating_mode_controller : ℕ
operating_mode_controller = 1

abbrev pub operating_mode_accessory : ℕ
operating_mode_accessory = 0

abbrev pub security_mode_mac0_siphash24 : ℕ
security_mode_mac0_siphash24 = 0

-- `nexus_channel_link_t`.
pub record Link : Type 0 where
  pub linked_device_id : NxId
  pub operating_mode : ℕ
  pub security_mode : ℕ
  pub seconds_since_init : ℕ
  pub seconds_since_active : ℕ
  pub sym_key : List ℕ
  pub nonce : ℕ

abbrev pub zero_link : Link
zero_link = record {
  linked_device_id = record { authority_id = 0; device_id = 0 };
  operating_mode = 0;
  security_mode = 0;
  seconds_since_init = 0;
  seconds_since_active = 0;
  sym_key = replicate 16 0;
  nonce = 0;
}

-- Its 36 bytes in memory, packed, and the link that 36 bytes hold.
unfoldable pub link_bytes : Link → List ℕ
link_bytes l =
    le16 l.linked_device_id.authority_id
    ++ (le32 l.linked_device_id.device_id
        ++ (l.operating_mode ∷ l.security_mode ∷ le32 l.seconds_since_init
            ++ (le32 l.seconds_since_active ++ (l.sym_key ++ le32 l.nonce))))

-- The 32-bit number at a place.
abbrev word_at : List ℕ → ℕ → ℕ
word_at b i =
    get_or b i 0
    + get_or b (i + 1) 0 * 256
    + get_or b (i + 2) 0 * 65536
    + get_or b (i + 3) 0 * 16777216

unfoldable pub link_of_bytes : List ℕ → Link
link_of_bytes b = record {
  linked_device_id = record {
    authority_id = get_or b 0 0 + get_or b 1 0 * 256;
    device_id = word_at b 2;
  };
  operating_mode = get_or b 6 0;
  security_mode = get_or b 7 0;
  seconds_since_init = word_at b 8;
  seconds_since_active = word_at b 12;
  sym_key = take 16 (drop 16 b);
  nonce = word_at b 32;
}

-- One place of the arrays of links and their two flags.
pub record Slot : Type 0 where
  pub link : Link
  pub in_use : Bool
  pub should_persist_nonce : Bool

abbrev pub empty_slot : Slot
empty_slot = record { link = zero_link; in_use = false; should_persist_nonce = false }

pub data LinkEvent : Type 0 where
  established_as_controller : LinkEvent
  established_as_accessory : LinkEvent
  link_deleted : LinkEvent
  processing_requested : LinkEvent

-- What the loops over the links change besides them.
pub record Rest (F : Type 0) : Type 0 where
  pub link_count : ℕ
  pub flash : F
  pub events : List LinkEvent

-- `_this`.
pub record Links (F : Type 0) : Type 0 where
  pub slots : List Slot
  pub rest : Rest F
  pub pending_link_to_create : Link
  pub pending_add_link : Bool
  pub pending_clear_all_links : Bool

-- `_nexus_channel_link_manager_index_to_nv_block`: the links have the ten blocks from block 4 on.
abbrev pub index_to_nv_block : ℕ → BlockMeta
index_to_nv_block index = record { block_id = 4 + index; length = 40 }

abbrev pub same_id : NxId → NxId → Bool
same_id a b = (a.device_id == b.device_id) && (a.authority_id == b.authority_id)

-- `_nexus_channel_link_manager_link_index_from_nxid`, from an index on.
unfoldable pub link_index_from_nxid : NxId → (index : ℕ) → List Slot → Option ℕ
link_index_from_nxid id index [] = none
link_index_from_nxid id index (slot ∷ slots) =
    let rest = link_index_from_nxid id (index + 1) slots in
    if slot.in_use && same_id slot.link.linked_device_id id then some index else rest

-- The loop of `_nexus_channel_link_manager_oldest_accessory_link_idx`.
unfoldable pub oldest_accessory_link_idx :
    (index oldest_secs : ℕ) (found : Option ℕ) → List Slot → Option ℕ
oldest_accessory_link_idx index oldest_secs found [] = found
oldest_accessory_link_idx index oldest_secs found (slot ∷ slots) =
    let skipped = oldest_accessory_link_idx (index + 1) oldest_secs found slots in
    let taken =
      oldest_accessory_link_idx (index + 1) slot.link.seconds_since_init (some index) slots in
    if not (slot.link.operating_mode == operating_mode_accessory)
    then skipped
    else if slot.in_use && leb oldest_secs slot.link.seconds_since_init
    then taken
    else skipped

module _ {F : Type 0} (nv : Nvm F) where
  abbrev pub persist : (index : ℕ) → Link → F → F
  persist index link flash = (nv_update nv (index_to_nv_block index) (link_bytes link) flash).1

  -- `_nexus_channel_link_manager_clear_link_internal`.
  unfoldable pub clear_link_internal : (index : ℕ) → Slot → Rest F → Slot × Rest F
  clear_link_internal index slot rest = if not slot.in_use then (slot, rest) else (
    record slot { link = zero_link; in_use = false },
    record {
      link_count = u8 (rest.link_count + 255);
      flash = persist index zero_link rest.flash;
      events = rest.events ++ (link_deleted ∷ []);
    },
  )

  -- The same for the link `steps` places on.
  unfoldable pub clear_link_at : (steps index : ℕ) → List Slot → Rest F → List Slot × Rest F
  unfolding clear_link_internal
  clear_link_at steps index [] rest = ([], rest)
  clear_link_at zero index (slot ∷ slots) rest =
      let (slot1, rest1) = clear_link_internal index slot rest in (slot1 ∷ slots, rest1)
  clear_link_at (suc steps) index (slot ∷ slots) rest =
      let (slots1, rest1) = clear_link_at steps (index + 1) slots rest in (slot ∷ slots1, rest1)

  -- `_nexus_channel_link_manager_clear_links_internal`.
  unfoldable pub clear_links_internal : (index : ℕ) → List Slot → Rest F → List Slot × Rest F
  unfolding clear_link_internal
  clear_links_internal index [] rest = ([], rest)
  clear_links_internal index (slot ∷ slots) rest =
      let (slot1, rest1) = clear_link_internal index slot rest in
      let (slots1, rest2) = clear_links_internal (index + 1) slots rest1 in (slot1 ∷ slots1, rest2)

  -- The first loop of `nexus_channel_link_manager_process`, for one link and for all.
  unfoldable pub process_link : (seconds_elapsed index : ℕ) → Slot → Rest F → Slot × Rest F
  unfolding clear_link_internal
  process_link seconds_elapsed index slot rest =
      let slot1 = record slot {
        link = record slot.link {
          seconds_since_init = u32 (slot.link.seconds_since_init + seconds_elapsed);
          seconds_since_active = u32 (slot.link.seconds_since_active + seconds_elapsed);
        };
      } in
      if not slot.in_use
      then (slot, rest)
      else if ltb link_timeout_seconds slot1.link.seconds_since_active
      then clear_link_internal index slot1 rest
      else if (slot.link.security_mode == security_mode_mac0_siphash24) && slot.should_persist_nonce
      then (
        record slot1 { should_persist_nonce = false },
        record rest { flash = persist index slot1.link rest.flash },
      )
      else (slot1, rest)

  unfoldable pub process_links :
      (seconds_elapsed index : ℕ) → List Slot → Rest F → List Slot × Rest F
  unfolding process_link
  process_links seconds_elapsed index [] rest = ([], rest)
  process_links seconds_elapsed index (slot ∷ slots) rest =
      let (slot1, rest1) = process_link seconds_elapsed index slot rest in
      let (slots1, rest2) = process_links seconds_elapsed (index + 1) slots rest1 in
      (slot1 ∷ slots1, rest2)

  -- Its second loop, which stores a new link at the first free place.
  unfoldable pub add_link : Link → (index : ℕ) → List Slot → Rest F → List Slot × Rest F
  add_link link index [] rest = ([], rest)
  add_link link index (slot ∷ slots) rest =
      let (slots1, rest1) = add_link link (index + 1) slots rest in
      let event =
        if link.operating_mode == operating_mode_controller
        then established_as_controller
        else established_as_accessory in
      if not slot.in_use
      then (
        record slot { link = link; in_use = true } ∷ slots,
        record {
          link_count = u8 (rest.link_count + 1);
          flash = persist index link rest.flash;
          events = rest.events ++ (event ∷ []);
        },
      )
      else (slot ∷ slots1, rest1)

  -- `nexus_channel_link_manager_process`, but for its answer, which is always the idle time.
  unfoldable pub links_process : (seconds_elapsed : ℕ) → Links F → Links F
  unfolding process_links add_link clear_links_internal
  links_process seconds_elapsed s =
      let (slots1, rest1) = process_links seconds_elapsed 0 s.slots s.rest in
      let (slots2, rest2) = add_link s.pending_link_to_create 0 slots1 rest1 in
      let (slots3, rest3) = clear_links_internal 0 slots1 rest1 in
      if s.pending_add_link
      then record s {
        slots = slots2;
        rest = rest2;
        pending_link_to_create = zero_link;
        pending_add_link = false;
      }
      else if s.pending_clear_all_links
      then record s { slots = slots3; rest = rest3; pending_clear_all_links = false }
      else record s { slots = slots1; rest = rest1 }

abbrev pub request_processing : {F : Type 0} → Rest F → Rest F
request_processing rest = record rest { events = rest.events ++ (processing_requested ∷ []) }

-- `nexus_channel_link_manager_clear_all_links`.
unfoldable pub clear_all_links : {F : Type 0} → Links F → Links F
clear_all_links s = record s { pending_clear_all_links = true; rest = request_processing s.rest }

-- The end of `nexus_channel_link_manager_create_link`: the link that becomes pending.
unfoldable pub with_pending :
    {F : Type 0}
    → NxId
    → (operating_mode security_mode : ℕ) (sym_key : List ℕ) (nonce : ℕ) → Links F
    → Links F
with_pending id operating_mode security_mode sym_key nonce s = record s {
  pending_add_link = true;
  pending_link_to_create = record {
    linked_device_id = id;
    operating_mode = operating_mode;
    security_mode = security_mode;
    seconds_since_init = 0;
    seconds_since_active = 0;
    sym_key = sym_key;
    nonce = nonce;
  };
  rest = request_processing s.rest;
}

module _ {F : Type 0} (nv : Nvm F) where
  -- The state once the link at an index is cleared.
  unfoldable pub without_link : ℕ → Links F → Links F
  unfolding clear_link_at
  without_link index s =
      let (slots1, rest1) = clear_link_at nv index 0 s.slots s.rest in
      record s { slots = slots1; rest = rest1 }

  -- Making room for a link that replaces none: `none` where the code returns false.
  unfoldable pub make_room : (operating_mode : ℕ) → Option ℕ → Links F → Option (Links F)
  unfolding without_link
  make_room operating_mode none s = none
  make_room operating_mode (some oldest) s =
      if not (operating_mode == operating_mode_accessory)
      then none
      else some (without_link oldest s)

  unfoldable pub free_slot : (operating_mode : ℕ) → Option ℕ → Links F → Option (Links F)
  unfolding without_link make_room
  free_slot operating_mode (some existing) s = some (without_link existing s)
  free_slot operating_mode none s =
      if s.rest.link_count == length s.slots
      then make_room operating_mode (oldest_accessory_link_idx 0 0 none s.slots) s
      else some s

  abbrev pub finish_create :
      NxId
      → (operating_mode security_mode : ℕ) (sym_key : List ℕ) (nonce : ℕ) → Links F
      → Option (Links F)
      → Bool × Links F
  finish_create id operating_mode security_mode sym_key nonce s none = (false, s)
  finish_create id operating_mode security_mode sym_key nonce s (some s1) =
      (true, with_pending id operating_mode security_mode sym_key nonce s1)

  -- `nexus_channel_link_manager_create_link`.
  unfoldable pub create_link :
      NxId
      → (operating_mode security_mode : ℕ) (sym_key : List ℕ) (nonce : ℕ) → Links F
      → Bool × Links F
  unfolding free_slot with_pending
  create_link id operating_mode security_mode sym_key nonce s =
      if s.pending_add_link
      then (false, s)
      else finish_create id operating_mode security_mode sym_key nonce s
          (free_slot operating_mode (link_index_from_nxid id 0 s.slots) s)

  -- The loop of `nexus_channel_link_manager_init`, over the places from an index on, and the
  -- function, but for the registration of the resource.
  unfoldable pub loaded_slot : Bool × List ℕ → Slot
  loaded_slot (found, bytes) =
      let link = link_of_bytes bytes in
      if not found
      then empty_slot
      else if link.linked_device_id.device_id == 0
      then empty_slot
      else record {
        link = record link { nonce = u32 (link.nonce + nonce_nv_storage_interval_count) };
        in_use = true;
        should_persist_nonce = true;
      }

  unfoldable pub load_links : (rounds index : ℕ) → F → List Slot
  unfolding loaded_slot
  load_links zero index flash = []
  load_links (suc rounds) index flash =
      loaded_slot (nv_read nv (index_to_nv_block index) (link_bytes zero_link) flash)
      ∷ load_links rounds (index + 1) flash

-- The number of links in use.
unfoldable pub count_in_use : List Slot → ℕ
count_in_use [] = 0
count_in_use (slot ∷ slots) = (if slot.in_use then 1 else 0) + count_in_use slots

unfoldable pub links_init : {F : Type 0} → Nvm F → (max_simultaneous_links : ℕ) → Links F → Links F
unfolding load_links count_in_use
links_init nv max_simultaneous_links s =
    let slots = load_links nv max_simultaneous_links 0 s.rest.flash in
    record {
      slots = slots;
      rest = record s.rest { link_count = u8 (count_in_use slots) };
      pending_link_to_create = zero_link;
      pending_add_link = false;
      pending_clear_all_links = false;
    }
