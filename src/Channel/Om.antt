-- ===== src/Channel/Om.antt =====
-- Origin commands: nexus/src/nexus_channel_om.c from a parsed message on, and their application in
-- nexus/src/nexus_channel_core.c.
pub mod Parse
pub mod Memory
pub mod Infer
pub mod Apply
pub mod Once
pub mod Rejects
use nexus_embedded.Base.{
  ℕ, zero, suc, ◌+◌, ◌-◌, ◌*◌, ◌%◌, Bool, true, false, ◌&&◌, ◌||◌, not, List, [], ◌∷◌, ◌++◌,
  bit_and, get_or, take, drop, replicate, u8, u32, sub32, le16, le32, ltb, ◌==◌, if◌then◌else◌,
}
use nexus_embedded.Util.Check.{check_compute, check_value_as_uint64}
use nexus_embedded.Util.Window.{
  Window, window_init, id_within_window, id_flag_already_set, set_id_flag,
}
use nexus_embedded.Nv.{BlockMeta, Nvm, nv_read, nv_update}

-- `enum nexus_channel_om_command_type`.
abbrev pub generic_controller_action : ℕ
generic_controller_action = 0

abbrev pub accessory_action_unlock : ℕ
accessory_action_unlock = 1

abbrev pub accessory_action_unlink : ℕ
accessory_action_unlink = 2

abbrev pub create_accessory_link_mode_3 : ℕ
create_accessory_link_mode_3 = 9

abbrev pub invalid_command_type : ℕ
invalid_command_type = 255

-- `NEXUS_CHANNEL_ORIGIN_COMMAND_UNLINK_ALL_LINKED_ACCESSORIES`.
abbrev unlink_all_linked_accessories : ℕ
unlink_all_linked_accessories = 0

-- `struct nx_id`.
pub record NxId : Type 0 where
  pub authority_id : ℕ
  pub device_id : ℕ

-- `union nexus_channel_om_command_body`: the action type; the digits of the accessory identifier,
-- how many there are and the identifier that is computed; or the challenge.
pub data CommandBody : Type 0 where
  controller_action : (action_type : ℕ) → CommandBody
  accessory_action : (digits_int digits_count : ℕ) (computed : NxId) → CommandBody
  create_link : (six_int_digits : ℕ) → CommandBody

-- `struct nexus_channel_om_command_message`.
pub record OmMessage : Type 0 where
  pub command_type : ℕ
  pub body : CommandBody
  pub auth : ℕ
  pub computed_command_id : ℕ

abbrev pub before_center_index : ℕ
before_center_index = 31

abbrev pub after_center_index : ℕ
after_center_index = 8

abbrev pub max_receive_flag_byte : ℕ
max_receive_flag_byte = 4

-- `_nexus_om_stored`.
pub record OmStored : Type 0 where
  pub command_index : ℕ
  pub received_ids : List ℕ

-- Its eight bytes in memory, packed, and the record that eight bytes hold.
unfoldable pub om_bytes : OmStored → List ℕ
om_bytes s = le32 s.command_index ++ s.received_ids

unfoldable pub om_of_bytes : List ℕ → OmStored
om_of_bytes b = record {
  command_index =
      get_or b 0 0 + get_or b 1 0 * 256 + get_or b 2 0 * 65536 + get_or b 3 0 * 16777216;
  received_ids = drop 4 b;
}

-- `NX_NV_BLOCK_CHANNEL_OM`.
abbrev pub block_channel_om : BlockMeta
block_channel_om = record { block_id = 3; length = 12 }

-- The product's memory and origin key, and what the link modules of the channel do to their part
-- `C` of the state: `nexus_channel_res_link_hs_link_mode_3` with the challenge, and
-- `nexus_channel_link_manager_clear_all_links`.
pub record Controller (F C : Type 0) : Type 0 where
  pub nv : Nvm F
  pub origin_key : List ℕ
  pub link_mode_3 : ℕ → C → Bool × C
  pub clear_all_links : C → C

-- The state that origin commands act on.
pub record OmState (F C : Type 0) : Type 0 where
  pub stored : OmStored
  pub flash : F
  pub channel : C

-- `_nexus_channel_om_ascii_auth_arbitrary_bytes`.
unfoldable pub auth_arbitrary_bytes : (bytes key : List ℕ) → ℕ
auth_arbitrary_bytes bytes key =
    bit_and (check_value_as_uint64 (check_compute key bytes)) 0xffffffff % 1000000

-- The first five bytes that every message is authenticated by.
abbrev id_and_type : OmMessage → List ℕ
id_and_type m = le32 m.computed_command_id ++ (u8 m.command_type ∷ [])

-- The accessories that the code lists, in the order in which it tries them.
abbrev accessories_list : List NxId
accessories_list =
    record { authority_id = 0x9041; device_id = 0x00000019 }
    ∷ record { authority_id = 0x0102; device_id = 0x94837158 }
    ∷ record { authority_id = 0x0111; device_id = 0x92873891 }
    ∷ []

-- The loop over them: whether one has matched, and the message. `bytes_count` is the number of
-- bytes that are authenticated, out of fifteen that are zero at first.
unfoldable pub try_accessories :
    (accessories : List NxId) (bytes_count digits_int : ℕ) (success : Bool) (key : List ℕ)
    → OmMessage
    → Bool × OmMessage
try_accessories [] bytes_count digits_int success key m = (success, m)
try_accessories (a ∷ accessories) bytes_count digits_int success key m =
    let skipped = try_accessories accessories bytes_count digits_int success key m in
    let compute_bytes =
      id_and_type m ++ (le16 a.authority_id ++ (le32 a.device_id ++ replicate 4 0)) in
    let matched =
      try_accessories accessories (bytes_count + 6) digits_int true key
        (record m { body = accessory_action digits_int 1 a }) in
    if not (a.device_id % 10 == digits_int)
    then skipped
    else if auth_arbitrary_bytes (take (bytes_count + 6) compute_bytes) key == m.auth
    then matched
    else skipped

-- `_nexus_channel_om_ascii_message_infer_inner_compute_auth`, by the body of the message.
unfoldable pub inner_auth : CommandBody → OmMessage → (origin_key : List ℕ) → Bool × OmMessage
inner_auth (controller_action action_type) m origin_key = (
  (m.command_type == generic_controller_action)
      && (auth_arbitrary_bytes (id_and_type m ++ le32 action_type) origin_key == m.auth),
  m,
)
inner_auth (accessory_action digits_int digits_count computed) m origin_key =
    if ((m.command_type == accessory_action_unlock) || (m.command_type == accessory_action_unlink))
      && (digits_count == 1)
    then try_accessories accessories_list 5 digits_int false origin_key m
    else (false, m)
inner_auth (create_link six_int_digits) m origin_key = (
  (m.command_type == create_accessory_link_mode_3)
      && (auth_arbitrary_bytes (id_and_type m ++ le32 six_int_digits) origin_key == m.auth),
  m,
)

-- The loop of `_nexus_channel_om_ascii_infer_fields_compute_auth`, with its rounds.
unfoldable pub infer_fields_from :
    (rounds : ℕ) → Window → (origin_key : List ℕ) → OmMessage → Bool × OmMessage
infer_fields_from zero window origin_key m = (false, m)
infer_fields_from (suc rounds) window origin_key m =
    let rest =
      infer_fields_from rounds window origin_key
        (record m { computed_command_id = u32 (m.computed_command_id + 1) }) in
    let (valid, inferred) = inner_auth m.body m origin_key in
    if not (id_within_window window m.computed_command_id)
    then (false, m)
    else if not (id_flag_already_set window m.computed_command_id) && valid
    then (true, inferred)
    else rest

-- `_nexus_channel_om_ascii_infer_fields_compute_auth`.
unfoldable pub infer_fields_compute_auth :
    OmMessage → Window → (origin_key : List ℕ) → Bool × OmMessage
infer_fields_compute_auth m window origin_key =
    infer_fields_from (window.flags_below + window.flags_above + 2) window origin_key
      (record m { computed_command_id = sub32 window.center_index window.flags_below })

-- The window that `_nexus_channel_om_ascii_apply_message` builds over the stored flags.
unfoldable pub om_window : OmStored → Window
unfolding window_init
om_window s =
    window_init s.received_ids max_receive_flag_byte s.command_index before_center_index
      after_center_index

module _ {F C : Type 0} (k : Controller F C) where
  -- `nexus_channel_om_init`.
  unfoldable pub om_init : OmState F C → OmState F C
  om_init s =
      let fresh : OmStored = record {
        command_index = before_center_index;
        received_ids = replicate max_receive_flag_byte 0;
      } in
      record s { stored = om_of_bytes (nv_read k.nv block_channel_om (om_bytes fresh) s.flash).1 }

  -- `_nexus_channel_core_apply_origin_command_generic_controller_action`.
  unfoldable pub apply_controller_action : (action_type : ℕ) → C → Bool × C
  apply_controller_action action_type channel =
      if action_type == unlink_all_linked_accessories
      then (true, k.clear_all_links channel)
      else (false, channel)

  -- `nexus_channel_core_apply_origin_command` by the body of the message and its type.
  unfoldable pub apply_body : CommandBody → (command_type : ℕ) → C → Bool × C
  apply_body (controller_action action_type) command_type channel =
      if command_type == generic_controller_action
      then apply_controller_action action_type channel
      else (false, channel)
  apply_body (accessory_action digits_int digits_count computed) command_type channel =
      (false, channel)
  apply_body (create_link six_int_digits) command_type channel =
      if command_type == create_accessory_link_mode_3
      then k.link_mode_3 six_int_digits channel
      else (false, channel)

  -- `nexus_channel_core_apply_origin_command`.
  unfoldable pub apply_origin_command : OmMessage → C → Bool × C
  unfolding apply_body
  apply_origin_command m channel = apply_body m.body m.command_type channel

  -- The read of the stored data that begins `_nexus_channel_om_ascii_apply_message`.
  unfoldable pub om_load : OmState F C → OmState F C
  om_load s = record s {
    stored = om_of_bytes (nv_read k.nv block_channel_om (om_bytes s.stored) s.flash).1;
  }

  -- Its end: the flag of the command is set, and the stored data are written out.
  unfoldable pub om_record : (command_id : ℕ) → OmState F C → OmState F C
  om_record command_id s =
      let window = (set_id_flag (om_window s.stored) command_id).1 in
      let stored1 : OmStored = record {
        command_index = window.center_index;
        received_ids = window.flags.bytes;
      } in
      record s {
        stored = stored1;
        flash = (nv_update k.nv block_channel_om (om_bytes stored1) s.flash).1;
      }

  -- What it does with the outcome of the inference.
  unfoldable pub om_apply_inferred : OmState F C → Bool × OmMessage → Bool × OmState F C
  om_apply_inferred s (false, m) = (false, s)
  om_apply_inferred s (true, m) =
      let (done, channel1) = apply_origin_command m s.channel in
      let s1 = record s { channel = channel1 } in
      if done then (true, om_record m.computed_command_id s1) else (false, s1)

  -- `_nexus_channel_om_ascii_apply_message`.
  unfoldable pub om_apply_message : OmMessage → OmState F C → Bool × OmState F C
  om_apply_message m s =
      let s1 = om_load s in
      om_apply_inferred s1 (infer_fields_compute_auth m (om_window s1.stored) k.origin_key)
