-- ===== src/Nv.antt =====
-- Blocks in nonvolatile memory: nexus/src/nexus_nv.c and nexus/utils/crc_ccitt.c.
-- A 16-bit value lies in memory as the little-endian host stores it.
pub mod Laws
pub mod RoundTrip
use nexus_embedded.Base.{
  ℕ, zero, suc, ◌+◌, ◌-◌, ◌*◌, ◌/◌, ◌%◌, ◌^◌, Bool, true, false, ◌&&◌, List, [], ◌∷◌, ◌++◌, bit_and,
  bit_or, bit_xor, length, take, drop, replicate, u8, u16, u32, le16, bytes_eq, if◌then◌else◌,
}

-- `_crc_ccitt_update`.
crc_ccitt_update : ℕ → ℕ → ℕ
crc_ccitt_update byte cur_crc =
    let a = bit_or (u8 (cur_crc / 2 ^ 8)) (cur_crc * 2 ^ 8) in
    let b = bit_xor a byte in
    let c = bit_xor b (bit_and b 0xff / 2 ^ 4) in
    let d = bit_xor c (u32 (c * 2 ^ 12)) in let e = bit_xor d (bit_and d 0xff * 2 ^ 5) in u16 e

crc_from : ℕ → List ℕ → ℕ
unfolding crc_ccitt_update
crc_from crc [] = crc
crc_from crc (x ∷ xs) = crc_from (crc_ccitt_update x crc) xs

-- `compute_crc_ccitt` over the first bytes of an array.
unfoldable pub compute_crc_ccitt : List ℕ → ℕ → ℕ
unfolding crc_from
compute_crc_ccitt bytes bytes_length = crc_from 0xffff (take bytes_length bytes)

-- `struct nx_common_nv_block_meta`.
pub record BlockMeta : Type 0 where
  pub block_id : ℕ
  pub length : ℕ

abbrev block_id_width : ℕ
block_id_width = 2

abbrev block_crc_width : ℕ
block_crc_width = 2

abbrev block_wrapper_size_bytes : ℕ
block_wrapper_size_bytes = 4

-- `NX_COMMON_NV_MAX_BLOCK_LENGTH`, with link security enabled.
abbrev pub max_block_length : ℕ
max_block_length = 40

abbrev pub block_keycode_mas : BlockMeta
block_keycode_mas = record { block_id = 0; length = 8 }

abbrev pub block_keycode_pro : BlockMeta
block_keycode_pro = record { block_id = 1; length = 16 }

-- What the product supplies over its memory `F`: `nxp_common_nv_read` with what it leaves in the
-- zeroed buffer, and `nxp_common_nv_write`.
pub record Nvm (F : Type 0) : Type 0 where
  pub read : BlockMeta → F → Bool × List ℕ
  pub write : BlockMeta → List ℕ → F → Bool × F

-- `nexus_nv_compute_crc`.
unfoldable pub nv_compute_crc : BlockMeta → List ℕ → ℕ
unfolding compute_crc_ccitt
nv_compute_crc meta full_block_data =
    compute_crc_ccitt full_block_data (u8 (meta.length - block_crc_width))

-- `nx_common_nv_block_valid`.
unfoldable pub nv_block_valid : BlockMeta → List ℕ → Bool
nv_block_valid meta full_block_data =
    if bytes_eq (le16 meta.block_id) (take block_id_width full_block_data)
    then bytes_eq (le16 (nv_compute_crc meta full_block_data))
        (take block_crc_width (drop (meta.length - block_crc_width) full_block_data))
    else false

-- The block that `nexus_nv_update` builds: identifier, inner data, CRC, and zeros to the end.
unfoldable pub new_block : BlockMeta → List ℕ → List ℕ
new_block meta inner_data =
    let body = le16 meta.block_id ++ take (meta.length - block_wrapper_size_bytes) inner_data in
    body
    ++ (le16 (compute_crc_ccitt body (u8 (meta.length - block_crc_width)))
        ++ replicate (max_block_length - meta.length) 0)

module _ {F : Type 0} (nv : Nvm F) where
  -- `nexus_nv_update`: the result, and the memory after it.
  unfoldable pub nv_update : BlockMeta → List ℕ → F → Bool × F
  nv_update meta inner_data flash =
      let (found, existing_block) = nv.read meta flash in
      let inner_data_size = meta.length - block_wrapper_size_bytes in
      if found
        && bytes_eq (take inner_data_size (drop block_id_width existing_block))
            (take inner_data_size inner_data)
      then (true, flash)
      else nv.write meta (new_block meta inner_data) flash

  -- `nexus_nv_read`: the result, and the inner data after it, which a failure leaves as they were.
  unfoldable pub nv_read : BlockMeta → List ℕ → F → Bool × List ℕ
  nv_read meta inner_data flash =
      let (found, block) = nv.read meta flash in
      if nv_block_valid meta block
      then (true, take (meta.length - block_wrapper_size_bytes) (drop block_id_width block))
      else (false, inner_data)
