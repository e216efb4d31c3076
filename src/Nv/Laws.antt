-- ===== src/Nv/Laws.antt =====
-- What a module that stores data through nexus_nv.c can rely on.
use nexus_embedded.Base.{
  ℕ, ◌-◌, ◌≤◌, ◌≡◌, sym, ap, ◌∙◌, true, List, ◌++◌, arith, length, take, drop, replicate, u8, le16,
  bytes_eq_refl, take-append, drop-append, take_all, take-take, take-drop-take,
}
use nexus_embedded.Nv.{
  BlockMeta, Nvm, compute_crc_ccitt, nv_compute_crc, nv_block_valid, new_block, max_block_length,
}

-- The documented behaviour of the product's memory: a write that reports success is read back, in
-- the bytes that belong to the block. A write may report failure.
pub record IsHonest {F : Type 0} (nv : Nvm F) : Type 0 where
  pub read_back :
      (meta : BlockMeta) (b : List ℕ) (f : F)
      → (nv.write meta b f).0 ≡ true
      → ((nv.read meta (nv.write meta b f).1).0 ≡ true)
        × (take meta.length (nv.read meta (nv.write meta b f).1).1 ≡ take meta.length b)

-- Memory that does not wear out: besides, every write succeeds. The documentation does not promise
-- that; it is what the callers that ignore the result of an update take for granted.
pub record IsReliable {F : Type 0} (nv : Nvm F) : Type 0 where
  pub honest : IsHonest nv
  pub succeeds : (meta : BlockMeta) (b : List ℕ) (f : F) → (nv.write meta b f).0 ≡ true

-- The lengths of the program's blocks.
pub record IsBlock (meta : BlockMeta) : Type 0 where
  pub wrapper : 4 ≤ meta.length
  pub fits : meta.length ≤ max_block_length

-- Validity and inner data depend on the first `length` bytes only.
nv_block_valid-take :
    (meta : BlockMeta) (b : List ℕ)
    → IsBlock meta
    → nv_block_valid meta b ≡ nv_block_valid meta (take meta.length b)
unfolding nv_block_valid nv_compute_crc
nv_block_valid-take meta b k = rw (
  take-take 2 meta.length b (omega arith),
  take-take (u8 (meta.length - 2)) meta.length b (omega arith),
  take-drop-take (meta.length - 2) 2 meta.length b (omega arith),
)

abbrev body : BlockMeta → List ℕ → List ℕ
body meta inner = le16 meta.block_id ++ inner

abbrev crc_bytes : BlockMeta → List ℕ → List ℕ
crc_bytes meta inner = le16 (compute_crc_ccitt (body meta inner) (u8 (meta.length - 2)))

abbrev padding : BlockMeta → List ℕ
padding meta = replicate (max_block_length - meta.length) 0

-- `inner` is what the block can hold.
pub record Holds (meta : BlockMeta) (inner : List ℕ) : Type 0 where
  pub block : IsBlock meta
  pub size : length inner ≡ meta.length - 4

module _ (meta : BlockMeta) (inner : List ℕ) (k : Holds meta inner) where
  new_block_parts : new_block meta inner ≡ body meta inner ++ (crc_bytes meta inner ++ padding meta)
  unfolding new_block
  new_block_parts = rw (take_all (meta.length - 4) inner (omega (arith, k.size)))

  length-body : length (body meta inner) ≡ meta.length - 2
  length-body = omega (arith, k.size, k.block.wrapper)

  take_body : take (meta.length - 2) (new_block meta inner) ≡ body meta inner
  take_body = rw new_block_parts (take-append (body meta inner) _ _ (sym length-body))

  drop_body : drop (meta.length - 2) (new_block meta inner) ≡ crc_bytes meta inner ++ padding meta
  drop_body = rw new_block_parts (drop-append (body meta inner) _ _ (sym length-body))

  width : u8 (meta.length - 2) ≡ meta.length - 2
  width = omega (arith, k.block.fits)

  crc_of_new_block :
      nv_compute_crc meta (new_block meta inner)
      ≡ compute_crc_ccitt (body meta inner) (u8 (meta.length - 2))
  unfolding nv_compute_crc
  crc_of_new_block =
      rw (
        width,
        take_body,
        take_all (meta.length - 2) (body meta inner) (omega (arith, length-body)),
      )

  -- A block just built is valid.
  new_block-valid : nv_block_valid meta (new_block meta inner) ≡ true
  unfolding nv_block_valid
  new_block-valid =
      rw (crc_of_new_block, drop_body)
        (rw new_block_parts
          (rw (bytes_eq_refl (le16 meta.block_id)) (bytes_eq_refl (crc_bytes meta inner))))

  new_block-inner : take (meta.length - 4) (drop 2 (new_block meta inner)) ≡ inner
  new_block-inner = rw new_block_parts (take-append inner _ _ (sym k.size))

  -- So is any buffer that begins with its bytes, and it holds the same data.
  pub same_bytes-valid :
      (b : List ℕ)
      → take meta.length b ≡ take meta.length (new_block meta inner)
      → (nv_block_valid meta b ≡ true) × (take (meta.length - 4) (drop 2 b) ≡ inner)
  same_bytes-valid b e = (
    nv_block_valid-take meta b k.block
        ∙ ap (nv_block_valid meta) e
        ∙ sym (nv_block_valid-take meta (new_block meta inner) k.block)
        ∙ new_block-valid,
    sym (take-drop-take 2 (meta.length - 4) meta.length b (omega (arith, k.block.wrapper)))
        ∙ ap (λ t. take (meta.length - 4) (drop 2 t)) e
        ∙ take-drop-take 2 (meta.length - 4) meta.length (new_block meta inner)
            (omega (arith, k.block.wrapper))
        ∙ new_block-inner,
  )
