-- ===== src/Nv/RoundTrip.antt =====
-- What `nexus_nv_update` and `nexus_nv_read` of nexus/src/nexus_nv.c promise together.
use nexus_embedded.Base.{
  ℕ, ◌-◌, ◌≡◌, sym, ap, ◌∙◌, Bool, true, false, ◌&&◌, List, inl, inr, arith, take, drop, bytes_eq,
  bytes_eq_refl, bytes_eq_sound, Bool-cases, take_all,
}
use nexus_embedded.Nv.{BlockMeta, Nvm, nv_block_valid, new_block, nv_update, nv_read}
use nexus_embedded.Nv.Laws.{IsHonest, IsReliable, Holds, same_bytes-valid}

-- The block in memory, if one is found, is intact.
abbrev pub IsIntact : {F : Type 0} → Nvm F → BlockMeta → F → Type 0
IsIntact nv meta f = (nv.read meta f).0 ≡ true → nv_block_valid meta (nv.read meta f).1 ≡ true

module _ {F : Type 0} (nv : Nvm F) (meta : BlockMeta) (inner : List ℕ) (k : Holds meta inner) where
  abbrev pub stored_inner : F → List ℕ
  stored_inner f = take (meta.length - 4) (drop 2 (nv.read meta f).1)

  abbrev unchanged : F → Bool
  unchanged f = (nv.read meta f).0 && bytes_eq (stored_inner f) (take (meta.length - 4) inner)

  stored_inner_eq : (f : F) → unchanged f ≡ true → stored_inner f ≡ inner
  stored_inner_eq f e =
      bytes_eq_sound (stored_inner f) (take (meta.length - 4) inner) (ground (arith, e))
      ∙ take_all (meta.length - 4) inner (omega (arith, k.size))

  abbrev written : F → F
  written f = (nv.write meta (new_block meta inner) f).1

  update_unchanged : (f : F) → unchanged f ≡ true → nv_update nv meta inner f ≡ (true, f)
  unfolding nv_update
  update_unchanged f e = rw e

  update_changed :
      (f : F)
      → unchanged f ≡ false
      → nv_update nv meta inner f ≡ nv.write meta (new_block meta inner) f
  unfolding nv_update
  update_changed f e = rw e

  -- An update of a block whose data are already the new ones but whose identifier or CRC is damaged
  -- reports success and writes nothing, and the next read fails.
  pub damaged-update :
      (f : F) (buffer : List ℕ)
      → (nv.read meta f).0 ≡ true
      → nv_block_valid meta (nv.read meta f).1 ≡ false
      → stored_inner f ≡ inner
      → (nv_update nv meta inner f ≡ (true, f)) × (nv_read nv meta buffer f ≡ (false, buffer))
  unfolding nv_read
  damaged-update f buffer found bad same = (
    update_unchanged f (
        ground (arith, found, same, bytes_eq_refl inner, take_all (meta.length - 4) inner, k.size)),
    rw bad,
  )

  module _ (honest : IsHonest nv) where
    read_written :
        (f : F)
        → (nv.write meta (new_block meta inner) f).0 ≡ true
        → ((nv.read meta (written f)).0 ≡ true)
          × (nv_block_valid meta (nv.read meta (written f)).1 ≡ true)
          × (stored_inner (written f) ≡ inner)
    read_written f ok =
        let back = honest.read_back meta (new_block meta inner) f ok in
        let same = same_bytes-valid meta inner k (nv.read meta (written f)).1 back.1 in
        (back.0, same.0, same.1)

    -- With memory in which a write may fail, but in which one that reports success is read back: if
    -- an update reports success on memory that holds an intact block or none, a later read into any
    -- buffer succeeds with exactly the data that were updated.
    pub reported-update :
        (f : F) (buffer : List ℕ)
        → IsIntact nv meta f
        → (nv_update nv meta inner f).0 ≡ true
        → nv_read nv meta buffer (nv_update nv meta inner f).1 ≡ (true, inner)
    unfolding nv_read
    reported-update f buffer h ok = elim (Bool-cases (unchanged f)) [
      | inl e ↦ rw (update_unchanged f e) (ground (arith, stored_inner_eq f e, h, e))
      | inr e ↦
          let done : (nv.write meta (new_block meta inner) f).0 ≡ true =
            sym (ap (λ a. a.0) (update_changed f e)) ∙ ok in
          rw (update_changed f e) (ground (arith, read_written f done))
    ]

module _ {F : Type 0} (nv : Nvm F) (reliable : IsReliable nv) (meta : BlockMeta) (inner : List ℕ)
    (k : Holds meta inner) where
  update_succeeds : (f : F) → (nv_update nv meta inner f).0 ≡ true
  update_succeeds f = elim (Bool-cases (unchanged nv meta inner k f)) [
    | inl e ↦ ap (λ a. a.0) (update_unchanged nv meta inner k f e)
    | inr e ↦
        ap (λ a. a.0) (update_changed nv meta inner k f e)
        ∙ reliable.succeeds meta (new_block meta inner) f
  ]

  read_back :
      (f : F)
      → ((nv.read meta (written nv meta inner k f)).0 ≡ true)
        × (nv_block_valid meta (nv.read meta (written nv meta inner k f)).1 ≡ true)
        × (stored_inner nv meta inner k (written nv meta inner k f) ≡ inner)
  read_back f =
      read_written nv meta inner k reliable.honest f
        (reliable.succeeds meta (new_block meta inner) f)

  -- After an update the module reads its own data back, whatever the memory held before.
  pub read-update : (f : F) → (nv_read nv meta inner (nv_update nv meta inner f).1).1 ≡ inner
  unfolding nv_read
  read-update f = elim (Bool-cases (unchanged nv meta inner k f)) [
    | inl e ↦
        rw (update_unchanged nv meta inner k f e)
          (ground (arith, stored_inner_eq nv meta inner k f e))
    | inr e ↦ rw (update_changed nv meta inner k f e) (ground (arith, read_back f))
  ]

  -- With reliable memory that holds an intact block or none, an update of a block succeeds, and a
  -- later read into any buffer succeeds with exactly the data that were updated.
  pub read-update_restart :
      (f : F) (buffer : List ℕ)
      → IsIntact nv meta f
      → ((nv_update nv meta inner f).0 ≡ true)
        × (nv_read nv meta buffer (nv_update nv meta inner f).1 ≡ (true, inner))
  read-update_restart f buffer h = (
    update_succeeds f,
    reported-update nv meta inner k reliable.honest f buffer h (update_succeeds f),
  )

  -- An update never leaves a damaged block where there was none.
  pub update-IsIntact :
      (f : F) → IsIntact nv meta f → IsIntact nv meta (nv_update nv meta inner f).1
  update-IsIntact f h = elim (Bool-cases (unchanged nv meta inner k f)) [
    | inl e ↦ rw (update_unchanged nv meta inner k f e) h
    | inr e ↦ rw (update_changed nv meta inner k f e) (λ _. (read_back f).1)
  ]

  -- With reliable memory, a second update of a block with the same data succeeds and leaves the
  -- memory as it is.
  pub update_idempotent :
      (f : F)
      → nv_update nv meta inner (nv_update nv meta inner f).1
        ≡ (true, (nv_update nv meta inner f).1)
  update_idempotent f = elim (Bool-cases (unchanged nv meta inner k f)) [
    | inl e ↦ rw (update_unchanged nv meta inner k f e) (update_unchanged nv meta inner k f e)
    | inr e ↦ rw (update_changed nv meta inner k f e) (
        update_unchanged nv meta inner k (written nv meta inner k f) (
          ground
            (arith, read_back f, bytes_eq_refl inner, take_all (meta.length - 4) inner, k.size)))
  ]
