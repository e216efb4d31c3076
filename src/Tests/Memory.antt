-- ===== src/Tests/Memory.antt =====
-- The blocks of nonvolatile memory, on concrete bytes.
use nexus_embedded.Base.{
  ℕ, ◌≡◌, refl, arith, Bool-cases, inl, inr, true, false, List, [], ◌∷◌, ◌==◌, if◌then◌else◌,
}
use nexus_embedded.Nv.{Nvm, block_keycode_mas, nv_read, nv_update}
use nexus_embedded.Nv.Laws.{Holds, IsHonest}
use nexus_embedded.Nv.RoundTrip.{IsIntact, read-update_restart, reported-update, update_idempotent}
use nexus_embedded.Tests.Devices.{Flash, memory, memory_reliable, empty_flash}

abbrev inner : List ℕ
inner = 6 ∷ 0 ∷ 0 ∷ 0 ∷ []

inner-Holds : Holds block_keycode_mas inner
inner-Holds = record { block = record { wrapper = omega arith; fits = omega arith }; size = refl }

empty_IsIntact : IsIntact memory block_keycode_mas empty_flash
empty_IsIntact e = absurd (no e)
  where
    no : false ≡ true → ⊥
    no q = cc

read-update_restart_example :
    ((nv_update memory block_keycode_mas inner empty_flash).0 ≡ true)
    × (nv_read memory block_keycode_mas [] (nv_update memory block_keycode_mas inner empty_flash).1
        ≡ (true, inner))
read-update_restart_example =
    read-update_restart memory memory_reliable block_keycode_mas inner inner-Holds empty_flash []
      empty_IsIntact

update_idempotent_example :
    nv_update memory block_keycode_mas inner
      (nv_update memory block_keycode_mas inner empty_flash).1
    ≡ (true, (nv_update memory block_keycode_mas inner empty_flash).1)
update_idempotent_example =
    update_idempotent memory memory_reliable block_keycode_mas inner inner-Holds empty_flash

-- Memory that is worn out for the block with the identifier 5, and keeps the others.
abbrev worn : Nvm Flash
worn = record {
  read = λ meta f. f meta.block_id;
  write = λ meta b f.
      if meta.block_id == 5
      then (false, f)
      else (true, λ i. if i == meta.block_id then (true, b) else f i);
}

worn-IsHonest : IsHonest worn
worn-IsHonest = record {
  read_back = λ meta b f e. elim (Bool-cases (meta.block_id == 5)) [
    | inl t ↦ absurd (clash (rw t at e))
    | inr t ↦ rw t (rw (same_block meta.block_id) (refl, refl))
  ];
}
  where
    clash : false ≡ true → ⊥
    clash q = cc

    same_block : (i : ℕ) → (i == i) ≡ true
    same_block i = ground arith

reported : (nv_update worn block_keycode_mas inner empty_flash).0 ≡ true
unfolding nv_update
reported = refl

worn-IsIntact : IsIntact worn block_keycode_mas empty_flash
worn-IsIntact e = absurd (no e)
  where
    no : false ≡ true → ⊥
    no q = cc

reported-update_example :
    nv_read worn block_keycode_mas [] (nv_update worn block_keycode_mas inner empty_flash).1
    ≡ (true, inner)
reported-update_example =
    reported-update worn block_keycode_mas inner inner-Holds worn-IsHonest empty_flash []
      worn-IsIntact reported
