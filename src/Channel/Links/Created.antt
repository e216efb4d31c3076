-- ===== src/Channel/Links/Created.antt =====
-- A link that the link manager agreed to create is there after the next processing.
use nexus_embedded.Base.{
  ℕ, ◌+◌, ◌<◌, ◌≡◌, ◌≢◌, refl, sym, ◌∙◌, arith, Bool, true, false, ◌&&◌, not, Option, none, some,
  List, [], ◌∷◌, ◌++◌, length, ◌==◌, u8, if-cases, if◌then◌else◌,
}
use mathlib.Core.Path.{subst}
use nexus_embedded.Nv.{Nvm}
use nexus_embedded.Channel.Om.{NxId}
use nexus_embedded.Channel.Links.{
  Link, Slot, Rest, Links, link_index_from_nxid, same_id, add_link, process_links, links_process,
  with_pending, free_slot, finish_create, create_link, count_in_use, persist,
  established_as_controller, established_as_accessory,
}
use nexus_embedded.Channel.Links.Invariant.{
  IsLinks, in_use_count, process_links-KeepsAll, count-length,
}
use nexus_embedded.Channel.Links.Room.{HasRoom, free_slot-HasRoom, link_index_from_nxid-IsUsedFrom}

-- Whether the links from an index on have one to a device.
abbrev pub IsLinkedFrom : (index : ℕ) → NxId → List Slot → Type 0
IsLinkedFrom index id slots = link_index_from_nxid id index slots ≢ none

same_id_refl : (id : NxId) → same_id id id ≡ true
same_id_refl id = ground arith

found_first :
    (id : NxId) (index : ℕ) (slot : Slot) (slots : List Slot)
    → slot.in_use ≡ true
    → slot.link.linked_device_id ≡ id
    → IsLinkedFrom index id (slot ∷ slots)
unfolding link_index_from_nxid
found_first id index slot slots u e none_found = no (sym first ∙ none_found)
  where
    hit : (slot.in_use && same_id slot.link.linked_device_id id) ≡ true
    hit = rw (u, e) (same_id_refl id)

    first : link_index_from_nxid id index (slot ∷ slots) ≡ some index
    first = rw hit refl

    no : some index ≡ none → ⊥
    no q = cc

found_later :
    (id : NxId) (index : ℕ) (slot : Slot) (slots : List Slot)
    → IsLinkedFrom (index + 1) id slots
    → IsLinkedFrom index id (slot ∷ slots)
unfolding link_index_from_nxid
found_later id index slot slots h =
    if-cases (λ o. o ≢ none) (slot.in_use && same_id slot.link.linked_device_id id) (some index)
      (link_index_from_nxid id (index + 1) slots) (λ _ q. no q) (λ _. h)
  where
    no : some index ≡ none → ⊥
    no q = cc

module _ {F : Type 0} (nv : Nvm F) where
  add_link-IsLinkedFrom :
      (link : Link) (from index : ℕ) (slots : List Slot) (rest : Rest F)
      → count_in_use slots < length slots
      → IsLinkedFrom from link.linked_device_id (add_link nv link index slots rest).0
  unfolding add_link count_in_use
  add_link-IsLinkedFrom link from index [] rest a = absurd (omega (arith, a))
  add_link-IsLinkedFrom link from index (slot ∷ slots) rest a =
      let new_slot : Slot = record slot { link = link; in_use = true } in
      let event =
        if link.operating_mode == 1 then established_as_controller else established_as_accessory in
      let rest1 : Rest F = record {
        link_count = u8 (rest.link_count + 1);
        flash = persist nv index link rest.flash;
        events = rest.events ++ (event ∷ []);
      } in
      let added = add_link nv link (index + 1) slots rest in
      if-cases (λ (x : List Slot × Rest F). IsLinkedFrom from link.linked_device_id x.0)
        (not slot.in_use) (new_slot ∷ slots, rest1) (slot ∷ added.0, added.1)
        (λ _. found_first link.linked_device_id from new_slot slots refl refl)
        (λ e.
          let used : in_use_count slot ≡ 1 = ground (arith, e) in
          found_later link.linked_device_id from slot added.0
            (add_link-IsLinkedFrom link (from + 1) (index + 1) slots rest (omega (arith, a, used))))

  abbrev IsCreated : NxId → Bool × Links F → Type 0
  IsCreated id a =
      a.0 ≡ true
      → IsLinks a.1
        × (a.1.pending_add_link ≡ true)
        × (a.1.pending_link_to_create.linked_device_id ≡ id)

  finish_create-IsCreated :
      (id : NxId) (operating_mode security_mode : ℕ) (sym_key : List ℕ) (nonce : ℕ) (s : Links F)
      (o : Option (Links F))
      → HasRoom nv o
      → IsCreated id (finish_create nv id operating_mode security_mode sym_key nonce s o)
  unfolding with_pending
  finish_create-IsCreated id operating_mode security_mode sym_key nonce s none h q = cc
  finish_create-IsCreated id operating_mode security_mode sym_key nonce s (some s1) h q =
      (record { few = h.0.few; counted = h.0.counted; room = λ _. h.2 }, refl, refl)

  create_link-IsCreated :
      (id : NxId) (operating_mode security_mode : ℕ) (sym_key : List ℕ) (nonce : ℕ) (s : Links F)
      → IsLinks s
      → IsCreated id (create_link nv id operating_mode security_mode sym_key nonce s)
  unfolding create_link
  create_link-IsCreated id operating_mode security_mode sym_key nonce s v =
      let existing = link_index_from_nxid id 0 s.slots in
      let freed = free_slot nv operating_mode existing s in
      if-cases (IsCreated id) s.pending_add_link (false, s)
        (finish_create nv id operating_mode security_mode sym_key nonce s freed) (λ _ q. cc)
        (λ e. finish_create-IsCreated id operating_mode security_mode sym_key nonce s freed (
          free_slot-HasRoom nv operating_mode existing s v e
            (link_index_from_nxid-IsUsedFrom id 0 s.slots)))

  process_pending-IsLinkedFrom :
      (t : ℕ) (s : Links F)
      → IsLinks s
      → s.pending_add_link ≡ true
      → IsLinkedFrom 0 s.pending_link_to_create.linked_device_id (links_process nv t s).slots
  unfolding links_process
  process_pending-IsLinkedFrom t s v e =
      let below = count-length s.slots in
      let ticked = process_links nv t 0 s.slots s.rest in
      let k =
        process_links-KeepsAll nv t 0 s.slots s.rest (omega (arith, v.counted))
          (omega (arith, v.few, v.counted, below)) in
      let there =
        add_link-IsLinkedFrom s.pending_link_to_create 0 0 ticked.0 ticked.1
          (omega (arith, k, v.room e, v.counted)) in
      rw e there

  -- If the link manager, in a proper state, agrees to create a link to a device, there is a link to
  -- that device after the next processing, whatever time has passed.
  pub created_is_linked :
      (id : NxId) (operating_mode security_mode : ℕ) (sym_key : List ℕ) (nonce : ℕ) (s : Links F)
      (seconds_elapsed : ℕ)
      → IsLinks s
      → (create_link nv id operating_mode security_mode sym_key nonce s).0 ≡ true
      → IsLinkedFrom 0 id
          (links_process nv seconds_elapsed
            (create_link nv id operating_mode security_mode sym_key nonce s).1).slots
  created_is_linked id operating_mode security_mode sym_key nonce s t v ok =
      let a = create_link nv id operating_mode security_mode sym_key nonce s in
      let made = create_link-IsCreated id operating_mode security_mode sym_key nonce s v ok in
      subst (λ i. IsLinkedFrom 0 i (links_process nv t a.1).slots) made.2
        (process_pending-IsLinkedFrom t a.1 made.0 made.1)
