-- ===== src/Channel/Links/Room.antt =====
-- Room for a new link: what `nexus_channel_link_manager_create_link` clears is in use, so that the
-- link that waits has a place to go to; and what holds through any history of operations.
use nexus_embedded.Base.{
  ℕ, zero, suc, ◌+◌, ◌-◌, ◌≤◌, ◌<◌, ◌≡◌, refl, sym, arith, Bool, true, false, ◌&&◌, not, Option,
  none, some, List, [], ◌∷◌, length, leb, ◌==◌, if-cases, if◌then◌else◌, ◌⊎◌, inl, inr,
}
use mathlib.Core.Path.{subst}
use nexus_embedded.Nv.{Nvm}
use nexus_embedded.Channel.Om.{NxId}
use nexus_embedded.Channel.Links.{
  Slot, Rest, Links, link_index_from_nxid, oldest_accessory_link_idx, same_id, clear_link_internal,
  clear_link_at, links_process, clear_all_links, with_pending, without_link, make_room, free_slot,
  finish_create, create_link, load_links, count_in_use, links_init,
}
use nexus_embedded.Channel.Links.Invariant.{
  IsLinks, links_process-IsLinks, without_link-IsLinks, count-length, clear_link_at-KeepsAll,
}

-- Whether the place some steps on is in use.
abbrev used_at : (steps : ℕ) → List Slot → Bool
used_at steps [] = false
used_at zero (slot ∷ slots) = slot.in_use
used_at (suc steps) (slot ∷ slots) = used_at steps slots

-- What was found from an index on is in use.
abbrev pub IsUsedFrom : (index : ℕ) → List Slot → Option ℕ → Type 0
IsUsedFrom index slots none = Unit
IsUsedFrom index slots (some i) = (index ≤ i) × (used_at (i - index) slots ≡ true)

later-IsUsedFrom :
    (index : ℕ) (slot : Slot) (slots : List Slot) (o : Option ℕ)
    → IsUsedFrom (index + 1) slots o
    → IsUsedFrom index (slot ∷ slots) o
later-IsUsedFrom index slot slots none h = tt
later-IsUsedFrom index slot slots (some i) h =
    let next : i - index ≡ suc (i - (index + 1)) = omega (arith, h.0) in
    (omega (arith, h.0), rw next h.1)

pub link_index_from_nxid-IsUsedFrom :
    (id : NxId) (index : ℕ) (slots : List Slot)
    → IsUsedFrom index slots (link_index_from_nxid id index slots)
unfolding link_index_from_nxid
link_index_from_nxid-IsUsedFrom id index [] = tt
link_index_from_nxid-IsUsedFrom id index (slot ∷ slots) =
    if-cases (IsUsedFrom index (slot ∷ slots))
      (slot.in_use && same_id slot.link.linked_device_id id) (some index) _
      (λ e.
        let here : index - index ≡ zero = omega arith in (omega arith, rw here (ground (arith, e))))
      (λ _.
        later-IsUsedFrom index slot slots _ (link_index_from_nxid-IsUsedFrom id (index + 1) slots))

module _ {F : Type 0} (nv : Nvm F) where
  clear_link_at-frees :
      (steps index : ℕ) (slots : List Slot) (rest : Rest F)
      → used_at steps slots ≡ true
      → count_in_use (clear_link_at nv steps index slots rest).0 + 1 ≡ count_in_use slots
  unfolding clear_link_at clear_link_internal count_in_use
  clear_link_at-frees steps index [] rest u = absurd (clash u)
    where
      clash : false ≡ true → ⊥
      clash q = cc
  clear_link_at-frees zero index (slot ∷ slots) rest u = ground (arith, u)
  clear_link_at-frees (suc steps) index (slot ∷ slots) rest u =
      omega (arith, clear_link_at-frees steps (index + 1) slots rest u)

abbrev FoundOr : Option ℕ → ℕ → List Slot → Option ℕ → Type 0
FoundOr found index slots o = (o ≡ found) ⊎ IsUsedFrom index slots o

later-FoundOr :
    (found : Option ℕ) (index : ℕ) (slot : Slot) (slots : List Slot) (o : Option ℕ)
    → FoundOr found (index + 1) slots o
    → FoundOr found index (slot ∷ slots) o
later-FoundOr found index slot slots o (inl e) = inl e
later-FoundOr found index slot slots o (inr h) = inr (later-IsUsedFrom index slot slots o h)

taken-FoundOr :
    (found : Option ℕ) (index : ℕ) (slot : Slot) (slots : List Slot) (o : Option ℕ)
    → slot.in_use ≡ true
    → FoundOr (some index) (index + 1) slots o
    → FoundOr found index (slot ∷ slots) o
taken-FoundOr found index slot slots o u (inl e) =
    let here : index - index ≡ zero = omega arith in
    let at : IsUsedFrom index (slot ∷ slots) (some index) = (omega arith, rw here u) in
    inr (subst (IsUsedFrom index (slot ∷ slots)) (sym e) at)
taken-FoundOr found index slot slots o u (inr h) = inr (later-IsUsedFrom index slot slots o h)

oldest_accessory_link_idx-FoundOr :
    (index oldest_secs : ℕ) (found : Option ℕ) (slots : List Slot)
    → FoundOr found index slots (oldest_accessory_link_idx index oldest_secs found slots)
unfolding oldest_accessory_link_idx
oldest_accessory_link_idx-FoundOr index oldest_secs found [] = inl refl
oldest_accessory_link_idx-FoundOr index oldest_secs found (slot ∷ slots) =
    let skipped = oldest_accessory_link_idx (index + 1) oldest_secs found slots in
    let taken =
      oldest_accessory_link_idx (index + 1) slot.link.seconds_since_init (some index) slots in
    let takes = slot.in_use && leb oldest_secs slot.link.seconds_since_init in
    let skip : FoundOr found index (slot ∷ slots) skipped =
      later-FoundOr found index slot slots skipped
        (oldest_accessory_link_idx-FoundOr (index + 1) oldest_secs found slots) in
    let take : takes ≡ true → FoundOr found index (slot ∷ slots) taken = λ e.
      taken-FoundOr found index slot slots taken (ground (arith, e)) (
        oldest_accessory_link_idx-FoundOr (index + 1) slot.link.seconds_since_init (some index)
          slots) in
    if-cases (FoundOr found index (slot ∷ slots)) (not (slot.link.operating_mode == 0)) skipped
      (if takes then taken else skipped) (λ _. skip)
      (λ _. if-cases (FoundOr found index (slot ∷ slots)) takes taken skipped take (λ _. skip))

oldest-IsUsedFrom :
    (slots : List Slot) (o : Option ℕ) → FoundOr none 0 slots o → IsUsedFrom 0 slots o
oldest-IsUsedFrom slots o (inl e) = subst (IsUsedFrom 0 slots) (sym e) tt
oldest-IsUsedFrom slots o (inr h) = h

module _ {F : Type 0} (nv : Nvm F) where
  -- A proper state with no link waiting and room for one.
  abbrev pub HasRoom : Option (Links F) → Type 0
  HasRoom none = Unit
  HasRoom (some s) = IsLinks s × (s.pending_add_link ≡ false) × (s.rest.link_count < length s.slots)

  without_link-HasRoom :
      (s : Links F) (index : ℕ)
      → IsLinks s
      → s.pending_add_link ≡ false
      → IsUsedFrom 0 s.slots (some index)
      → HasRoom (some (without_link nv index s))
  without_link-HasRoom s index v e u =
      let kept = without_link-IsLinks nv index s v e in
      let start : index - 0 ≡ index = omega arith in
      let freed =
        clear_link_at-frees nv index 0 s.slots s.rest
          (subst (λ i. used_at i s.slots ≡ true) start u.1) in
      let below = count-length s.slots in
      let k =
        clear_link_at-KeepsAll nv index 0 s.slots s.rest (omega (arith, v.counted))
          (omega (arith, v.few, v.counted, below)) in
      (
        kept,
        (unfold without_link in e),
        (unfold without_link in omega (arith, k, freed, below, v.counted)),
      )

  make_room-HasRoom :
      (operating_mode : ℕ) (o : Option ℕ) (s : Links F)
      → IsLinks s
      → s.pending_add_link ≡ false
      → IsUsedFrom 0 s.slots o
      → HasRoom (make_room nv operating_mode o s)
  unfolding make_room
  make_room-HasRoom operating_mode none s v e u = tt
  make_room-HasRoom operating_mode (some oldest) s v e u =
      if-cases HasRoom (not (operating_mode == 0)) none (some (without_link nv oldest s)) (λ _. tt)
        (λ _. without_link-HasRoom s oldest v e u)

  pub free_slot-HasRoom :
      (operating_mode : ℕ) (o : Option ℕ) (s : Links F)
      → IsLinks s
      → s.pending_add_link ≡ false
      → IsUsedFrom 0 s.slots o
      → HasRoom (free_slot nv operating_mode o s)
  unfolding free_slot
  free_slot-HasRoom operating_mode (some existing) s v e u = without_link-HasRoom s existing v e u
  free_slot-HasRoom operating_mode none s v e u =
      let oldest = oldest_accessory_link_idx 0 0 none s.slots in
      if-cases HasRoom (s.rest.link_count == length s.slots) (make_room nv operating_mode oldest s)
        (some s)
        (λ _.
          make_room-HasRoom operating_mode oldest s v e
            (oldest-IsUsedFrom s.slots oldest (oldest_accessory_link_idx-FoundOr 0 0 none s.slots)))
        (λ full. (v, e, ground (arith, full, v.counted, count-length s.slots)))

  finish_create-IsLinks :
      (id : NxId) (operating_mode security_mode : ℕ) (sym_key : List ℕ) (nonce : ℕ) (s : Links F)
      (o : Option (Links F))
      → IsLinks s
      → HasRoom o
      → IsLinks (finish_create nv id operating_mode security_mode sym_key nonce s o).1
  unfolding with_pending
  finish_create-IsLinks id operating_mode security_mode sym_key nonce s none v h = v
  finish_create-IsLinks id operating_mode security_mode sym_key nonce s (some s1) v h = record {
    few = h.0.few;
    counted = h.0.counted;
    room = λ _. h.2;
  }

  create_link-IsLinks :
      (id : NxId) (operating_mode security_mode : ℕ) (sym_key : List ℕ) (nonce : ℕ) (s : Links F)
      → IsLinks s
      → IsLinks (create_link nv id operating_mode security_mode sym_key nonce s).1
  unfolding create_link
  create_link-IsLinks id operating_mode security_mode sym_key nonce s v =
      let existing = link_index_from_nxid id 0 s.slots in
      let freed = free_slot nv operating_mode existing s in
      if-cases (λ (a : Bool × Links F). IsLinks a.1) s.pending_add_link (false, s)
        (finish_create nv id operating_mode security_mode sym_key nonce s freed) (λ _. v)
        (λ e. finish_create-IsLinks id operating_mode security_mode sym_key nonce s freed v (
          free_slot-HasRoom operating_mode existing s v e
            (link_index_from_nxid-IsUsedFrom id 0 s.slots)))

  length-load_links :
      (rounds index : ℕ) (flash : F) → length (load_links nv rounds index flash) ≡ rounds
  unfolding load_links
  length-load_links zero index flash = refl
  length-load_links (suc rounds) index flash =
      omega (arith, length-load_links rounds (index + 1) flash)

  links_init-IsLinks : (n : ℕ) (s : Links F) → n ≤ 10 → IsLinks (links_init nv n s)
  unfolding links_init
  links_init-IsLinks n s few =
      let slots = load_links nv n 0 s.rest.flash in
      let size = length-load_links n 0 s.rest.flash in
      record {
        few = omega (arith, size);
        counted = omega (arith, size, count-length slots);
        room = λ q. absurd (clash q);
      }
    where
      clash : false ≡ true → ⊥
      clash q = cc

-- What can happen to the links of a device that has places for `n`: time passes in processing, a
-- link is asked for, the clearing of all links is, or the power is cycled.
pub data LinkStep {F : Type 0} (nv : Nvm F) (n : ℕ) (s : Links F) : Links F → Type 0 where
  processed : (seconds_elapsed : ℕ) → LinkStep nv n s (links_process nv seconds_elapsed s)
  link_asked_for :
      (id : NxId) (operating_mode security_mode : ℕ) (sym_key : List ℕ) (nonce : ℕ)
      → LinkStep nv n s (create_link nv id operating_mode security_mode sym_key nonce s).1
  clearing_asked_for : LinkStep nv n s (clear_all_links s)
  restarted : LinkStep nv n s (links_init nv n s)

pub data LinksLater {F : Type 0} (nv : Nvm F) (n : ℕ) (s : Links F) : Links F → Type 0 where
  no_step : LinksLater nv n s s
  one_step : {s1 s2 : Links F} → LinksLater nv n s s1 → LinkStep nv n s1 s2 → LinksLater nv n s s2

module _ {F : Type 0} (nv : Nvm F) (n : ℕ) (small : n ≤ 10) where
  step-IsLinks : (s1 s2 : Links F) → IsLinks s1 → LinkStep nv n s1 s2 → IsLinks s2
  step-IsLinks s1 s2 v (processed t) = links_process-IsLinks nv t s1 v
  step-IsLinks s1 s2 v (link_asked_for id om sm key nonce) =
      create_link-IsLinks nv id om sm key nonce s1 v
  step-IsLinks s1 s2 v clearing_asked_for =
      unfold clear_all_links in record { few = v.few; counted = v.counted; room = v.room }
  step-IsLinks s1 s2 v restarted = links_init-IsLinks nv n s1 small

  -- With at most ten places for links, through any sequence of processing, requests for links,
  -- requests to clear all links and power cycles, with any memory, the count of links stays the
  -- number of places in use, and whenever a link waits to be stored there is a free place for it.
  pub LinksLater-IsLinks : {s s' : Links F} → IsLinks s → LinksLater nv n s s' → IsLinks s'
  LinksLater-IsLinks v no_step = v
  LinksLater-IsLinks v (one_step {s1} {s2} l st) = step-IsLinks s1 s2 (LinksLater-IsLinks v l) st
