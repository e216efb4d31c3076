-- ===== src/Channel/Links/Invariant.antt =====
-- What holds of the link manager through any history of its operations: the count of links is the
-- number of places in use, and a link that waits to be stored has a place to go to.
use nexus_embedded.Base.{
  ℕ, zero, suc, ◌+◌, ◌≤◌, ◌<◌, ◌≡◌, refl, sym, ◌∙◌, arith, true, false, ◌&&◌, not, List, [], ◌∷◌,
  length, u32, ltb, ◌==◌, if-cases, if◌then◌else◌,
}
use nexus_embedded.Nv.{Nvm}
use nexus_embedded.Channel.Links.{
  Link, Slot, Rest, Links, link_timeout_seconds, clear_link_internal, clear_link_at,
  clear_links_internal, persist, process_link, process_links, add_link, links_process, without_link,
  count_in_use,
}

abbrev pub in_use_count : Slot → ℕ
in_use_count slot = if slot.in_use then 1 else 0

pub count-length : (slots : List Slot) → count_in_use slots ≤ length slots
unfolding count_in_use
count-length [] = omega arith
count-length (slot ∷ slots) = ground (arith, count-length slots)

module _ {F : Type 0} where
  -- A step on one place keeps the count right, and takes no place into use.
  abbrev KeepsOne : Slot → Rest F → Slot × Rest F → Type 0
  KeepsOne slot rest a =
      (a.1.link_count + in_use_count slot ≡ rest.link_count + in_use_count a.0)
      × (in_use_count a.0 ≤ in_use_count slot)

  -- The same for a step on all places.
  abbrev pub KeepsAll : List Slot → Rest F → List Slot × Rest F → Type 0
  KeepsAll slots rest a =
      (a.1.link_count + count_in_use slots ≡ rest.link_count + count_in_use a.0)
      × (count_in_use a.0 ≤ count_in_use slots)
      × (length a.0 ≡ length slots)

  keeps_cons :
      (slot : Slot) (slots : List Slot) (rest : Rest F) (a : Slot × Rest F) (b : List Slot × Rest F)
      → KeepsOne slot rest a
      → KeepsAll slots a.1 b
      → KeepsAll (slot ∷ slots) rest (a.0 ∷ b.0, b.1)
  unfolding count_in_use
  keeps_cons slot slots rest a b h k = (omega (arith, h, k), omega (arith, h, k), omega (arith, k))

module _ {F : Type 0} (nv : Nvm F) where
  clear_link_internal-KeepsOne :
      (index : ℕ) (slot : Slot) (rest : Rest F)
      → in_use_count slot ≤ rest.link_count
      → rest.link_count ≤ 10
      → KeepsOne slot rest (clear_link_internal nv index slot rest)
  unfolding clear_link_internal
  clear_link_internal-KeepsOne index slot rest a b =
      if-cases (KeepsOne slot rest) (not slot.in_use) _ _ (λ e. ground (arith, e))
        (λ e. ground (arith, e, a, b))

  process_link-KeepsOne :
      (t index : ℕ) (slot : Slot) (rest : Rest F)
      → in_use_count slot ≤ rest.link_count
      → rest.link_count ≤ 10
      → KeepsOne slot rest (process_link nv t index slot rest)
  unfolding process_link
  process_link-KeepsOne t index slot rest a b =
      let slot1 : Slot = record slot {
        link = record slot.link {
          seconds_since_init = u32 (slot.link.seconds_since_init + t);
          seconds_since_active = u32 (slot.link.seconds_since_active + t);
        };
      } in
      let saved : Rest F = record rest { flash = persist nv index slot1.link rest.flash } in
      let saved_slot : Slot = record slot1 { should_persist_nonce = false } in
      let timed_out = ltb link_timeout_seconds slot1.link.seconds_since_active in
      let saves = (slot.link.security_mode == 0) && slot.should_persist_nonce in
      let cleared = clear_link_internal nv index slot1 rest in
      let kept : Slot × Rest F = if saves then (saved_slot, saved) else (slot1, rest) in
      if-cases (KeepsOne slot rest) (not slot.in_use) (slot, rest)
        (if timed_out then cleared else kept) (λ e. (refl, omega arith))
        (λ _.
          if-cases (KeepsOne slot rest) timed_out cleared kept
            (λ _. clear_link_internal-KeepsOne index slot1 rest a b)
            (λ _.
              if-cases (KeepsOne slot rest) saves (saved_slot, saved) (slot1, rest)
                (λ _. (refl, omega arith)) (λ _. (refl, omega arith))))

  pub process_links-KeepsAll :
      (t index : ℕ) (slots : List Slot) (rest : Rest F)
      → count_in_use slots ≤ rest.link_count
      → rest.link_count ≤ 10
      → KeepsAll slots rest (process_links nv t index slots rest)
  unfolding process_links count_in_use
  process_links-KeepsAll t index [] rest a b = (refl, omega arith, refl)
  process_links-KeepsAll t index (slot ∷ slots) rest a b =
      let one = process_link-KeepsOne t index slot rest (omega (arith, a)) b in
      let x = process_link nv t index slot rest in
      keeps_cons slot slots rest x (process_links nv t (index + 1) slots x.1) one (
        process_links-KeepsAll t (index + 1) slots x.1 (omega (arith, a, one))
          (omega (arith, a, b, one)))

  clear_links_internal-KeepsAll :
      (index : ℕ) (slots : List Slot) (rest : Rest F)
      → count_in_use slots ≤ rest.link_count
      → rest.link_count ≤ 10
      → KeepsAll slots rest (clear_links_internal nv index slots rest)
  unfolding clear_links_internal count_in_use
  clear_links_internal-KeepsAll index [] rest a b = (refl, omega arith, refl)
  clear_links_internal-KeepsAll index (slot ∷ slots) rest a b =
      let one = clear_link_internal-KeepsOne index slot rest (omega (arith, a)) b in
      let x = clear_link_internal nv index slot rest in
      keeps_cons slot slots rest x (clear_links_internal nv (index + 1) slots x.1) one (
        clear_links_internal-KeepsAll (index + 1) slots x.1 (omega (arith, a, one))
          (omega (arith, a, b, one)))

  -- Clearing one link.
  pub clear_link_at-KeepsAll :
      (steps index : ℕ) (slots : List Slot) (rest : Rest F)
      → count_in_use slots ≤ rest.link_count
      → rest.link_count ≤ 10
      → KeepsAll slots rest (clear_link_at nv steps index slots rest)
  unfolding clear_link_at count_in_use
  clear_link_at-KeepsAll steps index [] rest a b = (refl, omega arith, refl)
  clear_link_at-KeepsAll zero index (slot ∷ slots) rest a b =
      let one = clear_link_internal-KeepsOne index slot rest (omega (arith, a)) b in
      keeps_cons slot slots rest (clear_link_internal nv index slot rest)
        (slots, (clear_link_internal nv index slot rest).1) one (refl, omega arith, refl)
  clear_link_at-KeepsAll (suc steps) index (slot ∷ slots) rest a b =
      keeps_cons slot slots rest (slot, rest) (clear_link_at nv steps (index + 1) slots rest)
        (refl, omega arith)
        (clear_link_at-KeepsAll steps (index + 1) slots rest (omega (arith, a)) b)

  -- A new link takes one place, if there is one.
  abbrev Adds : List Slot → Rest F → List Slot × Rest F → Type 0
  Adds slots rest a =
      (a.1.link_count ≡ rest.link_count + 1)
      × (count_in_use a.0 ≡ count_in_use slots + 1)
      × (length a.0 ≡ length slots)

  pub add_link-Adds :
      (link : Link) (index : ℕ) (slots : List Slot) (rest : Rest F)
      → count_in_use slots < length slots
      → rest.link_count ≤ 10
      → Adds slots rest (add_link nv link index slots rest)
  unfolding add_link count_in_use
  add_link-Adds link index [] rest a b = absurd (omega (arith, a))
  add_link-Adds link index (slot ∷ slots) rest a b =
      if-cases (Adds (slot ∷ slots) rest) (not slot.in_use) _ _
        (λ e. (omega (arith, b), ground (arith, e), refl))
        (λ e.
          let used : in_use_count slot ≡ 1 = ground (arith, e) in
          let h = add_link-Adds link (index + 1) slots rest (omega (arith, a, used)) b in
          (h.0, omega (arith, h), omega (arith, h)))

-- The invariant of the link manager, for at most ten places.
pub record IsLinks {F : Type 0} (s : Links F) : Type 0 where
  pub few : length s.slots ≤ 10
  pub counted : s.rest.link_count ≡ count_in_use s.slots
  pub room : s.pending_add_link ≡ true → s.rest.link_count < length s.slots

module _ {F : Type 0} (nv : Nvm F) where
  pub links_process-IsLinks : (t : ℕ) (s : Links F) → IsLinks s → IsLinks (links_process nv t s)
  unfolding links_process
  links_process-IsLinks t s v =
      let below = count-length s.slots in
      let ticked = process_links nv t 0 s.slots s.rest in
      let k =
        process_links-KeepsAll nv t 0 s.slots s.rest (omega (arith, v.counted))
          (omega (arith, v.few, v.counted, below)) in
      let c =
        clear_links_internal-KeepsAll nv 0 ticked.0 ticked.1 (omega (arith, k, v.counted))
          (omega (arith, k, v.few, v.counted, below)) in
      if-cases IsLinks s.pending_add_link _ _
        (λ e.
          let n =
            add_link-Adds nv s.pending_link_to_create 0 ticked.0 ticked.1
              (omega (arith, k, v.room e, v.counted)) (omega (arith, k, v.few, v.counted, below)) in
          record {
            few = omega (arith, n, k, v.few);
            counted = omega (arith, n, k, v.counted);
            room = λ q. absurd (clash q);
          })
        (λ e.
          if-cases IsLinks s.pending_clear_all_links _ _
            (λ _. record {
              few = omega (arith, c, k, v.few);
              counted = omega (arith, c, k, v.counted);
              room = λ q. absurd (clash (sym e ∙ q));
            })
            (λ _. record {
              few = omega (arith, k, v.few);
              counted = omega (arith, k, v.counted);
              room = λ q. absurd (clash (sym e ∙ q));
            }))
    where
      clash : false ≡ true → ⊥
      clash q = cc

  pub without_link-IsLinks :
      (index : ℕ) (s : Links F)
      → IsLinks s
      → s.pending_add_link ≡ false
      → IsLinks (without_link nv index s)
  unfolding without_link
  without_link-IsLinks index s v e =
      let k =
        clear_link_at-KeepsAll nv index 0 s.slots s.rest (omega (arith, v.counted))
          (omega (arith, v.few, v.counted, count-length s.slots)) in
      record {
        few = omega (arith, k, v.few);
        counted = omega (arith, k, v.counted);
        room = λ q. absurd (clash (sym e ∙ q));
      }
    where
      clash : false ≡ true → ⊥
      clash q = cc
