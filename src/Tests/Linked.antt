-- ===== src/Tests/Linked.antt =====
-- The link manager of a new device with two places for links.
use nexus_embedded.Base.{◌≡◌, refl, arith, true, false, [], ◌∷◌}
use nexus_embedded.Channel.Om.{NxId}
use nexus_embedded.Channel.Links.{
  Links, empty_slot, zero_link, links_process, create_link, links_init, with_pending, free_slot,
  link_index_from_nxid, count_in_use,
}
use nexus_embedded.Channel.Links.Invariant.{IsLinks}
use nexus_embedded.Channel.Links.Room.{
  no_step, one_step, restarted, processed, link_asked_for, LinksLater-IsLinks,
}
use nexus_embedded.Channel.Links.Created.{IsLinkedFrom, created_is_linked}
use nexus_embedded.Tests.Devices.{Flash, memory, empty_flash, secret_key}

abbrev accessory : NxId
accessory = record { authority_id = 0x0102; device_id = 0x94837158 }

abbrev no_links : Links Flash
no_links = record {
  slots = empty_slot ∷ empty_slot ∷ [];
  rest = record { link_count = 0; flash = empty_flash; events = [] };
  pending_link_to_create = zero_link;
  pending_add_link = false;
  pending_clear_all_links = false;
}

no_links-IsLinks : IsLinks no_links
unfolding count_in_use
no_links-IsLinks = record { few = omega arith; counted = refl; room = λ q. absurd (no q) }
  where
    no : false ≡ true → ⊥
    no q = cc

LinksLater-IsLinks_example : IsLinks (
    links_init memory 2
      (links_process memory 5 (create_link memory accessory 1 0 secret_key 9 no_links).1))
LinksLater-IsLinks_example = LinksLater-IsLinks memory 2 (omega arith) no_links-IsLinks (
    one_step (one_step (one_step no_step (link_asked_for accessory 1 0 secret_key 9)) (processed 5))
      restarted)

agreed : (create_link memory accessory 1 0 secret_key 9 no_links).0 ≡ true
unfolding create_link free_slot with_pending link_index_from_nxid
agreed = refl

created_is_linked_example :
    IsLinkedFrom 0 accessory
      (links_process memory 5 (create_link memory accessory 1 0 secret_key 9 no_links).1).slots
created_is_linked_example =
    created_is_linked memory accessory 1 0 secret_key 9 no_links 5 no_links-IsLinks agreed
