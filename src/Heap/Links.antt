-- ===== src/Heap/Links.antt =====
-- The circular lists.
use grub_os_iso_image.Common.{◌≡◌, false}
use grub_os_iso_image.Heap.{Heap, Place, same_place}

module _ (list entry : Place) (h : Heap) where
  -- The entry is neither the list nor its last member, whose successor is the list.
  pub record CanPush : Type 0 where
    pub not_list : same_place entry list ≡ false
    pub not_last : same_place entry (h.prev list) ≡ false
    pub closed : h.next (h.prev list) ≡ list
