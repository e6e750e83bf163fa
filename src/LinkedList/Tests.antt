-- ===== src/LinkedList/Tests.antt =====
-- The list operations on a heap with two items.
use grub_os_iso_image.Common.{
  ℕ, zero, suc, ◌+◌, ◌-◌, ◌<◌, ◌≡◌, refl, ◌≢◌, none, some, [], ◌∷◌, arith, ◌==◌, if◌then◌else◌,
  get_or, ok, pos,
}
use grub_os_iso_image.LinkedList.{Heap, item, add_to_list, delete_list, length, iterate_over_list}
use grub_os_iso_image.LinkedList.Refine.{
  Items, Holds, IsNew, IsOutside, address_of, visit, add_to_list_refines, iterate_refines,
  delete_list_refines,
}

abbrev two_items : Items
two_items = (16, 1) ∷ (32, 2) ∷ []

abbrev two_heap : Heap
two_heap a = if a == 16 then some (item 32 32 1) else if a == 32 then some (item 16 16 2) else none

two_items-Holds : Holds two_heap 16 two_items
two_items-Holds = record { at_head = refl; linked = links; apart = differ; not_null = nonzero }
  where
    links :
        (i : ℕ)
        → i < 2
        → two_heap (address_of two_items i)
          ≡ some (
              item
                (address_of two_items (if i == 0 then 2 - 1 else i - 1))
                (address_of two_items (if i + 1 == 2 then 0 else i + 1))
                (get_or two_items i (0, 0)).1)
    links zero l = refl
    links (suc zero) l = refl
    links (suc (suc i)) l = absurd (omega arith)

    differ : (i j : ℕ) → i < 2 → j < 2 → address_of two_items i ≡ address_of two_items j → i ≡ j
    differ zero zero l m e = refl
    differ zero (suc zero) l m e = absurd (omega arith)
    differ (suc zero) zero l m e = absurd (omega arith)
    differ (suc zero) (suc zero) l m e = refl
    differ zero (suc (suc j)) l m e = absurd (omega arith)
    differ (suc zero) (suc (suc j)) l m e = absurd (omega arith)
    differ (suc (suc i)) j l m e = absurd (omega arith)

    nonzero : (i : ℕ) → i < 2 → address_of two_items i ≢ 0
    nonzero zero l = λ e. omega arith
    nonzero (suc zero) l = λ e. omega arith
    nonzero (suc (suc i)) l = absurd (omega arith)

third-IsNew : IsNew 48 two_items
third-IsNew = record { not_null = λ e. omega arith; outside = outside }
  where
    outside : IsOutside 48 two_items
    outside zero l = λ e. omega arith
    outside (suc zero) l = λ e. omega arith
    outside (suc (suc i)) l = absurd (omega arith)

add_to_list_refines_example :
    (head' : ℕ) × (h' : Heap) × (add_to_list 48 (item 7 7 7) 3 16 two_heap
      ≡ ok (pos 0, (head', h')))
    × Holds h' head' ((16, 1) ∷ (32, 2) ∷ (48, 3) ∷ [])
    × ((a : ℕ) → a ≢ 48 → IsOutside a two_items → h' a ≡ two_heap a)
add_to_list_refines_example =
    add_to_list_refines two_items 48 3 16 (item 7 7 7) two_heap two_items-Holds third-IsNew

-- The callback counts the addresses up.
iterate_refines_example :
    (iterate_over_list ◌+◌ 2 16 two_heap 0 ≡ ok (visit ◌+◌ two_items 0))
    × (length 2 16 two_heap ≡ ok 2)
iterate_refines_example =
    iterate_refines ◌+◌ two_items 2 16 two_heap 0 (omega arith) two_items-Holds

delete_list_refines_example :
    (h' : Heap) × (delete_list 2 16 two_heap ≡ ok (0, h'))
    × Holds h' 0 []
    × ((i : ℕ) → i < 2 → h' (address_of two_items i) ≡ none)
    × ((a : ℕ) → IsOutside a two_items → h' a ≡ two_heap a)
delete_list_refines_example =
    delete_list_refines two_items 2 16 two_heap (omega arith) two_items-Holds
