-- ===== src/Sort/Tests.antt =====
-- Sorting four numbers.
use grub_os_iso_image.Common.{◌≡◌, refl, List, [], ◌∷◌, ok, ℤ, pos, minus}
use mathlib.Core.List.{Permᴰ}
use grub_os_iso_image.Sort.{
  int_comparator, int_swap, bubblesort, quicksort, quicksort_internal, partition_from,
}
use grub_os_iso_image.Sort.Bubble.{IsSorted, bubblesort_lem}
use grub_os_iso_image.Sort.Integers.{int_comparator-IsTotalOrder, int_comparator-IsOpposite}
use grub_os_iso_image.Sort.Quick.{quicksort_lem}

abbrev four : List ℤ
four = pos 3 ∷ minus 2 ∷ pos 7 ∷ pos 0 ∷ []

bubblesort_lem_example :
    (after : List ℤ) × (bubblesort int_comparator int_swap 4 four ≡ ok after)
    × IsSorted int_comparator after
    × Permᴰ after four
bubblesort_lem_example = bubblesort_lem int_comparator int_comparator-IsTotalOrder four

four_sorted : quicksort int_comparator int_swap 4 four ≡ ok (minus 2 ∷ pos 0 ∷ pos 3 ∷ pos 7 ∷ [])
unfolding quicksort quicksort_internal partition_from int_comparator int_swap
four_sorted = refl

quicksort_lem_example :
    (after : List ℤ) × (quicksort int_comparator int_swap 4 four ≡ ok after)
    × IsSorted int_comparator after
    × Permᴰ after four
quicksort_lem_example =
    quicksort_lem int_comparator int_comparator-IsTotalOrder int_comparator-IsOpposite four
