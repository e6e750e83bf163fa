-- ===== src/Kernel/Window.antt =====
-- A range behind the reserved memory that lies in one free area still does when the reserved memory
-- is taken off, so that the placement memory finds room.
use grub_os_iso_image.Common.{ℕ, ◌≤◌, ◌<◌, ◌≡◌, true, List, [], ◌∷◌, arith, length}
use grub_os_iso_image.Placement.Area.{Area}
use grub_os_iso_image.Placement.Allocate.FirstFit.{fits}
use grub_os_iso_image.Placement.AllocateArea.Carve.{contains}
use grub_os_iso_image.Placement.Cover.Cut.{cut}

pub contains-cut :
    (size s n : ℕ) (live : List Area)
    → size ≤ s
    → 0 < n
    → contains s n live ≡ true
    → contains s n (cut 0 size live) ≡ true
contains-cut size s n [] h p c = c
contains-cut size s n (a ∷ rest) h p c = ground (arith, contains-cut size s n rest h p)

pub length-cut : (size : ℕ) (live : List Area) → length (cut 0 size live) ≤ length live
length-cut size [] = omega arith
length-cut size (a ∷ rest) = ground (arith, length-cut size rest)

pub fits-contains : (s n : ℕ) (live : List Area) → contains s n live ≡ true → fits n live ≡ true
fits-contains s n [] c = c
fits-contains s n (a ∷ rest) c = ground (arith, fits-contains s n rest)
