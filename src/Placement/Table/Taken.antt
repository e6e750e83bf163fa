-- ===== src/Placement/Table/Taken.antt =====
-- What it means to take a range of addresses off a list of free areas.
use grub_os_iso_image.Common.{ℕ, ◌≡◌, true, not, ◌&&◌, List}
use grub_os_iso_image.Placement.Area.{Area, inside}
use grub_os_iso_image.Placement.Table.{IsOrdered, covers}

-- `after` is what is left of `before` when the `size` bytes from `start` on, which were all free,
-- have been taken.
pub record IsTaken (before : List Area) (start size : ℕ) (after : List Area) : Type 0 where
  pub ordered : IsOrdered 0 after
  pub was_free : (x : ℕ) → inside start size x ≡ true → covers before x ≡ true
  pub free_after : (x : ℕ) → covers after x ≡ (covers before x && not (inside start size x))
