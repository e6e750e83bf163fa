-- ===== src/Placement/Allocate/FirstFit.antt =====
-- What `allocate` promises, on lists of areas: the lowest area that is large enough gives up its
-- first bytes.
use grub_os_iso_image.Common.{
  ℕ, ◌+◌, ◌-◌, ◌≤◌, ◌<◌, ◌≡◌, refl, Bool, true, false, not, ◌&&◌, ◌||◌, List, [], ◌∷◌, arith, ltb,
  leb, ◌==◌, if◌then◌else◌,
}
use grub_os_iso_image.Placement.Area.{Area, area, inside}
use grub_os_iso_image.Placement.Table.{IsOrdered, IsOrdered-lower, covers, covers_below}

-- Some area has at least `size` bytes.
abbrev pub fits : ℕ → List Area → Bool
fits size [] = false
fits size (a ∷ rest) = leb size a.size || fits size rest

-- The start of the first area that has at least `size` bytes, and 0 if there is none.
abbrev pub first_fit : ℕ → List Area → ℕ
first_fit size [] = 0
first_fit size (a ∷ rest) = if leb size a.size then a.start else first_fit size rest

-- The areas that are left when that area has given up its first `size` bytes.
abbrev pub without_first_fit : ℕ → List Area → List Area
without_first_fit size [] = []
without_first_fit size (a ∷ rest) =
    if ltb size a.size
    then area (a.start + size) (a.size - size) ∷ rest
    else if a.size == size
    then rest
    else a ∷ without_first_fit size rest

-- The first area that has at least `size` bytes has no more than these.
abbrev pub fits_exactly : ℕ → List Area → Bool
fits_exactly size [] = false
fits_exactly size (a ∷ rest) = if leb size a.size then a.size == size else fits_exactly size rest

pub without_first_fit-IsOrdered :
    (size low : ℕ) (live : List Area)
    → 0 < size
    → IsOrdered low live
    → IsOrdered low (without_first_fit size live)
without_first_fit-IsOrdered size low [] h o = tt
without_first_fit-IsOrdered size low (a ∷ rest) h o = ground (
  arith,
  without_first_fit-IsOrdered size (a.start + a.size) rest h o.2,
  IsOrdered-lower (a.start + a.size) low rest,
)

pub first_fit-inside :
    (size low : ℕ) (live : List Area) (x : ℕ)
    → IsOrdered low live
    → fits size live ≡ true
    → inside (first_fit size live) size x ≡ true
    → (low ≤ x) × (covers live x ≡ true)
first_fit-inside size low [] x o f i = ground arith
first_fit-inside size low (a ∷ rest) x o f i =
    ground (arith, first_fit-inside size (a.start + a.size) rest x o.2)

pub covers-without_first_fit :
    (size low : ℕ) (live : List Area) (x : ℕ)
    → IsOrdered low live
    → fits size live ≡ true
    → covers (without_first_fit size live) x
      ≡ (covers live x && not (inside (first_fit size live) size x))
covers-without_first_fit size low [] x o f = ground arith
covers-without_first_fit size low (a ∷ rest) x o f = ground (
  arith,
  covers-without_first_fit size (a.start + a.size) rest x o.2,
  covers_below (a.start + a.size) rest x o.2,
  first_fit-inside size (a.start + a.size) rest x o.2,
)

pub without_first_fit_self :
    (size : ℕ) (live : List Area) → fits size live ≡ false → without_first_fit size live ≡ live
without_first_fit_self size [] f = refl
without_first_fit_self size (a ∷ rest) f = ground (arith, without_first_fit_self size rest)
