-- ===== src/Placement/AllocateArea/Carve.antt =====
-- What `allocate_area` promises, on lists of areas.
use grub_os_iso_image.Common.{
  ℕ, ◌+◌, ◌-◌, ◌≤◌, ◌<◌, ◌≡◌, refl, Bool, true, false, not, ◌&&◌, ◌||◌, List, [], ◌∷◌, arith, ltb,
  leb, ◌==◌, if◌then◌else◌, ℤ, pos, minus,
}
use grub_os_iso_image.Placement.Area.{Area, area, inside}
use grub_os_iso_image.Placement.Table.{IsOrdered, IsOrdered-lower, covers, covers_below}

-- One area contains the whole range of `size` bytes from `start` on.
abbrev pub contains : ℕ → ℕ → List Area → Bool
contains start size [] = false
contains start size (a ∷ rest) =
    leb a.start start && leb (start + size) (a.start + a.size) || contains start size rest

-- One area contains the range with room on both sides.
abbrev pub splits : ℕ → ℕ → List Area → Bool
splits start size [] = false
splits start size (a ∷ rest) =
    ltb a.start start && ltb (start + size) (a.start + a.size) || splits start size rest

-- Every area ends at or below `start`.
abbrev pub all_below : ℕ → List Area → Bool
all_below start [] = true
all_below start (a ∷ rest) = leb (a.start + a.size) start && all_below start rest

-- What is left of an area when the range, which it contains, is taken off it.
abbrev pub pieces : ℕ → ℕ → Area → List Area → List Area
pieces start size a rest =
    let right =
      if start + size == a.start + a.size
      then rest
      else area (start + size) (a.start + a.size - (start + size)) ∷ rest in
    if a.start == start then right else area a.start (start - a.start) ∷ right

-- The areas that are left when the range is taken off the area that contains it.
abbrev pub carved : ℕ → ℕ → List Area → List Area
carved start size [] = []
carved start size (a ∷ rest) =
    if leb a.start start && leb (start + size) (a.start + a.size)
    then pieces start size a rest
    else a ∷ carved start size rest

pub contains-inside :
    (start size low : ℕ) (live : List Area) (x : ℕ)
    → IsOrdered low live
    → contains start size live ≡ true
    → inside start size x ≡ true
    → (low ≤ x) × (covers live x ≡ true)
contains-inside start size low [] x o c i = cc
contains-inside start size low (a ∷ rest) x o c i =
    ground (arith, contains-inside start size (a.start + a.size) rest x o.2)

pub contains_above :
    (start size low : ℕ) (live : List Area)
    → IsOrdered low live
    → contains start size live ≡ true
    → low ≤ start
contains_above start size low [] o c = cc
contains_above start size low (a ∷ rest) o c =
    ground (arith, contains_above start size (a.start + a.size) rest o.2)

pub carved-IsOrdered :
    (start size low : ℕ) (live : List Area)
    → 0 < size
    → IsOrdered low live
    → contains start size live ≡ true
    → IsOrdered low (carved start size live)
carved-IsOrdered start size low [] p o c = tt
carved-IsOrdered start size low (a ∷ rest) p o c = ground (
  arith,
  carved-IsOrdered start size (a.start + a.size) rest p o.2,
  IsOrdered-lower (a.start + a.size) low rest,
  IsOrdered-lower (a.start + a.size) start rest,
)

pub covers-carved :
    (start size low : ℕ) (live : List Area) (x : ℕ)
    → 0 < size
    → IsOrdered low live
    → contains start size live ≡ true
    → covers (carved start size live) x ≡ (covers live x && not (inside start size x))
covers-carved start size low [] x p o c = cc
covers-carved start size low (a ∷ rest) x p o c = ground (
  arith,
  covers-carved start size (a.start + a.size) rest x p o.2,
  covers_below (a.start + a.size) rest x o.2,
  contains_above start size (a.start + a.size) rest o.2,
)

-- The result of `allocate_area` for a range of at least one byte, if some area is left and the
-- table has an unused entry.
abbrev pub code : ℕ → ℕ → List Area → ℤ
code start size live =
    if contains start size live then pos 0 else if all_below start live then minus 3 else minus 5

pub carved_self :
    (start size : ℕ) (live : List Area)
    → contains start size live ≡ false
    → carved start size live ≡ live
carved_self start size [] c = refl
carved_self start size (a ∷ rest) c = ground (arith, carved_self start size rest)
