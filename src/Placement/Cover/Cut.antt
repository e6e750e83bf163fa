-- ===== src/Placement/Cover/Cut.antt =====
-- What `allocate_area_cover` promises, on lists of areas.
use grub_os_iso_image.Common.{
  ℕ, ◌+◌, ◌-◌, ◌≤◌, ◌<◌, ◌≡◌, refl, ◌∙◌, Bool, not, ◌&&◌, ◌||◌, List, [], ◌∷◌, arith, leb,
  if◌then◌else◌,
}
use grub_os_iso_image.Placement.Area.{Area, area, inside}
use grub_os_iso_image.Placement.Table.{IsOrdered, IsOrdered-lower, covers}

-- What is left of one area, in front of the areas `tail`.
abbrev pub cut_area : ℕ → ℕ → Area → List Area → List Area
cut_area start size a tail =
    let end = start + size in
    let a_end = a.start + a.size in
    if leb a_end start || leb end a.start
    then a ∷ tail
    else if leb start a.start && leb a_end end
    then tail
    else if leb start a.start
    then area end (a_end - end) ∷ tail
    else if leb a_end end
    then area a.start (start - a.start) ∷ tail
    else area a.start (start - a.start) ∷ area end (a_end - end) ∷ tail

-- The areas without the addresses of the `size` bytes from `start` on.
abbrev pub cut : ℕ → ℕ → List Area → List Area
cut start size [] = []
cut start size (a ∷ rest) = cut_area start size a (cut start size rest)

-- Areas that begin behind the range stay as they are.
pub cut_self :
    (start size low : ℕ) (live : List Area)
    → IsOrdered low live
    → start + size ≤ low
    → cut start size live ≡ live
cut_self start size low [] o h = refl
cut_self start size low (a ∷ rest) o h =
    ground (arith, cut_self start size (a.start + a.size) rest o.2)

pub cut-IsOrdered :
    (start size low : ℕ) (live : List Area)
    → 0 < size
    → IsOrdered low live
    → IsOrdered low (cut start size live)
cut-IsOrdered start size low [] p o = tt
cut-IsOrdered start size low (a ∷ rest) p o = ground (
  arith,
  cut-IsOrdered start size (a.start + a.size) rest p o.2,
  IsOrdered-lower (a.start + a.size) low (cut start size rest),
  IsOrdered-lower (a.start + a.size) start (cut start size rest),
)

covers-cut_area :
    (start size : ℕ) (a : Area) (tail : List Area) (x : ℕ)
    → covers (cut_area start size a tail) x
      ≡ (inside a.start a.size x && not (inside start size x) || covers tail x)
covers-cut_area start size a tail x = ground arith

pub covers-cut :
    (start size : ℕ) (live : List Area) (x : ℕ)
    → covers (cut start size live) x ≡ (covers live x && not (inside start size x))
covers-cut start size [] x = refl
covers-cut start size (a ∷ rest) x =
    covers-cut_area start size a (cut start size rest) x
    ∙ rw (covers-cut start size rest x)
        (distribute (inside a.start a.size x) (covers rest x) (inside start size x))
  where
    distribute : (b c i : Bool) → (b && not i || c && not i) ≡ ((b || c) && not i)
    distribute b c i = ground arith
