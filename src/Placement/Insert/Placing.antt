-- ===== src/Placement/Insert/Placing.antt =====
-- What `insert_area` does, on lists of areas.
use grub_os_iso_image.Common.{
  ℕ, suc, ◌+◌, ◌≤◌, Bool, false, ◌&&◌, ◌||◌, List, [], ◌∷◌, ◌++◌, arith, ltb, leb, ◌==◌,
  if◌then◌else◌, length, length-append, ℤ, pos, minus,
}
use grub_os_iso_image.Placement.Area.{Area, area, no_area}

-- The address behind an area.
abbrev pub end : Area → ℕ
end a = a.start + a.size

-- The first or the last address of `b` lies in `a`.
abbrev pub touches : Area → Area → Bool
touches a b =
    leb a.start b.start && ltb b.start (end a) || ltb a.start (end b) && leb (end b) (end a)

-- The result of the call, and the areas after it.
abbrev pub Placed : Type 0
Placed = ℤ × List Area

-- The new area in front of `rest`, with no predecessor to merge with. If it does not end where the
-- first of them begins, it replaces that area, and an unused entry is counted.
abbrev pub settle : Area → List Area → List Area
settle new [] = new ∷ []
settle new (s ∷ rest) =
    if s.start == end new
    then area new.start (s.size + new.size) ∷ rest
    else new ∷ rest ++ (no_area ∷ [])

-- The areas `p` and `rest` when the new area, which begins where `p` ends, is merged with `p`.
abbrev pub extend : Area → Area → List Area → List Area
extend p new [] = area p.start (p.size + new.size) ∷ []
extend p new (s ∷ rest) =
    if s.start == end new
    then area p.start (p.size + new.size + s.size) ∷ rest
    else area p.start (p.size + new.size) ∷ s ∷ rest

-- The first of the areas collides with the new one.
abbrev pub collides : Area → List Area → Bool
collides new [] = false
collides new (s ∷ rest) = touches s new

-- The new area in front of `rest`, whose areas do not begin below it.
abbrev pub place : Area → List Area → Placed
place new rest = if collides new rest then (minus 4, rest) else (pos 0, settle new rest)

abbrev pub behind : Area → Placed → Placed
behind p r = (r.0, p ∷ r.1)

-- The new area between `p`, which begins below it, and `rest`, whose areas do not.
abbrev pub place_behind : Area → Area → List Area → Placed
place_behind p new rest =
    if touches p new
    then (minus 3, p ∷ rest)
    else if collides new rest
    then (minus 4, p ∷ rest)
    else if end p == new.start
    then (pos 0, extend p new rest)
    else (pos 0, p ∷ settle new rest)

-- The new area among the areas behind `p`, which begins below it.
abbrev pub placed_behind : Area → Area → List Area → Placed
placed_behind p new [] = place_behind p new []
placed_behind p new (a ∷ rest) =
    if ltb a.start new.start
    then behind p (placed_behind a new rest)
    else place_behind p new (a ∷ rest)

abbrev pub placed : Area → List Area → Placed
placed new [] = place new []
placed new (a ∷ rest) =
    if ltb a.start new.start then placed_behind a new rest else place new (a ∷ rest)

length-settle : (new : Area) (rest : List Area) → length (settle new rest) ≤ suc (length rest)
length-settle new [] = omega arith
length-settle new (s ∷ rest) = ground (arith, length-append rest (no_area ∷ []))

length-extend : (p new : Area) (rest : List Area) → length (extend p new rest) ≤ suc (length rest)
length-extend p new [] = omega arith
length-extend p new (s ∷ rest) = ground arith

length-place_behind :
    (p new : Area) (rest : List Area) → length (place_behind p new rest).1 ≤ suc (suc (length rest))
length-place_behind p new rest = ground (arith, length-settle new rest, length-extend p new rest)

length-placed_behind :
    (p new : Area) (live : List Area)
    → length (placed_behind p new live).1 ≤ suc (suc (length live))
length-placed_behind p new [] = length-place_behind p new []
length-placed_behind p new (a ∷ rest) =
    ground (arith, length-placed_behind a new rest, length-place_behind p new (a ∷ rest))

-- A new area adds one entry at most.
pub length-placed : (new : Area) (live : List Area) → length (placed new live).1 ≤ suc (length live)
length-placed new [] = ground (arith, length-settle new [])
length-placed new (a ∷ rest) =
    ground (arith, length-placed_behind a new rest, length-settle new (a ∷ rest))
