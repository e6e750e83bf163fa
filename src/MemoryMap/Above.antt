-- ===== src/MemoryMap/Above.antt =====
-- Inserting an area above all others.
use grub_os_iso_image.Common.{
  ℕ, ◌+◌, ◌-◌, ◌≤◌, ◌<◌, ◌≡◌, refl, Bool, true, false, List, [], ◌∷◌, arith, ltb,
}
use grub_os_iso_image.Placement.Area.{Area, IsProper}
use grub_os_iso_image.Placement.Table.{IsOrdered, covers}
use grub_os_iso_image.Placement.Insert.Placing.{end, placed_behind, placed}
use grub_os_iso_image.Placement.Insert.Correct.{is_apart, stands_alone, stands_alone_behind}
use grub_os_iso_image.Placement.AllocateArea.Carve.{contains}

-- Every free address is below `low`.
abbrev pub IsBelow : ℕ → List Area → Type 0
IsBelow low live = (x : ℕ) → covers live x ≡ true → x < low

IsBelow-tail : (low : ℕ) (a : Area) (rest : List Area) → IsBelow low (a ∷ rest) → IsBelow low rest
IsBelow-tail low a rest h x c = ground (arith, h x)

head_below :
    (low low' : ℕ) (a : Area) (rest : List Area)
    → IsOrdered low' (a ∷ rest)
    → IsBelow low (a ∷ rest)
    → a.start + a.size ≤ low
head_below low low' a rest o h = ground (arith, h (a.start + a.size - 1))

pub is_apart_above :
    (low low' : ℕ) (new : Area) (live : List Area)
    → IsOrdered low' live
    → IsBelow low live
    → low ≤ new.start
    → is_apart new live ≡ true
is_apart_above low low' new [] o h l = refl
is_apart_above low low' new (a ∷ rest) o h l = ground (
  arith,
  head_below low low' a rest o h,
  is_apart_above low (end a) new rest o.2 (IsBelow-tail low a rest h) l,
)

stands_alone_behind_above :
    (low low' : ℕ) (p new : Area) (live : List Area)
    → IsOrdered low' live
    → IsBelow low live
    → low ≤ new.start
    → stands_alone_behind p new live ≡ false
stands_alone_behind_above low low' p new [] o h l = refl
stands_alone_behind_above low low' p new (a ∷ rest) o h l = ground (
  arith,
  head_below low low' a rest o h,
  stands_alone_behind_above low (end a) a new rest o.2 (IsBelow-tail low a rest h) l,
)

pub stands_alone_above :
    (low : ℕ) (new : Area) (live : List Area)
    → IsOrdered 0 live
    → IsBelow low live
    → low ≤ new.start
    → stands_alone new live ≡ false
stands_alone_above low new [] o h l = refl
stands_alone_above low new (a ∷ rest) o h l = ground (
  arith,
  head_below low 0 a rest o h,
  stands_alone_behind_above low (end a) a new rest o.2 (IsBelow-tail low a rest h) l,
)

module _ (s n low : ℕ) (new : Area) (l : low ≤ new.start) where
  -- The range lies in the new area or in one of the others.
  abbrev pub in_one : List Area → Bool
  in_one live = contains s n (new ∷ live)

  contains-placed_behind :
      (low' : ℕ) (p : Area) (live : List Area)
      → IsProper new
      → IsOrdered low' (p ∷ live)
      → IsBelow low (p ∷ live)
      → in_one (p ∷ live) ≡ true
      → contains s n (placed_behind p new live).1 ≡ true
  contains-placed_behind low' p [] r o h c = ground (arith, head_below low low' p [] o h)
  contains-placed_behind low' p (a ∷ rest) r o h c =
      let passed : ltb a.start new.start ≡ true =
        ground (arith, head_below low (end p) a rest o.2 (IsBelow-tail low p (a ∷ rest) h)) in
      rw passed (
        ground
          (arith, contains-placed_behind (end p) a rest r o.2 (IsBelow-tail low p (a ∷ rest) h)))

  pub contains-placed :
      (live : List Area)
      → IsProper new
      → IsOrdered 0 live
      → IsBelow low live
      → in_one live ≡ true
      → contains s n (placed new live).1 ≡ true
  contains-placed [] r o h c = ground arith
  contains-placed (a ∷ rest) r o h c =
      let passed : ltb a.start new.start ≡ true = ground (arith, head_below low 0 a rest o h) in
      rw passed (contains-placed_behind 0 a rest r o h c)
