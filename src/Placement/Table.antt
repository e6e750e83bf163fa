-- ===== src/Placement/Table.antt =====
-- The table `free_memory_areas` with `free_memory_area_index`, the number of areas in use, and the
-- list of areas that a table stands for.
pub mod Shift
pub mod Clear
pub mod Taken
pub mod Holding
pub mod Unused
use grub_os_iso_image.Common.{
  ℕ, zero, suc, ◌+◌, ◌-◌, ◌≤◌, ◌<◌, ◌^◌, ◌≡◌, refl, ◌∙◌, ap, Bool, true, false, ◌&&◌, ◌||◌, List,
  [], ◌∷◌, ◌++◌, arith, ltb, leb, ◌==◌, if◌then◌else◌, Run, ok, ◌>>=◌, >>=-ok, read, write, ending,
  returns, faults, exhausts, length, replicate,
}
use Prim.Native.Nat.add
use native.Mathlib.Nat.{add-zero, add-suc}
use grub_os_iso_image.Placement.Area.{Area, area, no_area, inside, IsProper}

abbrev pub max_memory_areas_size : ℕ
max_memory_areas_size = 10

pub record Table : Type 0 where
  pub free_memory_areas : List Area
  pub free_memory_area_index : ℕ

abbrev pub table : List Area → ℕ → Table
table areas index = record { free_memory_areas = areas; free_memory_area_index = index }

unfoldable pub clear_from : ℕ → ℕ → List Area → Run (List Area)
clear_from zero i areas = ok areas
clear_from (suc rounds) i areas = do
  areas' ← write areas i no_area
  clear_from rounds (suc i) areas'

unfoldable pub clear_placement_memory_array : Table → Run Table
clear_placement_memory_array t = do
  areas ← clear_from max_memory_areas_size 0 t.free_memory_areas
  ok (table areas 0)

unfoldable pub areas_size_from : ℕ → ℕ → List Area → Run ℕ
areas_size_from zero i areas = ok max_memory_areas_size
areas_size_from (suc rounds) i areas = do
  a ← read areas i
  let rest = areas_size_from rounds (suc i) areas
  if a.start == 0 && a.size == 0 then ok i else rest

unfoldable pub memory_areas_size : Table → Run ℕ
memory_areas_size t = areas_size_from max_memory_areas_size 0 t.free_memory_areas

-- `areas[j] = areas[j + 1]` for `rounds` indices from `j` on: the loop that removes an entry.
unfoldable pub shift_left : ℕ → ℕ → List Area → Run (List Area)
shift_left zero j areas = ok areas
shift_left (suc rounds) j areas = do
  next ← read areas (suc j)
  areas' ← write areas j next
  shift_left rounds (suc j) areas'

-- `areas[j] = areas[j - 1]` for `rounds` indices downwards, the last of them `i + 1`: the loop that
-- makes room behind entry `i`.
unfoldable pub shift_right : ℕ → ℕ → List Area → Run (List Area)
shift_right zero i areas = ok areas
shift_right (suc rounds) i areas = do
  previous ← read areas (i + rounds)
  areas' ← write areas (suc (i + rounds)) previous
  shift_right rounds i areas'

-- The table that holds the areas `live` and nothing behind them.
unfoldable pub padded : List Area → List Area
padded live = live ++ replicate (max_memory_areas_size - length live) no_area

unfoldable pub table_of : List Area → Table
unfolding padded
table_of live = table (padded live) (length live)

-- The areas are proper, ascending and disjoint, and none begins below `low`.
abbrev pub IsOrdered : ℕ → List Area → Type 0
IsOrdered low [] = Unit
IsOrdered low (a ∷ rest) = (low ≤ a.start) × IsProper a × IsOrdered (a.start + a.size) rest

-- The address `x` is free.
abbrev pub covers : List Area → ℕ → Bool
covers [] x = false
covers (a ∷ rest) x = inside a.start a.size x || covers rest x

pub IsOrdered-lower :
    (low low' : ℕ) (live : List Area) → low' ≤ low → IsOrdered low live → IsOrdered low' live
IsOrdered-lower low low' [] h o = tt
IsOrdered-lower low low' (a ∷ rest) h o = (omega arith, o.1, o.2)

pub covers_below :
    (low : ℕ) (live : List Area) (x : ℕ) → IsOrdered low live → x < low → covers live x ≡ false
covers_below low [] x o h = refl
covers_below low (a ∷ rest) x o h = ground (arith, covers_below (a.start + a.size) rest x o.2)

-- A table whose first areas `pre` a loop has passed, and whose other areas are `live`.
abbrev pub holding : List Area → List Area → Table
holding pre live =
    table (pre ++ (live ++ replicate (max_memory_areas_size - (length pre + length live)) no_area))
      (length pre + length live)
