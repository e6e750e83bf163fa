-- ===== src/Placement/Insert/Correct.antt =====
-- When the lists that `insert_area` leaves are the right ones.
pub mod Added
pub mod Lost
pub mod Refused
use grub_os_iso_image.Common.{
  ℕ, zero, suc, ◌+◌, ◌-◌, ◌*◌, ◌/◌, ◌%◌, ◌^◌, ◌≤◌, ◌<◌, ◌≡◌, refl, sym, ap, ◌∙◌, ◌≢◌, ◌↔◌, ◌⊎◌, inl,
  inr, Bool, true, false, not, ◌&&◌, ◌||◌, Option, none, some, List, [], ◌∷◌, ◌++◌, append_assoc,
  append-nil, arith, ltb, leb, ◌==◌, if◌then◌else◌, ltb→lt, ltb→le, lt→ltb, le→ltb, ==_iff,
  Bool-cases, length, get_elem?, get_or, set, replicate, length-append, length-replicate,
  length-set, get_elem?-eq-get_or, get_or-set_self, get_or-set_ne, u8, u16, u32, add32, sub32,
  add64, sub64, ◌<<<◌, ◌>>>◌, Run, ok, fault, out_of_fuel, ◌>>=◌, >>=_assoc, >>=-ok, read, write,
  read-append, write-append, Ending, returns, faults, exhausts, ending, >>=-halts, >>=-eq-ok,
  read-halts, write-halts, ℤ, pos, negsuc, minus,
}
use grub_os_iso_image.Placement.Area.{Area, area, inside}
use grub_os_iso_image.Placement.Insert.Placing.{end}

-- No area shares an address with the new one.
abbrev pub is_apart : Area → List Area → Bool
is_apart new [] = true
is_apart new (a ∷ rest) = (leb (end new) a.start || leb (end a) new.start) && is_apart new rest

-- The new area has a successor, and begins neither where the area `p` before it ends nor ends where
-- the successor begins.
abbrev pub stands_alone_behind : Area → Area → List Area → Bool
stands_alone_behind p new [] = false
stands_alone_behind p new (a ∷ rest) =
    if ltb a.start new.start
    then stands_alone_behind a new rest
    else not (end p == new.start) && not (a.start == end new)

abbrev pub stands_alone : Area → List Area → Bool
stands_alone new [] = false
stands_alone new (a ∷ rest) =
    if ltb a.start new.start then stands_alone_behind a new rest else not (a.start == end new)
