-- ===== src/Placement/Area.antt =====
-- `memory_area_t` of placement_memory.h and the tests on it in placement_memory.c.
pub mod Overlap
use grub_os_iso_image.Common.{ℕ, ◌+◌, ◌<◌, ◌^◌, Bool, ◌&&◌, ◌||◌, ltb, leb, ◌==◌, add64, sub64}

pub record Area : Type 0 where
  pub start : ℕ
  pub size : ℕ

abbrev pub area : ℕ → ℕ → Area
area s n = record { start = s; size = n }

-- What `clear_placement_memory_array` writes into each entry.
abbrev pub no_area : Area
no_area = area 0 0

unfoldable pub completely_contains : Area → Area → Bool
completely_contains lhs rhs =
    let start_in = leb lhs.start rhs.start && leb rhs.start (add64 lhs.start lhs.size) in
    let end_in =
      leb lhs.start (add64 rhs.start rhs.size)
      && leb (add64 rhs.start rhs.size) (add64 lhs.start lhs.size) in
    start_in && end_in

unfoldable pub overlapp : Area → Area → Bool
overlapp lhs rhs =
    let lhs_end = sub64 (add64 lhs.start lhs.size) 1 in
    let rhs_end = sub64 (add64 rhs.start rhs.size) 1 in
    leb lhs.start rhs.start && leb rhs.start lhs_end || leb lhs.start rhs_end && leb rhs_end lhs_end

unfoldable pub is_free : Area → Bool
is_free a = a.size == 0 && a.start == 0

-- The address `x` lies in the `size` bytes from `start` on.
abbrev pub inside : ℕ → ℕ → ℕ → Bool
inside start size x = leb start x && ltb x (start + size)

-- An area of at least one byte that ends below 2 ^ 64.
pub record IsProper (a : Area) : Type 0 where
  pub positive : 0 < a.size
  pub below : a.start + a.size < 2 ^ 64
