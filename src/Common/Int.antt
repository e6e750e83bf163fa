-- ===== src/Common/Int.antt =====
-- The values of C's `int` that the functions return.
use Prim.Native.Nat.{ℕ, zero, suc, ◌-◌, ◌^◌}
use grub_os_iso_image.Common.Tests.{ltb, if◌then◌else◌}

-- `negsuc n` is -(n + 1).
pub data ℤ : Type 0 where
  pos : ℕ → ℤ
  negsuc : ℕ → ℤ

-- `minus 3` is the C literal -3.
abbrev pub minus : ℕ → ℤ
minus zero = pos 0
minus (suc n) = negsuc n

-- The `int` that an unsigned 32 bit number is converted to.
abbrev pub int32 : ℕ → ℤ
int32 w = if ltb w (2 ^ 31) then pos w else negsuc (2 ^ 32 - w - 1)
