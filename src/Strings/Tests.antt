-- ===== src/Strings/Tests.antt =====
-- Runs on a memory of twelve bytes, with the strings "abc" at 0 and "abd" at 4.
use grub_os_iso_image.Common.{
  ℕ, ◌+◌, ◌-◌, ◌≡◌, refl, inl, ◌&&◌, List, [], ◌∷◌, arith, ltb, leb, if◌then◌else◌, length, get_or,
  ok,
}
use grub_os_iso_image.Strings.{k_memcpy, k_strcmp}
use grub_os_iso_image.Strings.Copy.{k_memcpy_lem, IsString}
use grub_os_iso_image.Strings.Compare.{k_strcmp_lem}

abbrev twelve_bytes : List ℕ
twelve_bytes = 97 ∷ 98 ∷ 99 ∷ 0 ∷ 97 ∷ 98 ∷ 100 ∷ 0 ∷ 255 ∷ 255 ∷ 255 ∷ 255 ∷ []

abbrev abc : List ℕ
abc = 97 ∷ 98 ∷ 99 ∷ []

abbrev abd : List ℕ
abd = 97 ∷ 98 ∷ 100 ∷ []

abc-IsString : IsString twelve_bytes 0 abc
abc-IsString = (refl, omega arith, (refl, omega arith, (refl, omega arith, (refl, omega arith))))

abd-IsString : IsString twelve_bytes 4 abd
abd-IsString = (refl, omega arith, (refl, omega arith, (refl, omega arith, (refl, omega arith))))

k_memcpy_lem_example :
    (after : List ℕ) × (k_memcpy 1 2 6 twelve_bytes ≡ ok after)
    × (length after ≡ 12)
    × ((a : ℕ)
        → get_or after a 0 ≡ (
            if leb 1 a && ltb a 7
            then get_or twelve_bytes (2 + (a - 1)) 0
            else get_or twelve_bytes a 0))
k_memcpy_lem_example =
    k_memcpy_lem 1 2 6 twelve_bytes (omega arith) (omega arith) (inl (omega arith))

k_strcmp_lem_example : k_strcmp 0 4 twelve_bytes ≡ ok 1
k_strcmp_lem_example = k_strcmp_lem 0 4 twelve_bytes abc abd abc-IsString abd-IsString
