-- ===== src/Console/Tests.antt =====
-- A screen of blanks, and printed numbers.
use grub_os_iso_image.Common.{
  ℕ, pos, int32, some, ◌↔◌, ◌<◌, ◌^◌, ◌≡◌, refl, add32, List, [], ◌∷◌, ◌++◌, arith, replicate,
  length-replicate, ok,
}
use grub_os_iso_image.Console.{Screen, k_putchar, digits_from, reverse_from, k_itoa}
use grub_os_iso_image.Console.Put.{IsPut, k_putchar_lem}
use grub_os_iso_image.Console.Float.{k_print_float, k_print_float_lem}
use grub_os_iso_image.Console.Print.{k_printf}
use grub_os_iso_image.Console.Printf.{
  IsFormat, IsExpansion, Puts, k_printf_lem, end, plain, conversion,
}
use grub_os_iso_image.Console.Numerals.{read_back}
use grub_os_iso_image.Console.Itoa.{IsText, k_itoa_lem}

abbrev blank : Screen
blank = record { video = replicate 3840 0; xpos = 79; ypos = 23 }

k_putchar_lem_example : (after : Screen) × (k_putchar 65 blank ≡ ok after) × IsPut 65 blank after
k_putchar_lem_example =
    k_putchar_lem 65 blank
      (record { memory = length-replicate {A = ℕ} 3840 0; column = omega arith; row = omega arith })

abbrev buffer : List ℕ
buffer = replicate 6 1

-- -120 in decimal.
printed_number : k_itoa buffer 100 4294967176 ≡ ok (45 ∷ 49 ∷ 50 ∷ 48 ∷ 0 ∷ 1 ∷ [])
unfolding k_itoa digits_from reverse_from
printed_number = refl

k_itoa_lem_example :
    (text rest : List ℕ) × (k_itoa (replicate 20 1) 100 4294967176 ≡ ok (text ++ (0 ∷ rest)))
    × IsText 100 4294967176 (replicate 20 1) text rest
k_itoa_lem_example = k_itoa_lem 100 4294967176 (replicate 20 1) (omega arith) (omega arith)

-- "%d=%s"
abbrev format : List ℕ
format = 37 ∷ 100 ∷ 61 ∷ 37 ∷ 115 ∷ []

abbrev hi : ℕ → List ℕ
hi a = 104 ∷ 105 ∷ []

abbrev format-IsFormat : IsFormat format (4294967176 ∷ 4096 ∷ [])
format-IsFormat =
    conversion 100 4294967176 _ _ (omega arith)
      (plain 61 _ _ (λ e. omega (arith, e)) (conversion 115 4096 _ _ (omega arith) (end [])))

k_printf_lem_example :
    (text : List ℕ) × (after : Screen) × (k_printf hi
        (replicate 20 1)
        format
        (4294967176 ∷ 4096 ∷ [])
        0
        blank
      ≡ ok (add32 0 80, after))
    × IsExpansion hi format (4294967176 ∷ 4096 ∷ []) text
    × Puts text blank after
k_printf_lem_example =
    k_printf_lem hi (replicate 20 1) format (4294967176 ∷ 4096 ∷ []) 0 blank format-IsFormat
      (length-replicate {A = ℕ} 20 1)
      (record { memory = length-replicate {A = ℕ} 3840 0; column = omega arith; row = omega arith })

-- The integers that 2.375 gives.
k_print_float_lem_example :
    (ints decimals : List ℕ) × (after : Screen) × (k_print_float 2 375 blank ≡ ok after)
    × (read_back 10 ints ≡ some (pos 2))
    × ((read_back 10 ints ≡ some (int32 2)) ↔ (2 < 2 ^ 31))
    × (read_back 10 decimals ≡ some (pos 375))
    × Puts (ints ++ (46 ∷ (decimals ++ (0 ∷ [])))) blank after
k_print_float_lem_example =
    k_print_float_lem 2 375 blank (omega arith) (omega arith)
      (record { memory = length-replicate {A = ℕ} 3840 0; column = omega arith; row = omega arith })
