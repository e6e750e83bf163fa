-- ===== src/Sort/Carry.antt =====
-- What one pass of `bubblesort` does: it carries the largest element to the end.
use grub_os_iso_image.Common.{
  suc, ◌≡◌, refl, ap, inl, inr, Bool, List, [], ◌∷◌, ◌++◌, append_assoc, if◌then◌else◌, Bool-cases,
  length, ok, read, write, read-append, write-append, ℤ,
}
use mathlib.Core.List.{Permᴰ}
use mathlib.Core.List.Permᴰ
use grub_os_iso_image.Common.{length-snoc}
use grub_os_iso_image.Sort.{is_positive, int_swap, bubble_from}

module _ {A : Type 0} (comparator : A → A → ℤ) where
  abbrev pub greater : A → A → Bool
  greater a b = is_positive (comparator a b)

  -- The elements behind `x`, and `x`, without the one that is carried.
  abbrev pub carry_rest : A → List A → List A
  carry_rest x [] = []
  carry_rest x (y ∷ r) = if greater x y then y ∷ carry_rest x r else x ∷ carry_rest y r

  abbrev pub carry_last : A → List A → A
  carry_last x [] = x
  carry_last x (y ∷ r) = if greater x y then carry_last x r else carry_last y r

  pub length-carry_rest : (x : A) (r : List A) → length (carry_rest x r) ≡ length r
  length-carry_rest x [] = refl
  length-carry_rest x (y ∷ r) = elim (Bool-cases (greater x y)) [
    | inl e ↦ rw e (ap suc (length-carry_rest x r))
    | inr e ↦ rw e (ap suc (length-carry_rest y r))
  ]

  pub carry-Permᴰ : (x : A) (r : List A) → Permᴰ (carry_last x r ∷ carry_rest x r) (x ∷ r)
  carry-Permᴰ x [] = Permᴰ.refl (x ∷ [])
  carry-Permᴰ x (y ∷ r) = elim (Bool-cases (greater x y)) [
    | inl e ↦ rw e (
        Permᴰ.trans (Permᴰ.swap refl refl)
          (Permᴰ.trans (Permᴰ.cons refl (carry-Permᴰ x r)) (Permᴰ.swap refl refl)))
    | inr e ↦ rw e (Permᴰ.trans (Permᴰ.swap refl refl) (Permᴰ.cons refl (carry-Permᴰ y r)))
  ]

swap_next :
    {A : Type 0} (pre : List A) (x y : A) (post : List A)
    → int_swap (pre ++ (x ∷ y ∷ post)) (length pre) (suc (length pre)) ≡ ok (pre ++ (y ∷ x ∷ post))
unfolding int_swap
swap_next pre x y post =
    let second : read (pre ++ (x ∷ y ∷ post)) (suc (length pre)) ≡ ok y =
      rw (append_assoc, length-snoc pre x) at (read-append (pre ++ (x ∷ [])) y post) in
    let last : write (pre ++ (y ∷ y ∷ post)) (suc (length pre)) x ≡ ok (pre ++ (y ∷ x ∷ post)) =
      rw (append_assoc, append_assoc, length-snoc pre y) at
        (write-append (pre ++ (y ∷ [])) y x post) in
    rw (read-append pre x (y ∷ post), second, write-append pre x y (y ∷ post), last)

-- The inner loop on the elements from `x` on.
pub bubble_from_lem :
    {A : Type 0} (comparator : A → A → ℤ) (r pre : List A) (x : A) (post : List A)
    → bubble_from comparator int_swap (length r) (length pre) (pre ++ (x ∷ (r ++ post)))
      ≡ ok (pre ++ (carry_rest comparator x r ++ (carry_last comparator x r ∷ post)))
unfolding bubble_from
bubble_from_lem comparator [] pre x post = refl
bubble_from_lem comparator (y ∷ r) pre x post =
    let first = read-append pre x (y ∷ (r ++ post)) in
    let second : read (pre ++ (x ∷ y ∷ (r ++ post))) (suc (length pre)) ≡ ok y =
      rw (append_assoc, length-snoc pre x) at (read-append (pre ++ (x ∷ [])) y (r ++ post)) in
    elim (Bool-cases (greater comparator x y)) [
      | inl e ↦
          let after =
            rw (append_assoc, append_assoc, length-snoc pre y) at
              (bubble_from_lem comparator r (pre ++ (y ∷ [])) x post) in
          rw (first, second, e, swap_next pre x y (r ++ post)) after
      | inr e ↦
          let after =
            rw (append_assoc, append_assoc, length-snoc pre x) at
              (bubble_from_lem comparator r (pre ++ (x ∷ [])) y post) in
          rw (first, second, e) after
    ]
