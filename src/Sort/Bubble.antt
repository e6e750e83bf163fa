-- ===== src/Sort/Bubble.antt =====
-- `bubblesort` sorts.
use grub_os_iso_image.Common.{
  ℕ, zero, suc, ◌≡◌, refl, ◌∙◌, inl, inr, true, false, List, [], ◌∷◌, ◌++◌, append_assoc,
  append-nil, arith, Bool-cases, length, ok, ℤ,
}
use mathlib.Core.List.{Permᴰ}
use mathlib.Core.List.Permᴰ
use grub_os_iso_image.Sort.{int_swap, bubblesort}
use grub_os_iso_image.Sort.Carry.{
  greater, carry_rest, carry_last, length-carry_rest, carry-Permᴰ, bubble_from_lem,
}

module _ {A : Type 0} (comparator : A → A → ℤ) where
  -- The comparator is that of a total order.
  pub record IsTotalOrder : Type 0 where
    pub self : (a : A) → greater comparator a a ≡ false
    pub total : (a b : A) → greater comparator a b ≡ true → greater comparator b a ≡ false
    pub transitive :
        (a b c : A)
        → greater comparator a b ≡ false
        → greater comparator b c ≡ false
        → greater comparator a c ≡ false

  -- No element is greater than `m`.
  abbrev pub AreAtMost : A → List A → Type 0
  AreAtMost m [] = Unit
  AreAtMost m (a ∷ xs) = (greater comparator a m ≡ false) × AreAtMost m xs

  -- No element is greater than a later one.
  abbrev pub AreNotLess : A → List A → Type 0
  AreNotLess a [] = Unit
  AreNotLess a (b ∷ xs) = (greater comparator a b ≡ false) × AreNotLess a xs

  abbrev pub IsSorted : List A → Type 0
  IsSorted [] = Unit
  IsSorted (a ∷ xs) = AreNotLess a xs × IsSorted xs

  -- What the outer loop makes of a list of `n` elements.
  abbrev sorted_list : ℕ → List A → List A
  sorted_list (suc (suc n)) (x ∷ r) =
      sorted_list (suc n) (carry_rest comparator x r) ++ (carry_last comparator x r ∷ [])
  sorted_list (suc (suc n)) [] = []
  sorted_list (suc zero) xs = xs
  sorted_list zero xs = xs

  bubblesort_front :
      (n : ℕ) (xs post : List A)
      → length xs ≡ n
      → bubblesort comparator int_swap n (xs ++ post) ≡ ok (sorted_list n xs ++ post)
  unfolding bubblesort
  bubblesort_front zero xs post h = refl
  bubblesort_front (suc zero) xs post h = refl
  bubblesort_front (suc (suc n)) [] post h = absurd (omega arith)
  bubblesort_front (suc (suc n)) (x ∷ r) post h =
      let l : length r ≡ suc n = omega arith in
      let pass = rw l at (bubble_from_lem comparator r [] x post) in
      let after =
        bubblesort_front (suc n) (carry_rest comparator x r) (carry_last comparator x r ∷ post)
          (length-carry_rest comparator x r ∙ l) in
      rw (pass, append_assoc) after

  sorted_list-Permᴰ : (n : ℕ) (xs : List A) → length xs ≡ n → Permᴰ (sorted_list n xs) xs
  sorted_list-Permᴰ zero xs h = Permᴰ.refl xs
  sorted_list-Permᴰ (suc zero) xs h = Permᴰ.refl xs
  sorted_list-Permᴰ (suc (suc n)) [] h = Permᴰ.refl []
  sorted_list-Permᴰ (suc (suc n)) (x ∷ r) h =
      let front =
        sorted_list-Permᴰ (suc n) (carry_rest comparator x r)
          (length-carry_rest comparator x r ∙ omega arith) in
      let m = carry_last comparator x r in
      Permᴰ.trans (Permᴰ.append_comm (sorted_list (suc n) (carry_rest comparator x r)) (m ∷ []))
        (Permᴰ.trans (Permᴰ.cons refl front) (carry-Permᴰ comparator x r))

  module _ (order : IsTotalOrder) where
    -- The carried element is the greatest.
    carry-AreAtMost :
        (x : A) (r : List A)
        → (greater comparator x (carry_last comparator x r) ≡ false)
          × AreAtMost (carry_last comparator x r) (carry_rest comparator x r)
    carry-AreAtMost x [] = (order.self x, tt)
    carry-AreAtMost x (y ∷ r) = elim (Bool-cases (greater comparator x y)) [
      | inl e ↦
          let (here, rest) = carry-AreAtMost x r in
          rw e (
            here,
            (order.transitive y x (carry_last comparator x r) (order.total x y e) here, rest),
          )
      | inr e ↦
          let (here, rest) = carry-AreAtMost y r in
          let there = order.transitive x y (carry_last comparator y r) e here in
          rw e (there, (there, rest))
    ]

    AreAtMost-carry :
        (m x : A) (r : List A)
        → AreAtMost m (x ∷ r)
        → (greater comparator (carry_last comparator x r) m ≡ false)
          × AreAtMost m (carry_rest comparator x r)
    AreAtMost-carry m x [] h = h
    AreAtMost-carry m x (y ∷ r) h = elim (Bool-cases (greater comparator x y)) [
      | inl e ↦ let (last, rest) = AreAtMost-carry m x r (h.0, h.1.1) in rw e (last, (h.1.0, rest))
      | inr e ↦ let (last, rest) = AreAtMost-carry m y r (h.1.0, h.1.1) in rw e (last, (h.0, rest))
    ]

    AreAtMost-append :
        (m a : A) (xs : List A)
        → AreAtMost m xs
        → greater comparator a m ≡ false
        → AreAtMost m (xs ++ (a ∷ []))
    AreAtMost-append m a [] h e = (e, tt)
    AreAtMost-append m a (x ∷ xs) h e = (h.0, AreAtMost-append m a xs h.1 e)

    AreAtMost-sorted_list :
        (m : A) (n : ℕ) (xs : List A) → AreAtMost m xs → AreAtMost m (sorted_list n xs)
    AreAtMost-sorted_list m zero xs h = h
    AreAtMost-sorted_list m (suc zero) xs h = h
    AreAtMost-sorted_list m (suc (suc n)) [] h = h
    AreAtMost-sorted_list m (suc (suc n)) (x ∷ r) h =
        let (last, rest) = AreAtMost-carry m x r h in
        AreAtMost-append m (carry_last comparator x r)
          (sorted_list (suc n) (carry_rest comparator x r))
          (AreAtMost-sorted_list m (suc n) (carry_rest comparator x r) rest) last

    AreNotLess-append :
        (a m : A) (xs : List A)
        → AreNotLess a xs
        → greater comparator a m ≡ false
        → AreNotLess a (xs ++ (m ∷ []))
    AreNotLess-append a m [] h e = (e, tt)
    AreNotLess-append a m (x ∷ xs) h e = (h.0, AreNotLess-append a m xs h.1 e)

    IsSorted-append :
        (m : A) (xs : List A) → IsSorted xs → AreAtMost m xs → IsSorted (xs ++ (m ∷ []))
    IsSorted-append m [] s h = (tt, tt)
    IsSorted-append m (x ∷ xs) s h =
        (AreNotLess-append x m xs s.0 h.0, IsSorted-append m xs s.1 h.1)

    sorted_list-IsSorted : (n : ℕ) (xs : List A) → length xs ≡ n → IsSorted (sorted_list n xs)
    sorted_list-IsSorted zero [] h = tt
    sorted_list-IsSorted zero (x ∷ xs) h = absurd (omega arith)
    sorted_list-IsSorted (suc zero) [] h = tt
    sorted_list-IsSorted (suc zero) (x ∷ []) h = (tt, tt)
    sorted_list-IsSorted (suc zero) (x ∷ y ∷ xs) h = absurd (omega arith)
    sorted_list-IsSorted (suc (suc n)) [] h = tt
    sorted_list-IsSorted (suc (suc n)) (x ∷ r) h =
        IsSorted-append (carry_last comparator x r)
          (sorted_list (suc n) (carry_rest comparator x r))
          (sorted_list-IsSorted (suc n) (carry_rest comparator x r)
            (length-carry_rest comparator x r ∙ omega arith))
          (AreAtMost-sorted_list (carry_last comparator x r) (suc n) (carry_rest comparator x r)
            (carry-AreAtMost x r).1)

  -- For a comparator of a total order and `int_swap`, `bubblesort` on all elements of an array
  -- returns. The array afterwards is sorted and a permutation of the array before.
  pub bubblesort_lem :
      IsTotalOrder
      → (array : List A)
      → (after : List A) × (bubblesort comparator int_swap (length array) array ≡ ok after)
        × IsSorted after
        × Permᴰ after array
  bubblesort_lem order array = (
    sorted_list (length array) array,
    rw (append-nil, append-nil) at (bubblesort_front (length array) array [] refl),
    sorted_list-IsSorted order (length array) array refl,
    sorted_list-Permᴰ (length array) array refl,
  )
