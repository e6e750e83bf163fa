-- ===== src/Sort/Partition.antt =====
-- The loop of `quicksort_internal`, on the elements smaller than the pivot, those that are not, and
-- those still to come.
use grub_os_iso_image.Common.{
  ℕ, suc, ◌+◌, ◌<◌, ◌≡◌, refl, sym, ap, ◌∙◌, inl, inr, Bool, true, false, List, [], ◌∷◌, ◌++◌,
  append_assoc, append-nil, arith, if◌then◌else◌, Bool-cases, length, length-append, ok, ℤ,
  length-snoc,
}
use mathlib.Core.List.{Permᴰ}
use mathlib.Core.List.Permᴰ
use grub_os_iso_image.Sort.{is_negative, int_swap, partition_from}
use grub_os_iso_image.Sort.Exchange.{read_at, swap_near-far, swap_same}

module _ {A : Type 0} (comparator : A → A → ℤ) where
  abbrev pub less : A → A → Bool
  less a b = is_negative (comparator a b)

  -- The first of the larger elements goes to their end.
  abbrev pub rotated : List A → List A
  rotated [] = []
  rotated (x ∷ xs) = xs ++ (x ∷ [])

  pub partitioned : A → List A → List A → List A → List A × List A
  partitioned p smaller larger [] = (smaller, larger)
  partitioned p smaller larger (a ∷ rest) =
      let here = partitioned p (smaller ++ (a ∷ [])) (rotated larger) rest in
      let there = partitioned p smaller (larger ++ (a ∷ [])) rest in
      if less a p then here else there

  length-rotated : (xs : List A) → length (rotated xs) ≡ length xs
  length-rotated [] = refl
  length-rotated (x ∷ xs) = length-snoc xs x

  abbrev pub AllOf : (A → Type 0) → List A → Type 0
  AllOf P [] = Unit
  AllOf P (a ∷ xs) = P a × AllOf P xs

  AllOf-snoc : (P : A → Type 0) (xs : List A) (a : A) → AllOf P xs → P a → AllOf P (xs ++ (a ∷ []))
  AllOf-snoc P [] a h e = (e, tt)
  AllOf-snoc P (x ∷ xs) a h e = (h.0, AllOf-snoc P xs a h.1 e)

  AllOf-rotated : (P : A → Type 0) (xs : List A) → AllOf P xs → AllOf P (rotated xs)
  AllOf-rotated P [] h = tt
  AllOf-rotated P (x ∷ xs) h = AllOf-snoc P xs x h.1 h.0

  abbrev pub laid : List A → A → List A → List A → List A → List A
  laid pre p smaller larger rest = pre ++ (p ∷ (smaller ++ (larger ++ rest)))

  -- The element `a` is exchanged with the first of the larger ones.
  exchange :
      (pre : List A) (p : A) (smaller larger : List A) (a : A) (rest : List A) (i j : ℕ)
      → j ≡ length pre + suc (length smaller)
      → i ≡ j + length larger
      → int_swap (laid pre p smaller larger (a ∷ rest)) i j
        ≡ ok (laid pre p (smaller ++ (a ∷ [])) (rotated larger) rest)
  exchange pre p smaller [] a rest i j ej ei =
      let front = pre ++ (p ∷ smaller) in
      let same : i ≡ j = omega (arith, ei) in
      let place : j ≡ length front = ej ∙ sym (length-append pre (p ∷ smaller)) in
      rw (same, sym (append_assoc pre (p ∷ smaller) (a ∷ rest)))
        (swap_same front a rest j place ∙ ap ok (joined pre p smaller a rest))
    where
      joined :
          (pre : List A) (p : A) (smaller : List A) (a : A) (rest : List A)
          → (pre ++ (p ∷ smaller)) ++ (a ∷ rest) ≡ pre ++ (p ∷ ((smaller ++ (a ∷ [])) ++ rest))
      joined pre p smaller a rest = rw (append_assoc, append_assoc) refl
  exchange pre p smaller (l ∷ larger) a rest i j ej ei =
      let front = pre ++ (p ∷ smaller) in
      let near : j ≡ length front = ej ∙ sym (length-append pre (p ∷ smaller)) in
      let far : i ≡ length front + suc (length larger) = omega (arith, ei, near) in
      rw (sym (append_assoc pre (p ∷ smaller) (l ∷ (larger ++ (a ∷ rest))))) (
        (swap_near-far front larger l a rest j i near far).1
        ∙ ap ok (joined pre p smaller larger a l rest))
    where
      joined :
          (pre : List A) (p : A) (smaller larger : List A) (a l : A) (rest : List A)
          → (pre ++ (p ∷ smaller)) ++ (a ∷ (larger ++ (l ∷ rest)))
            ≡ pre ++ (p ∷ ((smaller ++ (a ∷ [])) ++ ((larger ++ (l ∷ [])) ++ rest)))
      joined pre p smaller larger a l rest = rw (append_assoc, append_assoc, append_assoc) refl

  pub partition_from_lem :
      (pre : List A) (p : A) (smaller larger rest post : List A) (i j : ℕ)
      → j ≡ length pre + suc (length smaller)
      → i ≡ j + length larger
      → let (s, l) = partitioned p smaller larger rest in
        partition_from comparator int_swap
          (length pre)
          (length rest)
          i
          j
          (laid pre p smaller larger (rest ++ post))
        ≡ ok (length pre + suc (length s), laid pre p s l post)
  unfolding partition_from partitioned
  partition_from_lem pre p smaller larger [] post i j ej ei = rw ej refl
  partition_from_lem pre p smaller larger (a ∷ rest) post i j ej ei =
      let array = laid pre p smaller larger (a ∷ (rest ++ post)) in
      let front = pre ++ (p ∷ (smaller ++ larger)) in
      let place : i ≡ length front = omega (
        arith,
        ei,
        ej,
        length-append pre (p ∷ (smaller ++ larger)),
        length-append smaller larger,
      ) in
      let split : array ≡ front ++ (a ∷ (rest ++ post)) = rw (append_assoc, append_assoc) refl in
      let value = read_at array front a (rest ++ post) i split place in
      let pivot =
        read_at array pre p (smaller ++ (larger ++ (a ∷ (rest ++ post)))) (length pre) refl refl in
      elim (Bool-cases (less a p)) [
        | inl e ↦
            let next =
              partition_from_lem pre p (smaller ++ (a ∷ [])) (rotated larger) rest post (suc i)
                (suc j) (omega (arith, ej, length-snoc smaller a))
                (omega (arith, ei, length-rotated larger)) in
            rw (value, pivot, e, exchange pre p smaller larger a (rest ++ post) i j ej ei) next
        | inr e ↦
            let next =
              partition_from_lem pre p smaller (larger ++ (a ∷ [])) rest post (suc i) j ej
                (omega (arith, ei, length-snoc larger a)) in
            rw (value, pivot, e)
              ((ap (partition_from comparator int_swap (length pre) (length rest) (suc i) j) (
                  ap (λ (t : List A). pre ++ (p ∷ (smaller ++ t)))
                    (sym (append_assoc larger (a ∷ []) (rest ++ post)))))
                ∙ next)
      ]

  rotated-Permᴰ : (xs : List A) → Permᴰ (rotated xs) xs
  rotated-Permᴰ [] = Permᴰ.nil
  rotated-Permᴰ (x ∷ xs) = Permᴰ.append_comm xs (x ∷ [])

  -- Nothing is lost.
  pub partitioned-Permᴰ :
      (p : A) (smaller larger rest : List A)
      → let (s, l) = partitioned p smaller larger rest in
        Permᴰ (s ++ l) (smaller ++ (larger ++ rest))
  unfolding partitioned
  partitioned-Permᴰ p smaller larger [] = rw append-nil (Permᴰ.refl (smaller ++ larger))
  partitioned-Permᴰ p smaller larger (a ∷ rest) = elim (Bool-cases (less a p)) [
    | inl e ↦ rw e (
        Permᴰ.trans (partitioned-Permᴰ p (smaller ++ (a ∷ [])) (rotated larger) rest) (
          rw (append_assoc smaller (a ∷ []) (rotated larger ++ rest)) (
            Permᴰ.append_left smaller (
              Permᴰ.trans (Permᴰ.cons refl (Permᴰ.append_right rest (rotated-Permᴰ larger)))
                (Permᴰ.symm (Permᴰ.middle a larger rest))))))
    | inr e ↦ rw e (
        rw (append_assoc larger (a ∷ []) rest) at
          (partitioned-Permᴰ p smaller (larger ++ (a ∷ [])) rest))
  ]

  -- Of the larger elements none is lost, and those behind the last one that is not less than the
  -- pivot come to them.
  pub partitioned-larger :
      (p : A) (smaller larger rest : List A) (z : A)
      → less z p ≡ false
      → 0 < length (partitioned p smaller larger (rest ++ (z ∷ []))).1
  unfolding partitioned
  partitioned-larger p smaller larger [] z h = rw h (omega (arith, length-snoc larger z))
  partitioned-larger p smaller larger (a ∷ rest) z h =
      let one = partitioned-larger p (smaller ++ (a ∷ [])) (rotated larger) rest z h in
      let other = partitioned-larger p smaller (larger ++ (a ∷ [])) rest z h in
      elim (Bool-cases (less a p)) [ inl e ↦ rw e one | inr e ↦ rw e other ]

  pub length-partitioned :
      (p : A) (smaller larger rest : List A)
      → let (s, l) = partitioned p smaller larger rest in
        length s + length l ≡ length smaller + length larger + length rest
  unfolding partitioned
  length-partitioned p smaller larger [] = omega arith
  length-partitioned p smaller larger (a ∷ rest) =
      let one = length-partitioned p (smaller ++ (a ∷ [])) (rotated larger) rest in
      let other = length-partitioned p smaller (larger ++ (a ∷ [])) rest in
      elim (Bool-cases (less a p)) [
        | inl e ↦ rw e (omega (arith, one, length-snoc smaller a, length-rotated larger))
        | inr e ↦ rw e (omega (arith, other, length-snoc larger a))
      ]

  -- The elements of each part are on their side of the pivot.
  module _ (S L : A → Type 0) (p : A) (to_smaller : (a : A) → less a p ≡ true → S a)
      (to_larger : (a : A) → less a p ≡ false → L a) where
    pub partitioned-AllOf :
        (smaller larger rest : List A)
        → AllOf S smaller
        → AllOf L larger
        → let (s, l) = partitioned p smaller larger rest in AllOf S s × AllOf L l
    unfolding partitioned
    partitioned-AllOf smaller larger [] hs hl = (hs, hl)
    partitioned-AllOf smaller larger (a ∷ rest) hs hl = elim (Bool-cases (less a p)) [
      | inl e ↦ rw e (
          partitioned-AllOf (smaller ++ (a ∷ [])) (rotated larger) rest
            (AllOf-snoc S smaller a hs (to_smaller a e)) (AllOf-rotated L larger hl))
      | inr e ↦ rw e (
          partitioned-AllOf smaller (larger ++ (a ∷ [])) rest hs
            (AllOf-snoc L larger a hl (to_larger a e)))
    ]
