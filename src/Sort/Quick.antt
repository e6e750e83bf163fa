-- ===== src/Sort/Quick.antt =====
-- `quicksort` sorts.
use grub_os_iso_image.Common.{
  ℕ, zero, suc, ◌+◌, ◌-◌, ◌*◌, ◌≤◌, ◌<◌, ◌≡◌, refl, sym, ap, ◌∙◌, ◌⊎◌, inl, inr, true, false, List,
  [], ◌∷◌, ◌++◌, append_assoc, append-nil, arith, ltb, length, length-append, ok, ℤ, length-snoc,
}
use mathlib.Core.List.{Permᴰ}
use mathlib.Core.List.Permᴰ
use grub_os_iso_image.Sort.{int_swap, partition_from, quicksort_internal, quicksort}
use grub_os_iso_image.Sort.Carry.{greater}
use grub_os_iso_image.Sort.Bubble.{IsTotalOrder, AreNotLess, IsSorted}
use grub_os_iso_image.Sort.Exchange.{swap_near-far, swap_same}
use grub_os_iso_image.Sort.Partition.{
  less, AllOf, partitioned, partition_from_lem, partitioned-Permᴰ, partitioned-larger,
  length-partitioned, partitioned-AllOf,
}

module _ {A : Type 0} (comparator : A → A → ℤ) where
  -- The left range after the pivot has been exchanged with the last of the smaller elements.
  data Turned (p : A) : List A → List A → Type 0 where
    alone : Turned p [] (p ∷ [])
    turned : (m : List A) (y : A) → Turned p (m ++ (y ∷ [])) (y ∷ (m ++ (p ∷ [])))

  turn : (p : A) (smaller : List A) → (left : List A) × Turned p smaller left
  turn p [] = (p ∷ [], alone)
  turn p (x ∷ xs) = go x (turn p xs).1
    where
      go :
          (x : A) {xs left : List A} → Turned p xs left → (left' : List A) × Turned p (x ∷ xs) left'
      go x alone = (x ∷ p ∷ [], turned [] x)
      go x (turned m y) = (y ∷ ((x ∷ m) ++ (p ∷ [])), turned (x ∷ m) y)

  length-Turned :
      {p : A} {smaller left : List A} → Turned p smaller left → length left ≡ suc (length smaller)
  length-Turned alone = refl
  length-Turned {p} (turned m y) = omega (arith, length-snoc m p, length-snoc m y)

  Turned-Permᴰ : {p : A} {smaller left : List A} → Turned p smaller left → Permᴰ left (p ∷ smaller)
  Turned-Permᴰ {p} alone = Permᴰ.refl (p ∷ [])
  Turned-Permᴰ {p} (turned m y) =
      Permᴰ.trans (Permᴰ.cons refl (Permᴰ.append_comm m (p ∷ [])))
        (Permᴰ.trans (Permᴰ.swap refl refl) (Permᴰ.cons refl (Permᴰ.append_comm (y ∷ []) m)))

  swap-Turned :
      (pre rest : List A) {p : A} {smaller left : List A}
      → Turned p smaller left
      → int_swap (pre ++ (p ∷ (smaller ++ rest))) (length pre) (length pre + length smaller)
        ≡ ok (pre ++ (left ++ rest))
  swap-Turned pre rest {p} alone =
      let same : length pre + 0 ≡ length pre = omega arith in
      rw same (swap_same pre p rest (length pre) refl)
  swap-Turned pre rest {p} (turned m y) =
      let place : length pre + length (m ++ (y ∷ [])) ≡ length pre + suc (length m) =
        omega (arith, length-snoc m y) in
      rw (append_assoc m (y ∷ []) rest, append_assoc m (p ∷ []) rest)
        (swap_near-far pre m p y rest (length pre) (length pre + length (m ++ (y ∷ []))) refl
          place).0

  abbrev IsLastGreatest : List A → Type 0
  IsLastGreatest mid =
      (m : List A) × (z : A) × (mid ≡ m ++ (z ∷ []))
      × AllOf comparator (λ a. greater comparator a z ≡ false) m

  -- Enough rounds for a range: if its last element is a greatest one, one less is enough.
  abbrev Enough : ℕ → List A → Type 0
  Enough fuel mid = (2 * length mid + 1 ≤ fuel) ⊎ ((2 * length mid ≤ fuel) × IsLastGreatest mid)

  -- A comparator that answers with the opposite sign when its arguments are exchanged.
  abbrev pub IsOpposite : Type 0
  IsOpposite = (a b : A) → less comparator a b ≡ greater comparator b a

  AllOf-Permᴰ :
      (P : A → Type 0) {xs ys : List A}
      → Permᴰ xs ys
      → AllOf comparator P xs
      → AllOf comparator P ys
  AllOf-Permᴰ P Permᴰ.nil h = tt
  AllOf-Permᴰ P (Permᴰ.cons e d) h = (rw (sym e) h.0, AllOf-Permᴰ P d h.1)
  AllOf-Permᴰ P (Permᴰ.swap e f) h = (rw (sym f) h.1.0, (rw (sym e) h.0, h.1.1))
  AllOf-Permᴰ P (Permᴰ.trans d d') h = AllOf-Permᴰ P d' (AllOf-Permᴰ P d h)

  IsSorted-append :
      (xs ys : List A)
      → IsSorted comparator xs
      → IsSorted comparator ys
      → AllOf comparator (λ x. AreNotLess comparator x ys) xs
      → IsSorted comparator (xs ++ ys)
  IsSorted-append [] ys sx sy h = sy
  IsSorted-append (x ∷ xs) ys sx sy h =
      (AreNotLess-append x xs ys sx.0 h.0, IsSorted-append xs ys sx.1 sy h.1)
    where
      AreNotLess-append :
          (x : A) (xs ys : List A)
          → AreNotLess comparator x xs
          → AreNotLess comparator x ys
          → AreNotLess comparator x (xs ++ ys)
      AreNotLess-append x [] ys h g = g
      AreNotLess-append x (b ∷ xs) ys h g = (h.0, AreNotLess-append x xs ys h.1 g)

  AreNotLess-AllOf :
      (x : A) (ys : List A)
      → AllOf comparator (λ b. greater comparator x b ≡ false) ys
      → AreNotLess comparator x ys
  AreNotLess-AllOf x [] h = tt
  AreNotLess-AllOf x (b ∷ ys) h = (h.0, AreNotLess-AllOf x ys h.1)

  AllOf-map :
      (P Q : A → Type 0)
      → ((a : A) → P a → Q a)
      → (xs : List A) → AllOf comparator P xs
      → AllOf comparator Q xs
  AllOf-map P Q f [] h = tt
  AllOf-map P Q f (x ∷ xs) h = (f x h.0, AllOf-map P Q f xs h.1)

  length-Permᴰ : {xs ys : List A} → Permᴰ xs ys → length xs ≡ length ys
  length-Permᴰ Permᴰ.nil = refl
  length-Permᴰ (Permᴰ.cons e d) = ap suc (length-Permᴰ d)
  length-Permᴰ (Permᴰ.swap e f) = refl
  length-Permᴰ (Permᴰ.trans d d') = length-Permᴰ d ∙ length-Permᴰ d'

  -- What sorting a range between `pre` and `post` gives.
  abbrev Sorts : ℕ → List A → List A → List A → Type 0
  Sorts fuel pre mid post =
      (out : List A) × (quicksort_internal comparator int_swap fuel (length pre)
          (length pre + length mid) (pre ++ (mid ++ post))
        ≡ ok (pre ++ (out ++ post)))
      × IsSorted comparator out
      × Permᴰ out mid

  module _ (order : IsTotalOrder comparator) (opposite : IsOpposite) where
    Turned-IsLastGreatest :
        {p : A} {smaller left : List A}
        → Turned p smaller left
        → AllOf comparator (λ a. greater comparator a p ≡ false) smaller
        → IsLastGreatest left
    Turned-IsLastGreatest {p} alone h = ([], p, refl, tt)
    Turned-IsLastGreatest {p} (turned m y) h = (y ∷ m, p, refl, last m y h)
      where
        last :
            (m : List A) (y : A)
            → AllOf comparator (λ a. greater comparator a p ≡ false) (m ++ (y ∷ []))
            → AllOf comparator (λ a. greater comparator a p ≡ false) (y ∷ m)
        last [] y h = h
        last (x ∷ m) y h = let rest = last m y h.1 in (rest.0, (h.0, rest.1))

    -- The parts of a range, and that enough rounds are left for both.
    record Parts (fuel : ℕ) (p : A) (rest : List A) : Type 0 where
      smaller : List A
      larger : List A
      left : List A
      split : partitioned comparator p [] [] rest ≡ (smaller, larger)
      turn_left : Turned p smaller left
      not_greater : AllOf comparator (λ a. greater comparator a p ≡ false) smaller
      not_less : AllOf comparator (λ a. greater comparator p a ≡ false) larger
      kept : Permᴰ (smaller ++ larger) rest
      count : length smaller + length larger ≡ length rest
      enough_left : Enough fuel left
      enough_right : Enough fuel larger

    -- A last element that is a greatest one is among the larger ones.
    some_larger :
        (p q : A) (rest : List A)
        → IsLastGreatest (p ∷ q ∷ rest)
        → 0 < length (partitioned comparator p [] [] (q ∷ rest)).1
    some_larger p q rest ([], z, e, h) = absurd (omega (arith, ap length e))
    some_larger p q rest (a ∷ m, z, e, h) =
        let head : p ≡ a = cc in
        let tail : (q ∷ rest) ≡ m ++ (z ∷ []) = cc in
        let here : less comparator z p ≡ false = opposite z p ∙ rw head h.0 in
        rw tail (partitioned-larger comparator p [] [] m z here)

    parts :
        (fuel : ℕ) (p q : A) (rest : List A)
        → Enough (suc fuel) (p ∷ q ∷ rest)
        → Parts fuel p (q ∷ rest)
    parts fuel p q rest enough =
        let (s, l) = partitioned comparator p [] [] (q ∷ rest) in
        let count : length s + length l ≡ length (q ∷ rest) =
          omega (arith, length-partitioned comparator p [] [] (q ∷ rest)) in
        let (left, t) = turn p s in
        let (hs, hl) =
          partitioned-AllOf comparator (λ a. greater comparator a p ≡ false)
            (λ a. greater comparator p a ≡ false) p
            (λ a e. order.total p a (sym (opposite a p) ∙ e)) (λ a e. sym (opposite a p) ∙ e) [] []
            (q ∷ rest) tt tt in
        let shorter = length-Turned t in
        record {
          smaller = s;
          larger = l;
          left = left;
          split = refl;
          turn_left = t;
          not_greater = hs;
          not_less = hl;
          kept = partitioned-Permᴰ comparator p [] [] (q ∷ rest);
          count = count;
          enough_left = inr (
            elim enough [
              | inl many ↦ omega (arith, many, shorter, count)
              | inr few ↦ omega (arith, few.0, shorter, count, some_larger p q rest few.1)
            ],
            Turned-IsLastGreatest t hs,
          );
          enough_right = inl (elim enough [
            | inl many ↦ omega (arith, many, count)
            | inr few ↦ omega (arith, few.0, count)
          ]);
        }

    -- What the two recursive calls leave is sorted as a whole.
    outputs-IsSorted :
        (p : A) (smaller larger left outl outr : List A)
        → Turned p smaller left
        → AllOf comparator (λ a. greater comparator a p ≡ false) smaller
        → AllOf comparator (λ a. greater comparator p a ≡ false) larger
        → IsSorted comparator outl
        → IsSorted comparator outr
        → Permᴰ outl left
        → Permᴰ outr larger
        → IsSorted comparator (outl ++ outr)
    outputs-IsSorted p smaller larger left outl outr t hs hl sl sr pl pr =
        let at_most : AllOf comparator (λ a. greater comparator a p ≡ false) outl =
          AllOf-Permᴰ (λ a. greater comparator a p ≡ false)
            (Permᴰ.trans (Permᴰ.symm (Turned-Permᴰ t)) (Permᴰ.symm pl)) (order.self p, hs) in
        let at_least : AllOf comparator (λ a. greater comparator p a ≡ false) outr =
          AllOf-Permᴰ (λ a. greater comparator p a ≡ false) (Permᴰ.symm pr) hl in
        IsSorted-append outl outr sl sr (
          AllOf-map (λ a. greater comparator a p ≡ false) (λ x. AreNotLess comparator x outr)
            (λ x h. AreNotLess-AllOf x outr (
              AllOf-map (λ a. greater comparator p a ≡ false) (λ b. greater comparator x b ≡ false)
                (λ b g. order.transitive x p b h g) outr at_least))
            outl at_most)

    outputs_kept :
        (p : A) (smaller larger left rest outl outr : List A)
        → Turned p smaller left
        → Permᴰ (smaller ++ larger) rest
        → Permᴰ outl left
        → Permᴰ outr larger
        → Permᴰ (outl ++ outr) (p ∷ rest)
    outputs_kept p smaller larger left rest outl outr t kept pl pr =
        Permᴰ.trans (Permᴰ.append_right outr (Permᴰ.trans pl (Turned-Permᴰ t)))
          (Permᴰ.cons refl (Permᴰ.trans (Permᴰ.append_left smaller pr) kept))

    -- The exchange that ends a round, and where the two recursive calls start and end.
    round_lem :
        (fuel : ℕ) (pre post : List A) (p q : A) (rest smaller larger left outl outr : List A)
        → partitioned comparator p [] [] (q ∷ rest) ≡ (smaller, larger)
        → Turned p smaller left
        → length smaller + length larger ≡ length (q ∷ rest)
        → Permᴰ outl left
        → (quicksort_internal comparator int_swap fuel
              (length pre)
              (length pre + length left)
              (pre ++ (left ++ (larger ++ post)))
            ≡ ok (pre ++ (outl ++ (larger ++ post))))
        → (quicksort_internal comparator int_swap fuel
              (length (pre ++ outl))
              (length (pre ++ outl) + length larger)
              ((pre ++ outl) ++ (larger ++ post))
            ≡ ok ((pre ++ outl) ++ (outr ++ post)))
        → quicksort_internal comparator int_swap
            (suc fuel)
            (length pre)
            (length pre + length (p ∷ q ∷ rest))
            (pre ++ ((p ∷ q ∷ rest) ++ post))
          ≡ ok (pre ++ ((outl ++ outr) ++ post))
    unfolding quicksort_internal
    round_lem fuel pre post p q rest smaller larger left outl outr split t count pl runl runr =
        let go : ltb (suc (length pre)) (length pre + length (p ∷ q ∷ rest)) ≡ true =
          ground arith in
        let rounds : length pre + length (p ∷ q ∷ rest) - suc (length pre) ≡ length (q ∷ rest) =
          omega arith in
        let first : suc (length pre) ≡ length pre + 1 = omega arith in
        let part : partition_from comparator int_swap (length pre) (length (q ∷ rest))
              (suc (length pre)) (suc (length pre)) (pre ++ ((p ∷ q ∷ rest) ++ post))
            ≡ ok (length pre + suc (length smaller), pre ++ (p ∷ (smaller ++ (larger ++ post)))) =
          partition_from_lem comparator pre p [] [] (q ∷ rest) post (suc (length pre))
            (suc (length pre)) first (omega arith)
          ∙ ap
              (λ (s : List A × List A).
                ok (length pre + suc (length s.0), pre ++ (p ∷ (s.0 ++ (s.1 ++ post)))))
              split in
        let pivot : length pre + suc (length smaller) - 1 ≡ length pre + length smaller =
          omega arith in
        let exchanged = swap-Turned pre (larger ++ post) t in
        let middle : length pre + suc (length smaller) ≡ length pre + length left =
          omega (arith, length-Turned t) in
        let here : length pre + length left ≡ length (pre ++ outl) =
          omega (arith, length-append pre outl, length-Permᴰ pl) in
        let behind : length pre + length (p ∷ q ∷ rest) ≡ length (pre ++ outl) + length larger =
          omega (arith, length-append pre outl, length-Permᴰ pl, length-Turned t, count) in
        let next : quicksort_internal comparator int_swap fuel (length (pre ++ outl))
              (length (pre ++ outl) + length larger) (pre ++ (outl ++ (larger ++ post)))
            ≡ ok (pre ++ (outl ++ (outr ++ post))) =
          ap
            (quicksort_internal comparator int_swap fuel (length (pre ++ outl))
              (length (pre ++ outl) + length larger))
            (sym (append_assoc pre outl (larger ++ post)))
          ∙ runr
          ∙ ap ok (append_assoc pre outl (outr ++ post)) in
        rw
          (
            go,
            rounds,
            part,
            pivot,
            exchanged,
            middle,
            runl,
            here,
            behind,
            append_assoc outl outr post,
          )
          next

    sort_range : (fuel : ℕ) (pre mid post : List A) → Enough fuel mid → Sorts fuel pre mid post
    unfolding quicksort_internal
    sort_range zero pre mid post (inl many) = absurd (omega arith)
    sort_range zero pre mid post (inr (few, (m, z, e, h))) =
        absurd (omega (arith, few, ap length e, length-snoc m z))
    sort_range (suc fuel) pre [] post enough =
        let stop : ltb (suc (length pre)) (length pre + 0) ≡ false = ground arith in
        ([], rw stop refl, tt, Permᴰ.nil)
    sort_range (suc fuel) pre (x ∷ []) post enough =
        let stop : ltb (suc (length pre)) (length pre + 1) ≡ false = ground arith in
        (x ∷ [], rw stop refl, (tt, tt), Permᴰ.refl (x ∷ []))
    sort_range (suc fuel) pre (p ∷ q ∷ rest) post enough =
        let c = parts fuel p q rest enough in
        let (outl, runl, sl, pl) = sort_range fuel pre c.left (c.larger ++ post) c.enough_left in
        let (outr, runr, sr, pr) = sort_range fuel (pre ++ outl) c.larger post c.enough_right in
        (
          outl ++ outr,
          round_lem fuel pre post p q rest c.smaller c.larger c.left outl outr c.split c.turn_left
              c.count pl runl runr,
          outputs-IsSorted p c.smaller c.larger c.left outl outr c.turn_left c.not_greater
              c.not_less sl sr pl pr,
          outputs_kept p c.smaller c.larger c.left (q ∷ rest) outl outr c.turn_left c.kept pl pr,
        )

    -- For a comparator of a total order that answers with the opposite sign when its arguments are
    -- exchanged, and `int_swap`, `quicksort` on all elements of an array returns within the rounds of
    -- its model. The array afterwards is sorted and a permutation of the array before.
    pub quicksort_lem :
        (array : List A)
        → (out : List A) × (quicksort comparator int_swap (length array) array ≡ ok out)
          × IsSorted comparator out
          × Permᴰ out array
    unfolding quicksort
    quicksort_lem array =
        let enough : 2 * length array + 1 ≤ 2 * length array + 1 = omega arith in
        let (out, run, s, k) = sort_range (2 * length array + 1) [] array [] (inl enough) in
        let start : 0 + length array ≡ length array = omega arith in
        (out, rw (start, append-nil array, append-nil out) at run, s, k)
