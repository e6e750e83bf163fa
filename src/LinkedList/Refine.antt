-- ===== src/LinkedList/Refine.antt =====
-- A ring as the list of its items, each an address and a value, and the operations on it.
use grub_os_iso_image.Common.{
  ℕ, zero, suc, ◌+◌, ◌≤◌, ◌<◌, ◌≡◌, refl, sym, ap, ◌∙◌, ◌≢◌, false, none, List, [], ◌∷◌, ◌++◌,
  arith, ◌==◌, length as list_length, get_or, ok, pos, length-snoc,
}
use mathlib.Core.Path.{fun_ext}
use grub_os_iso_image.LinkedList.{Item, Heap, add_to_list, delete_list, length, iterate_over_list}
use grub_os_iso_image.LinkedList.Ring.{IsRing, calls, length_lem, iterate_over_list_lem}
use grub_os_iso_image.LinkedList.Places.{with_last, IsFresh}
use grub_os_iso_image.LinkedList.Add.{add_to_list_lem}
use grub_os_iso_image.LinkedList.Delete.{delete_list_lem}

abbrev pub Items : Type 0
Items = List (ℕ × ℕ)

abbrev pub address_of : Items → ℕ → ℕ
address_of xs i = (get_or xs i (0, 0)).0

abbrev pub value_of : Items → ℕ → ℕ
value_of xs i = (get_or xs i (0, 0)).1

abbrev pub Holds : Heap → ℕ → Items → Type 0
Holds h head xs = IsRing h head (list_length xs) (address_of xs) (value_of xs)

-- `a` is no item of the list.
abbrev pub IsOutside : ℕ → Items → Type 0
IsOutside a xs = (i : ℕ) → i < list_length xs → a ≢ address_of xs i

address_of-snoc :
    (xs : Items) (p v i : ℕ)
    → with_last (address_of xs) (list_length xs) p i ≡ address_of (xs ++ ((p, v) ∷ [])) i
address_of-snoc [] p v zero = refl
address_of-snoc [] p v (suc i) = let later : (suc i == 0) ≡ false = ground arith in rw later refl
address_of-snoc ((q, w) ∷ xs) p v zero =
    let first : (0 == suc (list_length xs)) ≡ false = ground arith in rw first refl
address_of-snoc ((q, w) ∷ xs) p v (suc i) =
    let same : (suc i == suc (list_length xs)) ≡ (i == list_length xs) = ground arith in
    rw same (address_of-snoc xs p v i)

value_of-snoc :
    (xs : Items) (p v i : ℕ)
    → with_last (value_of xs) (list_length xs) v i ≡ value_of (xs ++ ((p, v) ∷ [])) i
value_of-snoc [] p v zero = refl
value_of-snoc [] p v (suc i) = let later : (suc i == 0) ≡ false = ground arith in rw later refl
value_of-snoc ((q, w) ∷ xs) p v zero =
    let first : (0 == suc (list_length xs)) ≡ false = ground arith in rw first refl
value_of-snoc ((q, w) ∷ xs) p v (suc i) =
    let same : (suc i == suc (list_length xs)) ≡ (i == list_length xs) = ground arith in
    rw same (value_of-snoc xs p v i)

ring_of_list :
    (h : Heap) (head : ℕ) (xs : Items) (p v : ℕ)
    → IsRing h head
        (suc (list_length xs))
        (with_last (address_of xs) (list_length xs) p)
        (with_last (value_of xs) (list_length xs) v)
    → Holds h head (xs ++ ((p, v) ∷ []))
ring_of_list h head xs p v r =
    rw (length-snoc xs (p, v), ← fun_ext (address_of-snoc xs p v), ← fun_ext (value_of-snoc xs p v))
      r

-- `malloc` returns the address of an item that is not on the list.
pub record IsNew (ptr : ℕ) (xs : Items) : Type 0 where
  pub not_null : ptr ≢ 0
  pub outside : IsOutside ptr xs

-- On a ring that holds a list of items, and for an address other than 0 that is none of theirs
-- from `malloc`, `add_to_list` returns 0, the ring then holds the list with the new item and its
-- payload at the end, and no other address of the heap changes.
pub add_to_list_refines :
    (xs : Items) (ptr payload head : ℕ) (garbage : Item) (h : Heap)
    → Holds h head xs
    → IsNew ptr xs
    → (head' : ℕ) × (h' : Heap) × (add_to_list ptr garbage payload head h ≡ ok (pos 0, (head', h')))
      × Holds h' head' (xs ++ ((ptr, payload) ∷ []))
      × ((a : ℕ) → a ≢ ptr → IsOutside a xs → h' a ≡ h a)
add_to_list_refines xs ptr payload head garbage h r new =
    let fresh : IsFresh ptr (list_length xs) (address_of xs) = record {
      not_null = new.not_null;
      apart = λ i l e. new.outside i l (sym e);
    } in
    let (head', h', run, added) =
      add_to_list_lem (list_length xs) ptr payload head garbage (address_of xs) (value_of xs) h r
        fresh in
    (head', h', run, ring_of_list h' head' xs ptr payload added.ring, added.others)

module _ {S : Type 0} (call : ℕ → S → S) where
  -- One call for each item, in order.
  pub visit : Items → S → S
  visit [] s = s
  visit ((p, v) ∷ xs) s = visit xs (call p s)

  calls-shift :
      (k i : ℕ) (f : ℕ → ℕ) (s : S) → calls call k (suc i) f s ≡ calls call k i (λ j. f (suc j)) s
  unfolding calls
  calls-shift zero i f s = refl
  calls-shift (suc k) i f s =
      let next : suc i + 1 ≡ suc (i + 1) = omega arith in
      rw next (calls-shift k (i + 1) f (call (f (suc i)) s))

  calls-visit : (xs : Items) (s : S) → calls call (list_length xs) 0 (address_of xs) s ≡ visit xs s
  unfolding calls visit
  calls-visit [] s = refl
  calls-visit ((p, v) ∷ xs) s =
      calls-shift (list_length xs) 0 (address_of ((p, v) ∷ xs)) (call p s)
      ∙ calls-visit xs (call p s)

  -- On a ring that holds a list, `iterate_over_list` calls the function once for each item in the
  -- order of the list, and `length` returns the number of items; as many rounds as there are items
  -- are enough for both.
  pub iterate_refines :
      (xs : Items) (fuel head : ℕ) (h : Heap) (s : S)
      → list_length xs ≤ fuel
      → Holds h head xs
      → (iterate_over_list call fuel head h s ≡ ok (visit xs s))
        × (length fuel head h ≡ ok (list_length xs))
  iterate_refines xs fuel head h s l r =
      (iterate_over_list_lem r call fuel s l ∙ ap ok (calls-visit xs s), length_lem r fuel l)

-- On a ring that holds a list, with as many rounds as there are items, `delete_list` gives each
-- item back without an access to one that has been given back, the list is empty, and no other
-- address of the heap changes.
pub delete_list_refines :
    (xs : Items) (fuel head : ℕ) (h : Heap)
    → list_length xs ≤ fuel
    → Holds h head xs
    → (h' : Heap) × (delete_list fuel head h ≡ ok (0, h'))
      × Holds h' 0 []
      × ((i : ℕ) → i < list_length xs → h' (address_of xs i) ≡ none)
      × ((a : ℕ) → IsOutside a xs → h' a ≡ h a)
delete_list_refines xs fuel head h l r =
    let (h', run, deleted) =
      delete_list_lem fuel (list_length xs) head (address_of xs) (value_of xs) h l r in
    (h', run, Holds-empty h', deleted.gone, deleted.others)
  where
    Holds-empty : (h : Heap) → Holds h 0 []
    Holds-empty h = record {
      at_head = refl;
      linked = λ i l. absurd (omega arith);
      apart = λ i j l. absurd (omega arith);
      not_null = λ i l. absurd (omega arith);
    }
