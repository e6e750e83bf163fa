-- ===== src/LinkedList/Ring.antt =====
-- The list that a ring of items stands for, and what walking it gives.
use grub_os_iso_image.Common.{
  ℕ, zero, suc, ◌+◌, ◌-◌, ◌≤◌, ◌<◌, ◌≡◌, refl, sym, ap, ◌∙◌, ◌≢◌, inl, inr, true, false, some,
  arith, ◌==◌, if◌then◌else◌, ==_iff, Bool-cases, ok,
}
use native.Mathlib.Nat.{eq-zero-or-pos}
use grub_os_iso_image.LinkedList.{
  Item, Heap, item, load, length_from, length, iterate_from, iterate_over_list,
}

-- The neighbours of place `i` in a ring of `n`.
abbrev pub place_before : ℕ → ℕ → ℕ
place_before n i = if i == 0 then n - 1 else i - 1

abbrev pub place_after : ℕ → ℕ → ℕ
place_after n i = if i + 1 == n then 0 else i + 1

-- The `n` items from `head` on are at the addresses `address i` and hold `value i`.
pub record IsRing (h : Heap) (head n : ℕ) (address value : ℕ → ℕ) : Type 0 where
  pub at_head : head ≡ (if n == 0 then 0 else address 0)
  pub linked :
      (i : ℕ)
      → i < n
      → h (address i)
        ≡ some (item (address (place_before n i)) (address (place_after n i)) (value i))
  pub apart : (i j : ℕ) → i < n → j < n → address i ≡ address j → i ≡ j
  pub not_null : (i : ℕ) → i < n → address i ≢ 0

pub load-some : (p : ℕ) (h : Heap) (x : Item) → p ≢ 0 → h p ≡ some x → load p h ≡ ok x
unfolding load
load-some p h x n e = let there : (p == 0) ≡ false = ground arith in rw (there, e) refl

address-after :
    (address : ℕ → ℕ) (n i : ℕ)
    → address (place_after n i) ≡ (if i + 1 == n then address 0 else address (i + 1))
address-after address n i = elim (Bool-cases (i + 1 == n)) [ inl e ↦ rw e refl | inr e ↦ rw e refl ]

-- A ring of at least one item.
module _ {h : Heap} {head n : ℕ} {address value : ℕ → ℕ} (r : IsRing h head n address value) where
  pub head-address : 0 < n → head ≡ address 0
  head-address p = let some : (n == 0) ≡ false = ground arith in rw some at r.at_head

  pub load-address :
      (i : ℕ)
      → i < n
      → load (address i) h
        ≡ ok (item (address (place_before n i)) (address (place_after n i)) (value i))
  load-address i l = load-some (address i) h _ (r.not_null i l) (r.linked i l)

  pub not-head : (i : ℕ) → 0 < i → i < n → (address i == head) ≡ false
  not-head i p l = elim (Bool-cases (address i == head)) [
    | inl e ↦ absurd (
        omega (
          arith,
          r.apart i 0 l (omega arith) ((==_iff (address i) head).0 e ∙ head-address (omega arith)),
        ))
    | inr e ↦ e
  ]

-- Back at the head, behind the last place.
module _ {h : Heap} {head n : ℕ} {address value : ℕ → ℕ} (r : IsRing h head n address value) where
  abbrev pub pointer : ℕ → ℕ
  pointer i = if i == n then address 0 else address i

  pub at-end : 0 < n → (pointer n == head) ≡ true
  at-end p = rw ((==_iff n n).1 refl) ((==_iff (address 0) head).1 (sym (head-address r p)))

  pub not-at_end : (i : ℕ) → 0 < i → i < n → (pointer i == head) ≡ false
  not-at_end i p l = let inner : (i == n) ≡ false = ground arith in rw inner (not-head r i p l)

  pub load-pointer :
      (i : ℕ)
      → i < n
      → load (pointer i) h ≡ ok (item (address (place_before n i)) (pointer (i + 1)) (value i))
  load-pointer i l =
      let inner : (i == n) ≡ false = ground arith in
      rw inner (load-address r i l ∙ rw (address-after address n i) refl)

  pub pointer-inner : (i : ℕ) → i < n → pointer i ≡ address i
  pointer-inner i l = let inner : (i == n) ≡ false = ground arith in rw inner refl

  pub head-empty : n ≡ 0 → (head == 0) ≡ true
  head-empty e = rw (r.at_head, e) refl

  pub head-there : 0 < n → (head == 0) ≡ false
  head-there p = let at = head-address r p in ground (arith, r.not_null 0 p)

  pub load-head : 0 < n → load head h ≡ ok (item (address (n - 1)) (pointer 1) (value 0))
  load-head p = rw (head-address r p) (load-address r 0 p ∙ rw (address-after address n 0) refl)

module _ {S : Type 0} (call : ℕ → S → S) where
  -- The calls for the places from `i` on, `k` of them.
  unfoldable pub calls : ℕ → ℕ → (ℕ → ℕ) → S → S
  calls zero i address s = s
  calls (suc k) i address s = calls k (i + 1) address (call (address i) s)

module _ {h : Heap} {head n : ℕ} {address value : ℕ → ℕ} (r : IsRing h head n address value) where
  length_from_lem :
      (fuel k i c : ℕ)
      → 0 < i
      → i + k ≡ n
      → k < fuel
      → length_from fuel head (pointer r i) c h ≡ ok (c + k)
  unfolding length_from
  length_from_lem zero k i c p e l = absurd (omega arith)
  length_from_lem (suc fuel) zero i c p e l =
      let same : i ≡ n = omega arith in rw (same, at-end r (omega arith)) (ap ok (omega arith))
  length_from_lem (suc fuel) (suc k) i c p e l =
      rw (not-at_end r i p (omega arith), load-pointer r i (omega arith))
        (length_from_lem fuel k (i + 1) (c + 1) (omega arith) (omega arith) (omega arith)
          ∙ ap ok (omega arith))

  pub length_lem : (fuel : ℕ) → n ≤ fuel → length fuel head h ≡ ok n
  unfolding length
  length_lem fuel l = elim (eq-zero-or-pos n) [
    | inl e ↦ rw (head-empty r e, e) refl
    | inr p ↦
        rw (head-there r p, load-head r p)
          (length_from_lem fuel (n - 1) 1 1 (omega arith) (omega arith) (omega arith)
            ∙ ap ok (omega arith))
  ]

  module _ {S : Type 0} (call : ℕ → S → S) where
    iterate_from_lem :
        (fuel k i : ℕ) (s : S)
        → 0 < i
        → i + k ≡ n
        → k < fuel
        → iterate_from call fuel head (pointer r i) h s ≡ ok (calls call k i address s)
    unfolding iterate_from calls
    iterate_from_lem zero k i s p e l = absurd (omega arith)
    iterate_from_lem (suc fuel) zero i s p e l =
        let same : i ≡ n = omega arith in rw (same, at-end r (omega arith)) refl
    iterate_from_lem (suc fuel) (suc k) i s p e l =
        rw
          (
            not-at_end r i p (omega arith),
            load-pointer r i (omega arith),
            pointer-inner r i (omega arith),
          )
          (iterate_from_lem fuel k (i + 1) (call (address i) s) (omega arith) (omega arith)
            (omega arith))

    pub iterate_over_list_lem :
        (fuel : ℕ) (s : S)
        → n ≤ fuel
        → iterate_over_list call fuel head h s ≡ ok (calls call n 0 address s)
    unfolding iterate_over_list calls
    iterate_over_list_lem fuel s l = elim (eq-zero-or-pos n) [
      | inl e ↦ rw (head-empty r e, e) refl
      | inr p ↦
          let count : suc (n - 1) ≡ n = omega arith in
          let rest : calls call (n - 1) 1 address (call (address 0) s) ≡ calls call n 0 address s =
            ap (λ (m : ℕ). calls call m 0 address s) count in
          rw (head-there r p, load-head r p)
            (ap (λ (a : ℕ). iterate_from call fuel head (pointer r 1) h (call a s))
                (head-address r p)
              ∙ iterate_from_lem fuel (n - 1) 1 (call (address 0) s) (omega arith) (omega arith)
                  (omega arith)
              ∙ ap ok rest)
    ]
