-- ===== src/LinkedList/Places.antt =====
-- The places of a ring with one more item at its end.
use grub_os_iso_image.Common.{
  ℕ, suc, ◌+◌, ◌-◌, ◌<◌, ◌≡◌, refl, sym, ap, ◌∙◌, ◌≢◌, ◌⊎◌, inl, inr, false, some, arith, ◌==◌,
  if◌then◌else◌, ==_iff,
}
use native.Mathlib.Nat.{eq-zero-or-pos, eq-or-lt_of_le}
use grub_os_iso_image.LinkedList.{Heap, item}
use grub_os_iso_image.LinkedList.Ring.{IsRing, place_before, place_after, head-address}

-- The addresses and the values with one more at the end.
abbrev pub with_last : (ℕ → ℕ) → ℕ → ℕ → ℕ → ℕ
with_last f n x i = if i == n then x else f i

-- What may be a new item: no null pointer, and none of the ring's.
pub record IsFresh (ptr n : ℕ) (address : ℕ → ℕ) : Type 0 where
  pub not_null : ptr ≢ 0
  pub apart : (i : ℕ) → i < n → address i ≢ ptr

-- The list has the value at its end, and what else is on the heap stays.
pub record IsAdded (ptr payload n : ℕ) (address value : ℕ → ℕ) (h : Heap) (head' : ℕ) (h' : Heap)
    : Type 0 where
  pub ring : IsRing h' head' (suc n) (with_last address n ptr) (with_last value n payload)
  pub others : (a : ℕ) → a ≢ ptr → ((i : ℕ) → i < n → a ≢ address i) → h' a ≡ h a

never_zero : (n : ℕ) → (suc n == 0) ≡ false
never_zero n = ground arith

new_place : (f : ℕ → ℕ) (n x : ℕ) → with_last f n x n ≡ x
new_place f n x = rw ((==_iff n n).1 refl) refl

old : (f : ℕ → ℕ) (n x i : ℕ) → i < n → with_last f n x i ≡ f i
old f n x i l = let other : (i == n) ≡ false = ground arith in rw other refl

-- What the three changed items hold, for a ring of `n` before.
pub record IsRelinked (ptr payload n : ℕ) (address value : ℕ → ℕ) (h h' : Heap) : Type 0 where
  pub new : h' ptr ≡ some (item (address (n - 1)) (address 0) payload)
  pub first : h' (address 0) ≡ some (item ptr (with_last address n ptr 1) (value 0))
  pub last : 1 < n → h' (address (n - 1)) ≡ some (item (address (n - 2)) ptr (value (n - 1)))
  pub others : (a : ℕ) → a ≢ ptr → a ≢ address 0 → a ≢ address (n - 1) → h' a ≡ h a

module _ {h : Heap} {head n : ℕ} {address value : ℕ → ℕ} (r : IsRing h head n address value) where
  apart_with_last :
      (ptr : ℕ)
      → IsFresh ptr n address
      → (i j : ℕ) → i < suc n
      → j < suc n
      → with_last address n ptr i ≡ with_last address n ptr j
      → i ≡ j
  apart_with_last ptr fresh i j l m e = elim (eq-or-lt_of_le {n = i} {m = n} (omega arith)) [
    | inl a ↦ elim (eq-or-lt_of_le {n = j} {m = n} (omega arith)) [
      | inl b ↦ a ∙ sym b
      | inr less ↦ absurd (
          fresh.apart j less (
            sym (old address n ptr j less)
            ∙ sym e
            ∙ ap (with_last address n ptr) a
            ∙ new_place address n ptr))
    ]
    | inr less ↦ elim (eq-or-lt_of_le {n = j} {m = n} (omega arith)) [
      | inl b ↦ absurd (
          fresh.apart i less (
            sym (old address n ptr i less)
            ∙ e
            ∙ ap (with_last address n ptr) b
            ∙ new_place address n ptr))
      | inr less' ↦
          r.apart i j less less' (sym (old address n ptr i less) ∙ e ∙ old address n ptr j less')
    ]
  ]

  -- A place that is neither the first, the last nor the new one.
  inner_at :
      (ptr payload : ℕ) (h' : Heap)
      → IsFresh ptr n address
      → IsRelinked ptr payload n address value h h'
      → (i : ℕ) → 0 < i
      → i + 1 < n
      → h' (address i) ≡ some (item (address (i - 1)) (address (i + 1)) (value i))
  inner_at ptr payload h' fresh x i p l =
      let same =
        x.others (address i) (fresh.apart i (omega arith))
          (λ e. omega (arith, r.apart i 0 (omega arith) (omega arith) e))
          (λ e. omega (arith, r.apart i (n - 1) (omega arith) (omega arith) e)) in
      let not_first : (i == 0) ≡ false = ground arith in
      let not_last : (i + 1 == n) ≡ false = ground arith in
      same ∙ (rw (not_first, not_last) at (r.linked i (omega arith)))

  relinked_at :
      (ptr payload : ℕ) (h' : Heap)
      → 0 < n
      → IsFresh ptr n address
      → IsRelinked ptr payload n address value h h'
      → (i : ℕ) → i < suc n
      → h' (with_last address n ptr i)
        ≡ some (
            item
              (with_last address n ptr (place_before (suc n) i))
              (with_last address n ptr (place_after (suc n) i))
              (with_last value n payload i))
  relinked_at ptr payload h' p fresh x i l = elim (which n i p l) [
    | inl new ↦
        let before : place_before (suc n) n ≡ n - 1 = ground arith in
        let after : place_after (suc n) n ≡ 0 = ground arith in
        rw
          (
            new,
            before,
            after,
            new_place address n ptr,
            new_place value n payload,
            old address n ptr (n - 1) (omega arith),
            old address n ptr 0 p,
          )
          x.new
    | inr (inl first) ↦
        let after : place_after (suc n) 0 ≡ 1 = ground arith in
        let before : suc n - 1 ≡ n = omega arith in
        rw
          (
            first,
            after,
            old address n ptr 0 p,
            old value n payload 0 p,
            before,
            new_place address n ptr,
          )
          x.first
    | inr (inr (inl (last, many))) ↦
        let before : place_before (suc n) (n - 1) ≡ n - 2 = ground arith in
        let after : place_after (suc n) (n - 1) ≡ n = ground arith in
        rw
          (
            last,
            before,
            after,
            new_place address n ptr,
            old address n ptr (n - 1) (omega arith),
            old address n ptr (n - 2) (omega arith),
            old value n payload (n - 1) (omega arith),
          )
          (x.last many)
    | inr (inr (inr (positive, less))) ↦
        let before : place_before (suc n) i ≡ i - 1 = ground arith in
        let after : place_after (suc n) i ≡ i + 1 = ground arith in
        rw
          (
            before,
            after,
            old address n ptr i (omega arith),
            old address n ptr (i - 1) (omega arith),
            old address n ptr (i + 1) less,
            old value n payload i (omega arith),
          )
          (inner_at ptr payload h' fresh x i positive less)
  ]
    where
      which :
          (n i : ℕ)
          → 0 < n
          → i < suc n
          → (i ≡ n) ⊎ ((i ≡ 0) ⊎ (((i ≡ n - 1) × (1 < n)) ⊎ ((0 < i) × (i + 1 < n))))
      which n i p l = elim (eq-or-lt_of_le {n = i} {m = n} (omega arith)) [
        | inl e ↦ inl e
        | inr less ↦ elim (eq-zero-or-pos i) [
          | inl e ↦ inr (inl e)
          | inr positive ↦ elim (eq-or-lt_of_le {n = i + 1} {m = n} (omega arith)) [
            | inl e ↦ inr (inr (inl (omega arith, omega arith)))
            | inr more ↦ inr (inr (inr (positive, more)))
          ]
        ]
      ]

  pub relinked-IsAdded :
      (ptr payload : ℕ) (h' : Heap)
      → 0 < n
      → IsFresh ptr n address
      → IsRelinked ptr payload n address value h h'
      → IsAdded ptr payload n address value h head h'
  relinked-IsAdded ptr payload h' p fresh x = record {
    ring = record {
      at_head = head-address r p ∙ rw (never_zero n, old address n ptr 0 p) refl;
      linked = relinked_at ptr payload h' p fresh x;
      apart = apart_with_last ptr fresh;
      not_null = λ i l. elim (eq-or-lt_of_le {n = i} {m = n} (omega arith)) [
        | inl e ↦ rw (e, new_place address n ptr) fresh.not_null
        | inr less ↦ rw (old address n ptr i less) (r.not_null i less)
      ];
    };
    others = λ a q o. x.others a q (o 0 p) (o (n - 1) (omega arith));
  }
