-- ===== src/Sort/Exchange.antt =====
-- `int_swap` on two places of an array that is given by its parts.
use grub_os_iso_image.Common.{
  ℕ, suc, ◌+◌, ◌≡◌, refl, sym, ap, ◌∙◌, List, ◌∷◌, ◌++◌, append_assoc, length, length-append, ok,
  read, write, read-append, write-append,
}
use grub_os_iso_image.Sort.{int_swap}

module _ {A : Type 0} where
  pub read_at :
      (array front : List A) (a : A) (back : List A) (i : ℕ)
      → array ≡ front ++ (a ∷ back)
      → i ≡ length front
      → read array i ≡ ok a
  read_at array front a back i e l = rw (e, l) (read-append front a back)

  write_at :
      (array front : List A) (a : A) (back : List A) (i : ℕ) (b : A)
      → array ≡ front ++ (a ∷ back)
      → i ≡ length front
      → write array i b ≡ ok (front ++ (b ∷ back))
  write_at array front a back i b e l = rw (e, l) (write-append front a b back)

  -- Two different places, in either order.
  far :
      (front m : List A) (x y : A) (back : List A)
      → front ++ (x ∷ (m ++ (y ∷ back))) ≡ (front ++ (x ∷ m)) ++ (y ∷ back)
  far front m x y back = sym (append_assoc front (x ∷ m) (y ∷ back))

  pub swap_near-far :
      (front m : List A) (x y : A) (back : List A) (i j : ℕ)
      → i ≡ length front
      → j ≡ length front + suc (length m)
      → (int_swap (front ++ (x ∷ (m ++ (y ∷ back)))) i j ≡ ok (front ++ (y ∷ (m ++ (x ∷ back)))))
        × (int_swap (front ++ (x ∷ (m ++ (y ∷ back)))) j i ≡ ok (front ++ (y ∷ (m ++ (x ∷ back)))))
  unfolding int_swap
  swap_near-far front m x y back i j ei ej =
      let place : (z : A) → j ≡ length (front ++ (z ∷ m)) =
        λ z. ej ∙ sym (length-append front (z ∷ m)) in
      let near = read_at (front ++ (x ∷ (m ++ (y ∷ back)))) front x (m ++ (y ∷ back)) i refl ei in
      let far_value =
        read_at (front ++ (x ∷ (m ++ (y ∷ back)))) (front ++ (x ∷ m)) y back j
          (far front m x y back) (place x) in
      let w1 = write_at (front ++ (x ∷ (m ++ (y ∷ back)))) front x (m ++ (y ∷ back)) i y refl ei in
      let w2 =
        write_at (front ++ (y ∷ (m ++ (y ∷ back)))) (front ++ (y ∷ m)) y back j x
          (far front m y y back) (place y) in
      let v1 =
        write_at (front ++ (x ∷ (m ++ (y ∷ back)))) (front ++ (x ∷ m)) y back j x
          (far front m x y back) (place x) in
      let v2 = write_at (front ++ (x ∷ (m ++ (x ∷ back)))) front x (m ++ (x ∷ back)) i y refl ei in
      (
        rw (near, far_value, w1, w2) (ap ok (append_assoc front (y ∷ m) (x ∷ back))),
        rw (far_value, near, v1, append_assoc front (x ∷ m) (x ∷ back), v2) refl,
      )

  pub swap_same :
      (front : List A) (x : A) (back : List A) (i : ℕ)
      → i ≡ length front
      → int_swap (front ++ (x ∷ back)) i i ≡ ok (front ++ (x ∷ back))
  unfolding int_swap
  swap_same front x back i e =
      let r = read_at (front ++ (x ∷ back)) front x back i refl e in
      let w = write_at (front ++ (x ∷ back)) front x back i x refl e in rw (r, w, w) refl
