-- ===== src/LinkedList/Delete.antt =====
-- `delete_list` gives every item of the ring back.
use grub_os_iso_image.Common.{
  ℕ, zero, suc, ◌+◌, ◌-◌, ◌≤◌, ◌<◌, ◌≡◌, refl, sym, ap, ◌∙◌, ◌≢◌, inl, inr, true, false, none, some,
  arith, ◌==◌, if◌then◌else◌, ==_iff, ok,
}
use native.Mathlib.Nat.{eq-zero-or-pos, eq-or-lt_of_le}
use grub_os_iso_image.LinkedList.{
  Item, Heap, item, put, load, set_prev, free, delete_from, delete_list,
}
use grub_os_iso_image.LinkedList.Ring.{
  IsRing, place_before, load-some, load-address, head-address, head-there, head-empty, load-head,
  pointer, not-head,
}
use grub_os_iso_image.LinkedList.Fields.{
  put_self, put_other, set_next_lem, set_prev_lem, load_other,
}

-- From place `i` on the items are still linked, those before are given back, and the rest of the
-- heap is that of `h0`.
record IsLeft (n i : ℕ) (address : ℕ → ℕ) (h0 h : Heap) : Type 0 where
  node :
      (j : ℕ)
      → i ≤ j
      → j < n
      → (x : Item) × (h (address j) ≡ some x)
        × (x.next ≡ (if j + 1 == n then 0 else address (j + 1)))
        × (x.prev ≡ (if j == i then 0 else address (j - 1)))
  gone : (j : ℕ) → j < i → h (address j) ≡ none
  others : (a : ℕ) → ((j : ℕ) → j < n → a ≢ address j) → h a ≡ h0 a

-- Every item is given back, and the rest of the heap stays.
pub record IsDeleted (n : ℕ) (address : ℕ → ℕ) (h h' : Heap) : Type 0 where
  pub gone : (j : ℕ) → j < n → h' (address j) ≡ none
  pub others : (a : ℕ) → ((j : ℕ) → j < n → a ≢ address j) → h' a ≡ h a

free_lem : (p : ℕ) (h : Heap) (x : Item) → load p h ≡ ok x → free p h ≡ ok (put h p none)
unfolding free
free_lem p h x e = rw e refl

module _ (n : ℕ) (address : ℕ → ℕ) (h0 : Heap)
    (apart : (i j : ℕ) → i < n → j < n → address i ≡ address j → i ≡ j)
    (not_null : (i : ℕ) → i < n → address i ≢ 0) where
  -- One round of the loop.
  advance :
      (i : ℕ) (h : Heap)
      → i + 1 < n
      → IsLeft n i address h0 h
      → (x y : Item) × (h1 h2 : Heap) × (load (address i) h ≡ ok x)
        × (x.next ≡ address (i + 1))
        × (load (address (i + 1)) h ≡ ok y)
        × (free y.prev h ≡ ok h1)
        × (set_prev (address (i + 1)) 0 h1 ≡ ok h2)
        × IsLeft n (i + 1) address h0 h2
  advance i h l s =
      let (x, ex, nx, px) = s.node i (omega arith) (omega arith) in
      let (y, ey, ny, py) = s.node (i + 1) (omega arith) l in
      let lx = load-some (address i) h x (not_null i (omega arith)) ex in
      let ly = load-some (address (i + 1)) h y (not_null (i + 1) l) ey in
      let inner : (i + 1 == n) ≡ false = ground arith in
      let later : (i + 1 == i) ≡ false = ground arith in
      let back : i + 1 - 1 ≡ i = omega arith in
      let prev : y.prev ≡ address i = py ∙ rw (later, back) refl in
      let h1 = put h (address i) none in
      let here : address (i + 1) ≢ address i =
        λ e. omega (arith, apart (i + 1) i l (omega arith) e) in
      let ly1 = load_other h (address i) (address (i + 1)) y none ly here in
      let h2 = put h1 (address (i + 1)) (some (record y { prev = 0 })) in
      (
        x,
        y,
        h1,
        h2,
        lx,
        nx ∙ rw inner refl,
        ly,
        rw prev (free_lem (address i) h x lx),
        set_prev_lem (address (i + 1)) 0 h1 y ly1,
        record {
          node = λ j p q. elim (eq-or-lt_of_le {n = i + 1} {m = j} p) [
            | inl e ↦ rw (sym e) (
              record y { prev = 0 },
              put_self h1 (address (i + 1)) _,
              ny,
              rw ((==_iff (i + 1) (i + 1)).1 refl) refl,
            )
            | inr less ↦
                let (w, ew, nw, pw) = s.node j (omega arith) q in
                let before : (j == i) ≡ false = ground arith in
                let behind : (j == i + 1) ≡ false = ground arith in
                (
                  w,
                  put_other h1 (address (i + 1)) (address j) _
                        (λ a. omega (arith, apart j (i + 1) q l a))
                      ∙ put_other h (address i) (address j) _
                          (λ a. omega (arith, apart j i q (omega arith) a))
                      ∙ ew,
                  nw,
                  pw ∙ rw (before, behind) refl,
                )
          ];
          gone = λ j p. elim (eq-or-lt_of_le {n = j} {m = i} (omega arith)) [
            | inl e ↦ rw e (
                put_other h1 (address (i + 1)) (address i) _ (λ a. here (sym a))
                ∙ put_self h (address i) none)
            | inr less ↦
                put_other h1 (address (i + 1)) (address j) _
                  (λ a. omega (arith, apart j (i + 1) (omega arith) l a))
                ∙ put_other h (address i) (address j) _
                    (λ a. omega (arith, apart j i (omega arith) (omega arith) a))
                ∙ s.gone j less
          ];
          others = λ a o.
              put_other h1 (address (i + 1)) a _ (o (i + 1) l)
              ∙ put_other h (address i) a _ (o i (omega arith))
              ∙ s.others a o;
        },
      )

  delete_from_lem :
      (fuel k i : ℕ) (h : Heap)
      → i + 1 + k ≡ n
      → k < fuel
      → IsLeft n i address h0 h
      → (h' : Heap) × (delete_from fuel (address i) h ≡ ok (address (n - 1), h'))
        × IsLeft n (n - 1) address h0 h'
  unfolding delete_from
  delete_from_lem zero k i h e l s = absurd (omega arith)
  delete_from_lem (suc fuel) zero i h e l s =
      let (x, ex, nx, px) = s.node i (omega arith) (omega arith) in
      let lx = load-some (address i) h x (not_null i (omega arith)) ex in
      let last : (i + 1 == n) ≡ true = ground arith in
      let place : i ≡ n - 1 = omega arith in
      let stop : x.next ≡ 0 = nx ∙ rw last refl in (h, rw (lx, stop, place) refl, rw place at s)
  delete_from_lem (suc fuel) (suc k) i h e l s =
      let (x, y, h1, h2, lx, nx, ly, r1, r2, s2) = advance i h (omega arith) s in
      let (h', run, s') = delete_from_lem fuel k (i + 1) h2 (omega arith) (omega arith) s2 in
      let more : (address (i + 1) == 0) ≡ false = ground (arith, not_null (i + 1)) in
      (h', rw (lx, nx, more, ly, r1, r2) run, s')

delete_one :
    (fuel head : ℕ) (address value : ℕ → ℕ) (h : Heap)
    → IsRing h head 1 address value
    → (h' : Heap) × (delete_list fuel head h ≡ ok (0, h')) × IsDeleted 1 address h h'
unfolding delete_list
delete_one fuel head address value h r =
    let at = head-address r (omega arith) in
    let first = load-head r (omega arith) in
    let own : (address 0 == head) ≡ true = (==_iff (address 0) head).1 (sym at) in
    (
      put h head none,
      rw (head-there r (omega arith), first, own, free_lem head h _ first) refl,
      record {
        gone = λ j l. let only : j ≡ 0 = omega arith in rw (only, sym at) (put_self h head none);
        others = λ a o. put_other h head a none (λ e. o 0 (omega arith) (e ∙ at));
      },
    )

-- The heap before the loop: the links between the first and the last item are cut.
cut : ℕ → ℕ → (ℕ → ℕ) → (ℕ → ℕ) → Heap → Heap
cut n head address value h =
    put (put h (address (n - 1)) (some (item (address (n - 2)) 0 (value (n - 1))))) head
      (some (item 0 (address 1) (value 0)))

cut-IsLeft :
    (n head : ℕ) (address value : ℕ → ℕ) (h : Heap)
    → 1 < n
    → IsRing h head n address value
    → IsLeft n 0 address h (cut n head address value h)
unfolding cut
cut-IsLeft n head address value h many r = record {
  node = λ j p q. elim (eq-zero-or-pos j) [
    | inl e ↦
        rw e
          (item 0 (address 1) (value 0), ap h2 (sym at) ∙ put_self h1 head _, rw single refl, refl)
    | inr positive ↦
        let behind : (j == 0) ≡ false = ground arith in
        let other : address j ≢ head = λ a. omega (arith, r.apart j 0 q (omega arith) (a ∙ at)) in
        elim (eq-or-lt_of_le {n = j + 1} {m = n} (omega arith)) [
          | inl e ↦
              let place : j ≡ n - 1 = omega arith in
              let end : (j + 1 == n) ≡ true = ground arith in
              let before : n - 2 ≡ j - 1 = omega arith in
              (
                item (address (n - 2)) 0 (value (n - 1)),
                put_other h1 head (address j) _ other
                    ∙ ap h1 (ap address place)
                    ∙ put_self h (address (n - 1)) _,
                rw end refl,
                rw (behind, before) refl,
              )
          | inr inner ↦
              let end : (j + 1 == n) ≡ false = ground arith in
              (
                _,
                put_other h1 head (address j) _ other
                    ∙ put_other h (address (n - 1)) (address j) _
                        (λ a. omega (arith, r.apart j (n - 1) q (omega arith) a))
                    ∙ r.linked j q,
                rw end refl,
                rw behind refl,
              )
        ]
  ];
  gone = λ j l. absurd (omega arith);
  others = λ a o.
      put_other h1 head a _ (λ e. o 0 (omega arith) (e ∙ at))
      ∙ put_other h (address (n - 1)) a _ (o (n - 1) (omega arith));
}
  where
    at : head ≡ address 0
    at = head-address r (omega arith)

    single : (1 == n) ≡ false
    single = ground arith

    h1 : Heap
    h1 = put h (address (n - 1)) (some (item (address (n - 2)) 0 (value (n - 1))))

    h2 : Heap
    h2 = put h1 head (some (item 0 (address 1) (value 0)))

delete_more :
    (fuel n head : ℕ) (address value : ℕ → ℕ) (h : Heap)
    → 1 < n
    → n ≤ fuel
    → IsRing h head n address value
    → (h' : Heap) × (delete_list fuel head h ≡ ok (0, h')) × IsDeleted n address h h'
unfolding delete_list cut
delete_more fuel n head address value h many l r =
    let at = head-address r (omega arith) in
    let first = load-head r (omega arith) in
    let last = address (n - 1) in
    let apart_ends : last ≢ head =
      λ e. omega (arith, r.apart (n - 1) 0 (omega arith) (omega arith) (e ∙ at)) in
    let single : (1 == n) ≡ false = ground arith in
    let second : pointer r 1 ≡ address 1 = rw single refl in
    let not_own : (address 1 == head) ≡ false = not-head r 1 (omega arith) many in
    let at_last = load-address r (n - 1) (omega arith) in
    let before : place_before n (n - 1) ≡ n - 2 = ground arith in
    let x1 = item (address (n - 2)) 0 (value (n - 1)) in
    let h1 = put h last (some x1) in
    let r1 = rw before at (set_next_lem last 0 h _ at_last) in
    let first1 = load_other h last head _ (some x1) first (λ e. apart_ends (sym e)) in
    let r2 = rw second at (set_prev_lem head 0 h1 _ first1) in
    let h2 = put h1 head (some (item 0 (address 1) (value 0))) in
    let left = cut-IsLeft n head address value h many r in
    let (h3, run, s) =
      delete_from_lem n address h r.apart r.not_null fuel (n - 1) 0 h2 (omega arith) (omega arith)
        left in
    let (x, ex, nx, px) = s.node (n - 1) (omega arith) (omega arith) in
    let lx = load-some last h3 x (r.not_null (n - 1) (omega arith)) ex in
    let run' = rw (sym at) at run in
    (
      put h3 last none,
      rw (head-there r (omega arith), first, second, not_own, r1, r2, run', free_lem last h3 x lx)
          refl,
      record {
        gone = λ j p. elim (eq-or-lt_of_le {n = j} {m = n - 1} (omega arith)) [
          | inl e ↦ rw e (put_self h3 last none)
          | inr less ↦
              put_other h3 last (address j) none
                (λ a. omega (arith, r.apart j (n - 1) p (omega arith) a))
              ∙ s.gone j less
        ];
        others = λ a o. put_other h3 last a none (o (n - 1) (omega arith)) ∙ s.others a o;
      },
    )

-- Every item is given back, the list is empty, and the rest of the heap stays.
pub delete_list_lem :
    (fuel n head : ℕ) (address value : ℕ → ℕ) (h : Heap)
    → n ≤ fuel
    → IsRing h head n address value
    → (h' : Heap) × (delete_list fuel head h ≡ ok (0, h')) × IsDeleted n address h h'
unfolding delete_list
delete_list_lem fuel zero head address value h l r = (
  h,
  rw (head-empty r refl, r.at_head) refl,
  record { gone = λ j p. absurd (omega arith); others = λ a o. refl },
)
delete_list_lem fuel (suc zero) head address value h l r = delete_one fuel head address value h r
delete_list_lem fuel (suc (suc n)) head address value h l r =
    delete_more fuel (suc (suc n)) head address value h (omega arith) l r
