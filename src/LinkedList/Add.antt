-- ===== src/LinkedList/Add.antt =====
-- `add_to_list` puts one more item at the end of the ring.
use grub_os_iso_image.Common.{
  ℕ, zero, suc, ◌-◌, ◌<◌, ◌≡◌, refl, sym, ap, ◌∙◌, ◌≢◌, inl, inr, false, some, arith, ◌==◌, ==_iff,
  ok, pos,
}
use native.Mathlib.Nat.{eq-or-lt_of_le}
use grub_os_iso_image.LinkedList.{Item, Heap, item, put, load, add_to_list}
use grub_os_iso_image.LinkedList.Ring.{
  IsRing, place_before, load-address, head-address, head-there, load-head, pointer,
}
use grub_os_iso_image.LinkedList.Fields.{
  put_self, put_other, set_next_lem, set_prev_lem, set_payload_lem, load_self, load_other,
}
use grub_os_iso_image.LinkedList.Places.{with_last, IsFresh, IsAdded, IsRelinked, relinked-IsAdded}

add_first :
    (ptr payload head : ℕ) (garbage : Item) (address value : ℕ → ℕ) (h : Heap)
    → IsRing h head 0 address value
    → IsFresh ptr 0 address
    → (h' : Heap) × (add_to_list ptr garbage payload head h ≡ ok (pos 0, (ptr, h')))
      × IsAdded ptr payload 0 address value h ptr h'
unfolding add_to_list
add_first ptr payload head garbage address value h r fresh =
    let h0 = put h ptr (some garbage) in
    let x1 = record garbage { next = ptr } in
    let h1 = put h0 ptr (some x1) in
    let x2 = record x1 { prev = ptr } in
    let h2 = put h1 ptr (some x2) in
    let h3 = put h2 ptr (some (record x2 { payload = payload })) in
    let s1 = set_next_lem ptr ptr h0 garbage (load_self h ptr garbage fresh.not_null) in
    let s2 = set_prev_lem ptr ptr h1 x1 (load_self h0 ptr x1 fresh.not_null) in
    let s3 = set_payload_lem ptr payload h2 x2 (load_self h1 ptr x2 fresh.not_null) in
    let there : (ptr == 0) ≡ false = ground (arith, fresh.not_null) in
    let at : head ≡ 0 = r.at_head in
    (
      h3,
      rw (there, at, s1, s2, s3) refl,
      record {
        ring = record {
          at_head = refl;
          linked = λ i l. let only : i ≡ 0 = omega arith in rw only (put_self h2 ptr _);
          apart = λ i j l m e. omega arith;
          not_null = λ i l. let only : i ≡ 0 = omega arith in rw only fresh.not_null;
        };
        others = λ a n q.
            put_other h2 ptr a _ n
            ∙ put_other h1 ptr a _ n
            ∙ put_other h0 ptr a _ n
            ∙ put_other h ptr a _ n;
      },
    )

module _ {h : Heap} {head n : ℕ} {address value : ℕ → ℕ} (r : IsRing h head n address value) where
  -- The first item again, when the last one is linked to the new item.
  load_again :
      (ptr : ℕ)
      → 0 < n
      → (h2 : Heap) (x : Item) → load head h2 ≡ ok x
      → x.next ≡ pointer r 1
      → x.payload ≡ value 0
      → (y : Item) × (load head (
            put h2
              (address (n - 1))
              (some (item (address (place_before n (n - 1))) ptr (value (n - 1)))))
          ≡ ok y)
        × (y.next ≡ with_last address n ptr 1)
        × (y.payload ≡ value 0)
  load_again ptr p h2 x l next payload =
      let last = address (n - 1) in
      let z = item (address (place_before n (n - 1))) ptr (value (n - 1)) in
      elim (eq-or-lt_of_le {n = 1} {m = n} (omega arith)) [
        | inl e ↦
            let place : 0 ≡ n - 1 = omega arith in
            let same : head ≡ last = head-address r p ∙ ap address place in
            let not_null = r.not_null (n - 1) (omega arith) in
            (
              z,
              rw same (load_self h2 last z not_null),
              rw ((==_iff 1 n).1 e) refl,
              ap value (sym place),
            )
        | inr many ↦
            let single : (1 == n) ≡ false = ground arith in
            let other : head ≢ last =
              λ e. omega (arith, r.apart 0 (n - 1) p (omega arith) (sym (head-address r p) ∙ e)) in
            (x, load_other h2 last head x (some z) l other, next ∙ rw single refl, payload)
      ]

  add_behind :
      (ptr payload : ℕ) (garbage : Item)
      → 0 < n
      → IsFresh ptr n address
      → (h' : Heap) × (add_to_list ptr garbage payload head h ≡ ok (pos 0, (head, h')))
        × IsRelinked ptr payload n address value h h'
  unfolding add_to_list
  add_behind ptr payload garbage p fresh =
      let last = address (n - 1) in
      let at = head-address r p in
      let apart_head : head ≢ ptr = λ e. fresh.apart 0 p (sym at ∙ e) in
      let apart_last : last ≢ ptr = fresh.apart (n - 1) (omega arith) in
      let nonzero : head ≢ 0 = λ e. r.not_null 0 p (sym at ∙ e) in
      let h0 = put h ptr (some garbage) in
      let x1 = record garbage { next = head } in
      let h1 = put h0 ptr (some x1) in
      let x2 = record x1 { prev = last } in
      let h2 = put h1 ptr (some x2) in
      let z = item (address (place_before n (n - 1))) ptr (value (n - 1)) in
      let h3 = put h2 last (some z) in
      let f = item last (with_last address n ptr 1) (value 0) in
      let h4 = put h3 head (some (item ptr (with_last address n ptr 1) (value 0))) in
      let h5 = put h4 ptr (some (item last head payload)) in
      let s1 = set_next_lem ptr head h0 garbage (load_self h ptr garbage fresh.not_null) in
      let first = load-head r p in
      let l1 =
        load_other h0 ptr head _ (some x1) (load_other h ptr head _ (some garbage) first apart_head)
          apart_head in
      let s2 = set_prev_lem ptr last h1 x1 (load_self h0 ptr x1 fresh.not_null) in
      let l2 = load_other h1 ptr head _ (some x2) l1 apart_head in
      let at_last = load-address r (n - 1) (omega arith) in
      let l3 =
        load_other h1 ptr last _ (some x2)
          (load_other h0 ptr last _ (some x1)
            (load_other h ptr last _ (some garbage) at_last apart_last) apart_last)
          apart_last in
      let s3 = set_next_lem last ptr h2 _ l3 in
      let (y, l4, next, payload') =
        load_again ptr p h2 (item last (pointer r 1) (value 0)) l2 refl refl in
      let s4 = rw (next, payload') at (set_prev_lem head ptr h3 y l4) in
      let l5 =
        load_other h3 head ptr x2 (some (item ptr (with_last address n ptr 1) (value 0)))
          (load_other h2 last ptr x2 (some z) (load_self h1 ptr x2 fresh.not_null)
            (λ e. apart_last (sym e)))
          (λ e. apart_head (sym e)) in
      let s5 = set_payload_lem ptr payload h4 x2 l5 in
      let there : (ptr == 0) ≡ false = ground (arith, fresh.not_null) in
      (
        h5,
        rw (there, head-there r p, s1, l1, s2, l2, s3, s4, s5) refl,
        record {
          new = put_self h4 ptr _ ∙ rw at refl;
          first = ap h5 (sym at) ∙ put_other h4 ptr head _ apart_head ∙ put_self h3 head _;
          last = λ many.
              let before : place_before n (n - 1) ≡ n - 2 = ground arith in
              put_other h4 ptr last _ apart_last
              ∙ put_other h3 head last _
                  (λ e. omega (arith, r.apart (n - 1) 0 (omega arith) p (e ∙ at)))
              ∙ put_self h2 last _
              ∙ rw before refl;
          others = λ a q q0 q1.
              put_other h4 ptr a _ q
              ∙ put_other h3 head a _ (λ e. q0 (e ∙ at))
              ∙ put_other h2 last a _ q1
              ∙ put_other h1 ptr a _ q
              ∙ put_other h0 ptr a _ q
              ∙ put_other h ptr a _ q;
        },
      )

pub add_to_list_lem :
    (n ptr payload head : ℕ) (garbage : Item) (address value : ℕ → ℕ) (h : Heap)
    → IsRing h head n address value
    → IsFresh ptr n address
    → (head' : ℕ) × (h' : Heap) × (add_to_list ptr garbage payload head h ≡ ok (pos 0, (head', h')))
      × IsAdded ptr payload n address value h head' h'
add_to_list_lem zero ptr payload head garbage address value h r fresh =
    let (h', run, x) = add_first ptr payload head garbage address value h r fresh in
    (ptr, h', run, x)
add_to_list_lem (suc k) ptr payload head garbage address value h r fresh =
    let (h', run, x) = add_behind r ptr payload garbage (omega arith) fresh in
    (head, h', run, relinked-IsAdded r ptr payload h' (omega arith) fresh x)
