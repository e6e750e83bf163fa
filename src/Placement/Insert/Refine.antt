-- ===== src/Placement/Insert/Refine.antt =====
-- The code of `insert_area` does to a table what `placed` does to the list of its areas.
use grub_os_iso_image.Common.{
  ℕ, suc, ◌+◌, ◌-◌, ◌^◌, ◌<◌, ◌≡◌, refl, ap, true, false, List, [], ◌∷◌, ◌++◌, arith, ◌==◌, length,
  replicate, add64, ok, ◌>>=◌, read, read-append, write-append, pos,
}
use mathlib.Core.Path.{subst, subst₂}
use grub_os_iso_image.Placement.Area.{Area, area, no_area, overlapp, is_free, IsProper}
use grub_os_iso_image.Placement.Table.{table_of, IsOrdered, holding}
use grub_os_iso_image.Common.{length-snoc}
use grub_os_iso_image.Placement.Table.Holding.{
  holding-snoc, holding-nil, write-holding, index-remove,
}
use grub_os_iso_image.Placement.Table.Unused.{
  shift_left_behind-holding, read_unused-holding, read_behind-holding, holding-extend,
}
use grub_os_iso_image.Placement.AllocateArea.{last_address}
use grub_os_iso_image.Placement.Insert.{
  find_index, put_area, merge_successor, merge_predecessor, insert_at, insert_area,
}
use grub_os_iso_image.Placement.Insert.Placing.{
  end, touches, settle, extend, place, place_behind, placed_behind, placed,
}

-- On areas that end below 2 ^ 64 `overlapp` is `touches`.
pub overlapp_lem : (a b : Area) → IsProper a → IsProper b → overlapp a b ≡ touches a b
unfolding overlapp
overlapp_lem a b p q = ground arith

put_area_lem :
    (pre : List Area) (new s : Area) (rest : List Area)
    → length pre + length (s ∷ rest) < 10
    → put_area (length pre) new (holding pre (s ∷ rest))
      ≡ ok (pos 0, holding pre (new ∷ rest ++ (no_area ∷ [])))
unfolding put_area
put_area_lem pre new s rest h =
    rw write-append (ap (λ t. ok (pos 0, t)) (holding-extend pre (new ∷ rest) h))

put_area_last :
    (pre : List Area) (new : Area)
    → length pre < 10
    → put_area (length pre) new (holding pre []) ≡ ok (pos 0, holding pre (new ∷ []))
unfolding put_area
put_area_last pre new h =
    let k : ℕ = 9 - length pre in
    let unused : 10 - (length pre + 0) ≡ suc k = omega arith in
    let unused' : 10 - (length pre + 1) ≡ k = omega arith in
    let index : length pre + 0 + 1 ≡ length pre + 1 = omega arith in
    rw (unused, unused', index, write-append pre no_area new (replicate k no_area))

merge_successor_lem :
    (pre : List Area) (new : Area) (rest : List Area)
    → IsProper new
    → IsOrdered 0 rest
    → length pre + length rest < 10
    → merge_successor (length pre) new (holding pre rest)
      ≡ ok (pos 0, holding pre (settle new rest))
unfolding merge_successor
merge_successor_lem pre new [] p o h =
    let k : ℕ = 9 - length pre in
    let unused : 10 - (length pre + 0) ≡ suc k = omega arith in
    let apart : (0 == add64 new.start new.size) ≡ false = ground arith in
    let reads : read (holding pre []).free_memory_areas (length pre) ≡ ok no_area =
      rw (unused, read-append pre no_area (replicate k no_area)) in
    rw (reads, apart) (put_area_last pre new (omega arith))
merge_successor_lem pre new (s ∷ rest) p o h = rw read-append (
    ground (
      arith,
      write-holding pre s (area new.start (s.size + new.size)) rest,
      put_area_lem pre new s rest h,
    ))

merge_predecessor_lem :
    (pre : List Area) (p new : Area) (rest : List Area)
    → IsProper p
    → IsProper new
    → IsOrdered (end p) rest
    → end p ≡ new.start
    → length pre + length (p ∷ rest) < 10
    → merge_predecessor (length pre) p new (holding pre (p ∷ rest))
      ≡ ok (pos 0, holding pre (extend p new rest))
unfolding merge_predecessor
merge_predecessor_lem pre p new [] q r o e h =
    let larger : Area = area p.start (p.size + new.size) in
    let size : add64 p.size new.size ≡ p.size + new.size = omega arith in
    let apart : (0 == add64 (last_address p.start (p.size + new.size)) 1) ≡ false =
      unfold last_address in ground arith in
    rw (write-append, size, read_unused-holding pre larger (omega arith), apart)
merge_predecessor_lem pre p new (s ∷ rest) q r o e h =
    let larger : Area = area p.start (p.size + new.size) in
    let size : add64 p.size new.size ≡ p.size + new.size = omega arith in
    let after : add64 (last_address p.start (p.size + new.size)) 1 ≡ end new =
      unfold last_address in omega arith in
    rw (write-append, size, read_behind-holding pre larger s rest, after)
      (ground (
        arith,
        write-holding pre larger (area p.start (p.size + new.size + s.size)) (s ∷ rest),
        shift_left_behind-holding pre (area p.start (p.size + new.size + s.size)) s rest h,
        index-remove pre (s ∷ rest),
      ))

-- Without a merge with `p` the code goes on as if `p` were not there.
merge_successor_behind :
    (pre : List Area) (p new : Area) (rest : List Area)
    → IsProper new
    → IsOrdered 0 rest
    → length pre + length (p ∷ rest) < 10
    → merge_successor (suc (length pre)) new (holding pre (p ∷ rest))
      ≡ ok (pos 0, holding pre (p ∷ settle new rest))
merge_successor_behind pre p new rest r o h =
    let room : length (pre ++ (p ∷ [])) + length rest < 10 = omega (arith, length-snoc pre p) in
    rw holding-snoc at (
      subst₂
        (λ i t. merge_successor i new t ≡ ok (pos 0, holding (pre ++ (p ∷ [])) (settle new rest)))
        (length-snoc pre p) (holding-snoc pre p rest)
        (merge_successor_lem (pre ++ (p ∷ [])) new rest r o room))

end_lem : (p : Area) → IsProper p → add64 (last_address p.start p.size) 1 ≡ end p
unfolding last_address
end_lem p q = omega arith

-- A proper area counts as used, and the unused entry does not.
used : (s : Area) → IsProper s → is_free s ≡ false
unfolding is_free
used s q = ground arith

unused : is_free no_area ≡ true
unfolding is_free
unused = refl

-- The code between the search and the merges, behind the area `p`.
insert_behind_lem :
    (pre : List Area) (p new : Area) (rest : List Area)
    → IsProper p
    → IsProper new
    → IsOrdered (end p) rest
    → length pre + length (p ∷ rest) < 10
    → insert_at (suc (length pre)) new (holding pre (p ∷ rest))
      ≡ ok ((place_behind p new rest).0, holding pre (place_behind p new rest).1)
unfolding insert_at
insert_behind_lem pre p new [] q r o h =
    rw
      (
        read-append,
        overlapp_lem p new q r,
        read_unused-holding pre p (omega arith),
        unused,
        end_lem p q,
      )
      (ground (
        arith,
        merge_predecessor_lem pre p new [] q r o,
        merge_successor_behind pre p new [] r tt h,
      ))
insert_behind_lem pre p new (s ∷ rest) q r o h =
    rw
      (
        read-append,
        overlapp_lem p new q r,
        read_behind-holding pre p s rest,
        used s o.1,
        overlapp_lem s new o.1 r,
        end_lem p q,
      )
      (ground (
        arith,
        merge_predecessor_lem pre p new (s ∷ rest) q r o,
        merge_successor_behind pre p new (s ∷ rest) r (omega arith, o.1, o.2) h,
      ))

insert_front_lem :
    (new : Area) (rest : List Area)
    → IsProper new
    → IsOrdered 0 rest
    → length rest < 10
    → insert_at 0 new (holding [] rest) ≡ ok ((place new rest).0, holding [] (place new rest).1)
unfolding insert_at
insert_front_lem new [] r o h = rw unused (merge_successor_lem [] new [] r o (omega arith))
insert_front_lem new (s ∷ rest) r o h =
    rw (used s o.1, overlapp_lem s new o.1 r)
      (ground (arith, merge_successor_lem [] new (s ∷ rest) r o (omega arith)))

search_behind :
    (pre : List Area) (p new : Area) (live : List Area)
    → IsProper p
    → IsProper new
    → IsOrdered (end p) live
    → length pre + length (p ∷ live) < 10
    → (find_index new.start
          (length live)
          (suc (length pre))
          (holding pre (p ∷ live)).free_memory_areas
        >>= λ i. insert_at i new (holding pre (p ∷ live)))
      ≡ ok ((placed_behind p new live).0, holding pre (placed_behind p new live).1)
unfolding find_index
search_behind pre p new [] q r o h =
    rw (read_unused-holding pre p (omega arith)) (insert_behind_lem pre p new [] q r o h)
search_behind pre p new (a ∷ rest) q r o h =
    let room : length (pre ++ (p ∷ [])) + length (a ∷ rest) < 10 =
      omega (arith, length-snoc pre p) in
    let after = search_behind (pre ++ (p ∷ [])) a new rest o.1 r o.2 room in
    let after' =
      subst₂
        (λ i t.
          (find_index new.start (length rest) (suc i) t.free_memory_areas >>= λ j.
          insert_at j new t)
          ≡ ok (
            (placed_behind a new rest).0,
            holding (pre ++ (p ∷ [])) (placed_behind a new rest).1,
          ))
        (length-snoc pre p) (holding-snoc pre p (a ∷ rest)) after in
    let after'' = rw holding-snoc at after' in
    rw (read_behind-holding pre p a rest)
      (ground (arith, after'', insert_behind_lem pre p new (a ∷ rest) q r o h))

search_front :
    (new : Area) (live : List Area)
    → IsProper new
    → IsOrdered 0 live
    → length live < 10
    → (find_index new.start (length live) 0 (holding [] live).free_memory_areas >>= λ i.
        insert_at i new (holding [] live))
      ≡ ok ((placed new live).0, holding [] (placed new live).1)
unfolding find_index
search_front new [] r o h = insert_front_lem new [] r o h
search_front new (a ∷ rest) r o h = ground (
  arith,
  search_behind [] a new rest o.1 r o.2 (omega arith),
  insert_front_lem new (a ∷ rest) r o h,
)

-- `insert_area` on a table with an unused entry, for an area that ends below 2 ^ 64.
pub insert_area_refines :
    (start size : ℕ) (live : List Area)
    → 0 < size
    → start + size < 2 ^ 64
    → IsOrdered 0 live
    → length live < 10
    → insert_area start size (table_of live)
      ≡ ok ((placed (area start size) live).0, table_of (placed (area start size) live).1)
unfolding insert_area table_of
insert_area_refines start size live p b o h =
    let new : Area = area start size in
    let proper : IsProper new = record { positive = p; below = b } in
    let all = search_front new live proper o h in
    let all' =
      subst
        (λ t.
          (find_index start (length live) 0 t.free_memory_areas >>= λ i. insert_at i new t)
          ≡ ok ((placed new live).0, holding [] (placed new live).1))
        (holding-nil live) all in
    let all'' = rw (holding-nil (placed new live).1) at all' in
    let room : (length live == 10) ≡ false = ground arith in
    let wanted : (size == 0) ≡ false = ground arith in rw (room, wanted) all''
