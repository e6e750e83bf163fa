-- ===== src/Placement/Cover/Halt.antt =====
-- The loop of `allocate_area_cover` ends, whatever the table holds: the index `i` moves towards
-- `free_memory_area_index`, or a split uses up an entry.
use grub_os_iso_image.Common.{
  ℕ, zero, suc, ◌+◌, ◌-◌, ◌*◌, ◌≤◌, ◌<◌, refl, ◌≢◌, inl, inr, Bool, true, false, List, arith, ltb,
  ◌==◌, if◌then◌else◌, ltb→lt, Bool-cases, Run, ok, fault, out_of_fuel, ◌>>=◌, read, write,
  >>=-halts, read-halts, write-halts, ℤ,
}
use grub_os_iso_image.Placement.Area.{Area}
use grub_os_iso_image.Placement.Table.{Table, shift_left, shift_right}
use grub_os_iso_image.Placement.Cover.{
  Round, return, next, erase, replace, split, cover_area, cover_round, cover_from, cover_fuel,
  allocate_area_cover,
}

shift_left-halts : (rounds j : ℕ) (areas : List Area) → shift_left rounds j areas ≢ out_of_fuel
unfolding shift_left
shift_left-halts zero j areas = λ e. cc e
shift_left-halts (suc rounds) j areas =
    >>=-halts (read areas (suc j)) _ (read-halts areas (suc j)) λ a e.
      >>=-halts (write areas j a) _ (write-halts areas j a)
        λ areas' e'. shift_left-halts rounds (suc j) areas'

shift_right-halts : (rounds i : ℕ) (areas : List Area) → shift_right rounds i areas ≢ out_of_fuel
unfolding shift_right
shift_right-halts zero i areas = λ e. cc e
shift_right-halts (suc rounds) i areas =
    >>=-halts (read areas (i + rounds)) _ (read-halts areas (i + rounds)) λ a e.
      >>=-halts (write areas (suc (i + rounds)) a) _ (write-halts areas (suc (i + rounds)) a)
        λ areas' e'. shift_right-halts rounds i areas'

-- How many rounds are left at most.
abbrev measure : ℕ → Table → ℕ
measure i t = 2 * (t.free_memory_area_index - i) + (10 - t.free_memory_area_index)

-- A round returns, faults, or goes on with a smaller measure.
data Descends (m : ℕ) : Run Round → Type 0 where
  returned : {c : ℤ} {t : Table} → Descends m (ok (return c t))
  faulted : Descends m fault
  advanced :
      {i : ℕ} {t : Table}
      → t.free_memory_area_index ≤ 10
      → measure i t < m
      → Descends m (ok (next i t))

module _ (i : ℕ) (t : Table) (within : i < t.free_memory_area_index)
    (small : t.free_memory_area_index ≤ 10) where
  abbrev Falls : Run Round → Type 0
  Falls r = Descends (measure i t) r

  Falls->>= :
      {A : Type 0} (r : Run A) (k : A → Run Round)
      → r ≢ out_of_fuel
      → ((a : A) → Falls (k a))
      → Falls (r >>= k)
  Falls->>= (ok a) k h g = g a
  Falls->>= fault k h g = faulted
  Falls->>= out_of_fuel k h g = absurd (h refl)

  erase-Falls : Falls (erase i t)
  unfolding erase
  erase-Falls =
      Falls->>= (shift_left _ i t.free_memory_areas) _ (shift_left-halts _ i _)
        λ areas. advanced (omega arith) (omega arith)

  replace-Falls : (piece : Area) → Falls (replace i piece t)
  unfolding replace
  replace-Falls piece =
      Falls->>= (write t.free_memory_areas i piece) _ (write-halts _ i piece)
        λ areas. advanced (omega arith) (omega arith)

  split-Falls : (left right : Area) → Falls (split i left right t)
  unfolding split
  split-Falls left right = elim (Bool-cases (t.free_memory_area_index == 10)) [
    | inl full ↦ rw full returned
    | inr room ↦ rw room (
        Falls->>= (write t.free_memory_areas i left) _ (write-halts _ i left) λ areas.
          Falls->>= (shift_right _ i areas) _ (shift_right-halts _ i areas) λ areas'.
            Falls->>= (write areas' (suc i) right) _ (write-halts areas' (suc i) right) λ areas''.
              let unused : t.free_memory_area_index < 10 = ground arith in
              advanced (omega arith) (omega arith))
  ]

  Falls-if : (b : Bool) (x y : Run Round) → Falls x → Falls y → Falls (if b then x else y)
  Falls-if true x y h g = h
  Falls-if false x y h g = g

  next-Falls : Falls (ok (next (suc i) t))
  next-Falls = advanced (omega arith) (omega arith)

  cover_area-Falls : (start size : ℕ) (a : Area) → Falls (cover_area start size i a t)
  unfolding cover_area
  cover_area-Falls start size a =
      search (Falls-if, next-Falls, erase-Falls, replace-Falls, split-Falls) depth 8

cover_round-Descends :
    (start size i : ℕ) (t : Table)
    → t.free_memory_area_index ≤ 10
    → Descends (measure i t) (cover_round start size i t)
unfolding cover_round
cover_round-Descends start size i t small = elim (Bool-cases (ltb i t.free_memory_area_index)) [
  | inl within ↦
      let below : i < t.free_memory_area_index = ltb→lt i t.free_memory_area_index within in
      rw within (
        Falls->>= i t below small (read t.free_memory_areas i) _ (read-halts t.free_memory_areas i)
          (cover_area-Falls i t below small start size))
  | inr over ↦ rw over returned
]

cover_from-halts :
    (start size fuel i : ℕ) (t : Table)
    → t.free_memory_area_index ≤ 10
    → measure i t < fuel
    → cover_from start size fuel i t ≢ out_of_fuel
unfolding cover_from
cover_from-halts start size zero i t small m = absurd (omega arith)
cover_from-halts start size (suc fuel) i t small m =
    after (λ i' t' small' m'. cover_from-halts start size fuel i' t' small' (omega arith))
      (cover_round start size i t) (cover_round-Descends start size i t small)
  where
    after :
        ((i' : ℕ) (t' : Table)
          → t'.free_memory_area_index ≤ 10
          → measure i' t' < measure i t
          → cover_from start size fuel i' t' ≢ out_of_fuel)
        → (r : Run Round) → Descends (measure i t) r
        → ◌>>=◌ {B = ℤ × Table} r (λ q. elim q [
          | return c t' ↦ ok (c, t')
          | next i' t' ↦ cover_from start size fuel i' t'
        ])
          ≢ out_of_fuel
    after h r returned = λ e. cc e
    after h r faulted = λ e. cc e
    after h r (advanced {i = i'} {t = t'} small' m') = h i' t' small' m'

-- `allocate_area_cover` never uses up the rounds that the model gives its loop, for any range and
-- any table whose index is at most ten.
pub allocate_area_cover-halts :
    (start size : ℕ) (t : Table)
    → t.free_memory_area_index ≤ 10
    → allocate_area_cover start size t ≢ out_of_fuel
unfolding allocate_area_cover
allocate_area_cover-halts start size t small = elim (Bool-cases (t.free_memory_area_index == 0)) [
  | inl empty ↦ rw empty (λ e. cc e)
  | inr some_area ↦ rw some_area (cover_from-halts start size cover_fuel 0 t small (omega arith))
]
