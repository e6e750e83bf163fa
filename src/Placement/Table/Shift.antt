-- ===== src/Placement/Table/Shift.antt =====
-- What the two shifting loops do to a table: one removes an entry, the other doubles one.
use Prim.Native.Nat.add
use native.Mathlib.Nat.{add-zero, add-suc}
use grub_os_iso_image.Common.{
  fault, ℕ, zero, suc, ◌≡◌, refl, List, [], ◌∷◌, ◌++◌, ok, ◌>>=◌, >>=-ok, >>=_assoc, read, write,
  length, replicate,
}
use grub_os_iso_image.Placement.Area.{Area, no_area}
use grub_os_iso_image.Placement.Table.{shift_left, shift_right}

-- One round of `shift_left` behind the first entry does to the tail what the loop does to a list.
shift_left_cons :
    (rounds j : ℕ) (a : Area) (l : List Area)
    → shift_left rounds (suc j) (a ∷ l) ≡ (shift_left rounds j l >>= λ l'. ok (a ∷ l'))
unfolding shift_left
shift_left_cons zero j a l = refl
shift_left_cons (suc rounds) j a l = simp (>>=_assoc, shift_left_cons rounds)

shift_left_head :
    (a : Area) (post : List Area) (k : ℕ)
    → shift_left (suc (length post)) 0 (a ∷ post ++ replicate (suc k) no_area)
      ≡ ok (post ++ replicate (suc (suc k)) no_area)
unfolding shift_left
shift_left_head a [] k = refl
shift_left_head a (b ∷ post) k =
    rw
      (
        shift_left_cons (suc (length post)) 0 b (b ∷ post ++ replicate (suc k) no_area),
        shift_left_head b post k,
      )
      refl

-- `shift_left` from an entry to the end of the live areas removes the entry, if the table has an
-- unused entry behind them.
pub shift_left_removes :
    (pre : List Area) (a : Area) (post : List Area) (k : ℕ)
    → shift_left (suc (length post)) (length pre) (pre ++ (a ∷ post ++ replicate (suc k) no_area))
      ≡ ok (pre ++ (post ++ replicate (suc (suc k)) no_area))
shift_left_removes [] a post k = shift_left_head a post k
shift_left_removes (b ∷ pre) a post k =
    rw
      (
        shift_left_cons (suc (length post)) (length pre) b
            (pre ++ (a ∷ post ++ replicate (suc k) no_area)),
        shift_left_removes pre a post k,
      )
      refl

shift_right_cons :
    (rounds i : ℕ) (a : Area) (l : List Area)
    → shift_right rounds (suc i) (a ∷ l) ≡ (shift_right rounds i l >>= λ l'. ok (a ∷ l'))
unfolding shift_right
shift_right_cons zero i a l = refl
shift_right_cons (suc rounds) i a l = simp (add.suc i rounds, >>=_assoc, shift_right_cons rounds)

-- The last round of `shift_right` moves the lowest entry.
shift_right_last :
    (rounds i : ℕ) (l : List Area)
    → shift_right (suc rounds) i l
      ≡ (shift_right rounds (suc i) l >>= λ l'. read l' i >>= λ p. write l' (suc i) p)
unfolding shift_right
shift_right_last zero i l = simp (add-zero, >>=-ok)
shift_right_last (suc rounds) i l =
    simp (add-suc i rounds, add.suc i rounds, >>=_assoc, shift_right_last rounds i)

shift_right_head :
    (a : Area) (post rest : List Area) (z : Area)
    → shift_right (suc (length post)) 0 (a ∷ post ++ (z ∷ rest)) ≡ ok (a ∷ a ∷ post ++ rest)
shift_right_head a [] rest z = unfold shift_right in refl
shift_right_head a (p ∷ post) rest z =
    rw
      (
        shift_right_last (suc (length post)) 0 (a ∷ p ∷ post ++ (z ∷ rest)),
        shift_right_cons (suc (length post)) 0 a (p ∷ post ++ (z ∷ rest)),
        shift_right_head p post rest z,
      )
      refl

-- `shift_right` from the end of the live areas down to an entry doubles the entry, if the table
-- has an unused entry.
pub shift_right_doubles :
    (pre : List Area) (a : Area) (post rest : List Area) (z : Area)
    → shift_right (suc (length post)) (length pre) (pre ++ (a ∷ post ++ (z ∷ rest)))
      ≡ ok (pre ++ (a ∷ a ∷ post ++ rest))
shift_right_doubles [] a post rest z = shift_right_head a post rest z
shift_right_doubles (b ∷ pre) a post rest z =
    rw
      (
        shift_right_cons (suc (length post)) (length pre) b (pre ++ (a ∷ post ++ (z ∷ rest))),
        shift_right_doubles pre a post rest z,
      )
      refl

shift_left_head_faults :
    (a : Area) (post : List Area) → shift_left (suc (length post)) 0 (a ∷ post) ≡ fault
unfolding shift_left
shift_left_head_faults a [] = refl
shift_left_head_faults a (b ∷ post) =
    rw (shift_left_cons (suc (length post)) 0 b (b ∷ post), shift_left_head_faults b post) refl

-- With no entry behind the live areas the loop reads past the end of the table.
pub shift_left_faults :
    (pre : List Area) (a : Area) (post : List Area)
    → shift_left (suc (length post)) (length pre) (pre ++ (a ∷ post)) ≡ fault
shift_left_faults [] a post = shift_left_head_faults a post
shift_left_faults (b ∷ pre) a post =
    rw
      (
        shift_left_cons (suc (length post)) (length pre) b (pre ++ (a ∷ post)),
        shift_left_faults pre a post,
      )
      refl
