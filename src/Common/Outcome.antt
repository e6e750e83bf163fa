-- ===== src/Common/Outcome.antt =====
-- What running a piece of C gives: a result, undefined behaviour, or a loop that has used up the
-- rounds that the model gives it.
use Prim.Native.Nat.{ℕ, zero, suc, ◌<◌, ◌≤◌}
use native.Mathlib.Omega.{arith}
use mathlib.Core.Path.{◌≡◌, refl}
use mathlib.Core.Logic.{◌≢◌}
use mathlib.Core.List.{List, [], ◌∷◌, ◌++◌}
use grub_os_iso_image.Common.Lists.{length, get_or, set}

pub data Run {ℓ} (A : Type ℓ) : Type ℓ where
  ok : A → Run A
  fault : Run A
  out_of_fuel : Run A

module _ {ℓ κ} {A : Type ℓ} {B : Type κ} where
  infixl 5 ◌>>=◌
  abbrev pub ◌>>=◌ : Run A → (A → Run B) → Run B
  ok a >>= k = k a
  fault >>= k = fault
  out_of_fuel >>= k = out_of_fuel

module _ {ℓ κ} {A : Type ℓ} {B : Type κ} where
  pub >>=-halts :
      (r : Run A) (k : A → Run B)
      → r ≢ out_of_fuel
      → ((a : A) → r ≡ ok a → k a ≢ out_of_fuel)
      → (r >>= k) ≢ out_of_fuel
  >>=-halts (ok a) k h g = g a refl
  >>=-halts fault k h g = λ e. cc e
  >>=-halts out_of_fuel k h g = λ e. h refl

  pub >>=-eq-ok :
      (r : Run A) (k : A → Run B) {b : B} → (r >>= k) ≡ ok b → (a : A) × (r ≡ ok a) × (k a ≡ ok b)
  >>=-eq-ok (ok a) k h = (a, refl, h)
  >>=-eq-ok fault k h = cc
  >>=-eq-ok out_of_fuel k h = cc

module _ {ℓ κ μ} {A : Type ℓ} {B : Type κ} {C : Type μ} where
  pub >>=_assoc :
      (r : Run A) (f : A → Run B) (g : B → Run C) → (r >>= f >>= g) ≡ (r >>= λ a. f a >>= g)
  >>=_assoc (ok a) f g = refl
  >>=_assoc fault f g = refl
  >>=_assoc out_of_fuel f g = refl

module _ {ℓ} {A : Type ℓ} where
  -- `xs[i]`: an access outside the array is undefined.
  abbrev pub read : List A → ℕ → Run A
  read [] _ = fault
  read (x ∷ _) zero = ok x
  read (_ ∷ xs) (suc i) = read xs i

  -- `xs[i] = v`
  abbrev pub write : List A → ℕ → A → Run (List A)
  write [] _ _ = fault
  write (_ ∷ xs) zero v = ok (v ∷ xs)
  write (x ∷ xs) (suc i) v = write xs i v >>= λ ys. ok (x ∷ ys)

  pub read-append :
      (pre : List A) (a : A) (post : List A) → read (pre ++ (a ∷ post)) (length pre) ≡ ok a
  read-append [] a post = refl
  read-append (x ∷ pre) a post = read-append pre a post

  pub write-append :
      (pre : List A) (a b : A) (post : List A)
      → write (pre ++ (a ∷ post)) (length pre) b ≡ ok (pre ++ (b ∷ post))
  write-append [] a b post = refl
  write-append (x ∷ pre) a b post = rw (write-append pre a b post)

  -- To split on how a run ends and keep the equation.
  pub data Ending (r : Run A) : Type ℓ where
    returns : (a : A) → r ≡ ok a → Ending r
    faults : r ≡ fault → Ending r
    exhausts : r ≡ out_of_fuel → Ending r

  pub ending : (r : Run A) → Ending r
  ending (ok a) = returns a refl
  ending fault = faults refl
  ending out_of_fuel = exhausts refl

  pub >>=-ok : (r : Run A) → (r >>= λ a. ok a) ≡ r
  >>=-ok (ok a) = refl
  >>=-ok fault = refl
  >>=-ok out_of_fuel = refl

  pub read-halts : (xs : List A) (i : ℕ) → read xs i ≢ out_of_fuel
  read-halts [] i = λ e. cc e
  read-halts (x ∷ xs) zero = λ e. cc e
  read-halts (x ∷ xs) (suc i) = read-halts xs i

  pub write-halts : (xs : List A) (i : ℕ) (v : A) → write xs i v ≢ out_of_fuel
  write-halts [] i v = λ e. cc e
  write-halts (x ∷ xs) zero v = λ e. cc e
  write-halts (x ∷ xs) (suc i) v =
      >>=-halts (write xs i v) _ (write-halts xs i v) (λ ys e e'. cc e')

  pub read-eq-ok : (xs : List A) (i : ℕ) (d : A) → i < length xs → read xs i ≡ ok (get_or xs i d)
  read-eq-ok [] i d h = absurd (omega arith)
  read-eq-ok (x ∷ xs) zero d h = refl
  read-eq-ok (x ∷ xs) (suc i) d h = read-eq-ok xs i d (omega arith)

  pub read-eq-fault : (xs : List A) (i : ℕ) → length xs ≤ i → read xs i ≡ fault
  read-eq-fault [] i h = refl
  read-eq-fault (x ∷ xs) zero h = absurd (omega arith)
  read-eq-fault (x ∷ xs) (suc i) h = read-eq-fault xs i (omega arith)

  pub write-eq-ok : (xs : List A) (i : ℕ) (v : A) → i < length xs → write xs i v ≡ ok (set xs i v)
  write-eq-ok [] i v h = absurd (omega arith)
  write-eq-ok (x ∷ xs) zero v h = refl
  write-eq-ok (x ∷ xs) (suc i) v h = rw (write-eq-ok xs i v (omega arith))
