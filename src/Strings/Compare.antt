-- ===== src/Strings/Compare.antt =====
-- `k_strcmp`.
use grub_os_iso_image.Common.{
  ℕ, zero, suc, ◌+◌, ◌<◌, ◌≡◌, inl, inr, Bool, true, false, not, ◌&&◌, ◌||◌, List, [], ◌∷◌, arith,
  ◌==◌, if◌then◌else◌, Bool-cases, length, Run, ok, ◌>>=◌, read, read-eq-ok,
}
use mathlib.Core.Path.{subst}
use grub_os_iso_image.Strings.{compare_from, k_strcmp}
use grub_os_iso_image.Strings.Copy.{IsString, IsString-within}

abbrev pub same_string : List ℕ → List ℕ → Bool
same_string [] [] = true
same_string [] (_ ∷ _) = false
same_string (_ ∷ _) [] = false
same_string (a ∷ s) (b ∷ t) = a == b && same_string s t

-- `k_strcmp` after its loop.
judge : ℕ → ℕ → List ℕ → ℕ × ℕ → Run ℕ
judge str1 str2 memory (failed, i) = do
  a ← read memory (str1 + i)
  b ← read memory (str2 + i)
  ok (if (a == 0 && not (b == 0)) || (not (a == 0) && b == 0) then 1 else failed)

compare_from_lem :
    (fuel str1 str2 i : ℕ) (memory s t : List ℕ)
    → IsString memory (str1 + i) s
    → IsString memory (str2 + i) t
    → length s < fuel
    → (compare_from fuel str1 str2 i memory >>= judge str1 str2 memory)
      ≡ ok (if same_string s t then 0 else 1)
unfolding compare_from judge
compare_from_lem zero str1 str2 i memory s t h g f = absurd (omega arith)
compare_from_lem (suc fuel) str1 str2 i memory [] [] h g f =
    let first = read-eq-ok memory (str1 + i) 0 h.1 in
    let second = read-eq-ok memory (str2 + i) 0 g.1 in rw (first, h.0, first, h.0, second, g.0)
compare_from_lem (suc fuel) str1 str2 i memory [] (b ∷ t) h g f =
    let first = read-eq-ok memory (str1 + i) 0 h.1 in
    let second =
      read-eq-ok memory (str2 + i) 0 (omega (arith, IsString-within memory (str2 + i) (b ∷ t) g)) in
    let more : (b == 0) ≡ false = ground (arith, g.1) in
    rw (first, h.0, first, h.0, second, g.0, more)
compare_from_lem (suc fuel) str1 str2 i memory (a ∷ s) [] h g f =
    let first =
      read-eq-ok memory (str1 + i) 0 (omega (arith, IsString-within memory (str1 + i) (a ∷ s) h)) in
    let second = read-eq-ok memory (str2 + i) 0 g.1 in
    let more : (a == 0) ≡ false = ground (arith, h.1) in
    rw (first, h.0, more, second, g.0, first, h.0, more, second, g.0)
compare_from_lem (suc fuel) str1 str2 i memory (a ∷ s) (b ∷ t) h g f =
    let first =
      read-eq-ok memory (str1 + i) 0 (omega (arith, IsString-within memory (str1 + i) (a ∷ s) h)) in
    let second =
      read-eq-ok memory (str2 + i) 0 (omega (arith, IsString-within memory (str2 + i) (b ∷ t) g)) in
    let more : (a == 0) ≡ false = ground (arith, h.1) in
    let more' : (b == 0) ≡ false = ground (arith, g.1) in
    let after =
      compare_from_lem fuel str1 str2 (suc i) memory s t
        (subst (λ n. IsString memory n s) (omega arith) h.2)
        (subst (λ n. IsString memory n t) (omega arith) g.2) (omega arith) in
    elim (Bool-cases (a == b)) [
      | inl same ↦ rw (first, h.0, more, second, g.0, more', same) after
      | inr different ↦
          rw (first, h.0, more, second, g.0, more', different, first, h.0, more, second, g.0, more')
    ]

-- For two strings in memory `k_strcmp` returns 0 if they are the same and else 1.
pub k_strcmp_lem :
    (str1 str2 : ℕ) (memory s t : List ℕ)
    → IsString memory str1 s
    → IsString memory str2 t
    → k_strcmp str1 str2 memory ≡ ok (if same_string s t then 0 else 1)
unfolding k_strcmp judge
k_strcmp_lem str1 str2 memory s t h g =
    compare_from_lem (suc (length memory)) str1 str2 0 memory s t
      (subst (λ n. IsString memory n s) (omega arith) h)
      (subst (λ n. IsString memory n t) (omega arith) g)
      (omega (arith, IsString-within memory str1 s h))
